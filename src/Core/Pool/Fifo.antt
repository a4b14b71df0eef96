-- ===== src/Core/Pool/Fifo.antt =====
-- internal/core/pool.go, `PopFor`: which job it takes.
use proxy_lm_go.Common.{
  ◌≡◌, ◌⊎◌, ◌↔◌, Bool, true, false, Option, none, some, List, ◌∷◌, ◌++◌, arith, or_else, NoneOf,
  Takes, take_first-Takes, Takes-none,
}
use proxy_lm_go.Core.Models.{Job, ServerInfo}
use proxy_lm_go.Core.Pool.{JobPool, pop_for, popped, drains, compatible, has_current, drain_current}

-- The oldest job that passes is handed out, and the others stay in their order.
pub data Pops (passes : Job → Bool) (p : JobPool) : JobPool × Option Job → Type 0 where
  oldest :
      (before : List Job) (j : Job) (after : List Job)
      → p.jobs ≡ before ++ (j ∷ after)
      → passes j ≡ true
      → NoneOf passes before
      → Pops passes p (record { jobs = before ++ after }, some j)

module _ {passes : Job → Bool} (p : JobPool) where
  pub popped-Pops :
      {r : Option (Job × List Job)} (next : Option (Job × List Job))
      → Takes passes p.jobs r
      → ¬ NoneOf passes p.jobs
      → Pops passes p (popped p (or_else r next))
  popped-Pops next (Takes.found before j after e h n) m = oldest before j after e h n
  popped-Pops next (Takes.missing n) m = absurd (m n)

  pub popped-Pops_last :
      {r : Option (Job × List Job)}
      → Takes passes p.jobs r
      → ¬ NoneOf passes p.jobs
      → Pops passes p (popped p r)
  popped-Pops_last (Takes.found before j after e h n) m = oldest before j after e h n
  popped-Pops_last (Takes.missing n) m = absurd (m n)

-- While a job for the loaded model waits that has not failed on this server, a healthy server gets
-- the oldest such job.
pub pop_for-drains :
    (p : JobPool) (s : ServerInfo)
    → s.healthy ≡ true
    → has_current s ≡ true
    → ¬ NoneOf (drains s) p.jobs
    → Pops (drains s) p (pop_for p s)
unfolding pop_for drain_current
pop_for-drains p s h c m = simp (h, c) (popped-Pops p _ (take_first-Takes (drains s) p.jobs) m)

drain_current-none :
    (p : JobPool) (s : ServerInfo)
    → (drain_current p s ≡ none) ↔ ((has_current s ≡ false) ⊎ NoneOf (drains s) p.jobs)
unfolding drain_current
drain_current-none p s =
    let t = Takes-none (take_first-Takes (drains s) p.jobs) in
    (ground (arith, t), ground (arith, t))

-- When no job for the loaded model can be drained and a compatible job waits, a healthy server gets
-- the oldest compatible job.
pub pop_for-compatible :
    (p : JobPool) (s : ServerInfo)
    → s.healthy ≡ true
    → (has_current s ≡ false) ⊎ NoneOf (drains s) p.jobs
    → ¬ NoneOf (compatible s) p.jobs
    → Pops (compatible s) p (pop_for p s)
unfolding pop_for
pop_for-compatible p s h d m =
    simp (h, (drain_current-none p s).1 d)
      (popped-Pops_last p (take_first-Takes (compatible s) p.jobs) m)

-- Nothing is handed out exactly when the server is unhealthy, or no job can be drained for its model
-- and no job is compatible.
pub pop_for-none_iff :
    (p : JobPool) (s : ServerInfo)
    → ((pop_for p s).1 ≡ none) ↔ (
        (s.healthy ≡ false)
        ⊎ (((has_current s ≡ false) ⊎ NoneOf (drains s) p.jobs) × NoneOf (compatible s) p.jobs))
unfolding pop_for
pop_for-none_iff p s =
    let t = Takes-none (take_first-Takes (compatible s) p.jobs) in
    let d = drain_current-none p s in (ground (arith, t, d), ground (arith, t, d))
