-- ===== src/Core/Pool/Coverage.antt =====
-- internal/core/pool.go, `PopForCoverage`: when a server gets a job for another model.
use proxy_lm_go.Common.{
  ◌==◌, ◌≡◌, subst, ◌⊎◌, inl, inr, ◌↔◌, true, false, none, some, List, arith, any, NoneOf,
  take_first, take_first-Takes, Takes-none, Takes-passes, Option-cases,
}
use proxy_lm_go.Core.Models.{Job, ServerInfo, current_model_string}
use proxy_lm_go.Core.Pool.{
  JobPool, pop_for_coverage, drains, compatible, has_current, holds_current, choose_coverage,
}
use proxy_lm_go.Core.Pool.Fifo.{Pops, popped-Pops_last}

-- A healthy server gets a job exactly when a compatible one waits.
pub pop_for_coverage-none_iff :
    (p : JobPool) (s : ServerInfo) (all : List ServerInfo)
    → ((pop_for_coverage p s all).1 ≡ none) ↔ ((s.healthy ≡ false) ⊎ NoneOf (compatible s) p.jobs)
unfolding pop_for_coverage choose_coverage
pop_for_coverage-none_iff p s all =
    let t = Takes-none (take_first-Takes (compatible s) p.jobs) in
    (ground (arith, t), ground (arith, t))

drains_current :
    (s : ServerInfo) (j : Job) → drains s j ≡ true → (j.model == current_model_string s) ≡ true
unfolding drains
drains_current s j h = ground arith

-- If the job handed out is for another model than the loaded one, then another healthy server has
-- the loaded model, or no job for it waits that this server may drain.
pub pop_for_coverage-keeps :
    (p : JobPool) (s : ServerInfo) (all : List ServerInfo) (j : Job)
    → (pop_for_coverage p s all).1 ≡ some j
    → has_current s ≡ true
    → (j.model == current_model_string s) ≡ false
    → (any (holds_current s) all ≡ true) ⊎ NoneOf (drains s) p.jobs
unfolding pop_for_coverage choose_coverage
pop_for_coverage-keeps p s all j e c d = elim (Option-cases (take_first (drains s) p.jobs)) [
  | inl n ↦ inr ((Takes-none (take_first-Takes (drains s) p.jobs)).0 n)
  | inr (t, f) ↦ inl (ground (arith, drains_current s t.0, drains_of t f))
]
  where
    drains_of : (t : Job × List Job) → take_first (drains s) p.jobs ≡ some t → drains s t.0 ≡ true
    drains_of t f = Takes-passes (take_first-Takes (drains s) p.jobs) f

-- If no model is loaded, or another healthy server has it too, and a compatible job waits, a healthy
-- server gets the oldest compatible job.
pub pop_for_coverage-head :
    (p : JobPool) (s : ServerInfo) (all : List ServerInfo)
    → s.healthy ≡ true
    → (has_current s ≡ false) ⊎ (any (holds_current s) all ≡ true)
    → ¬ NoneOf (compatible s) p.jobs
    → Pops (compatible s) p (pop_for_coverage p s all)
unfolding pop_for_coverage choose_coverage
pop_for_coverage-head p s all h (inl k) m =
    subst (Pops (compatible s) p) (ground arith)
      (popped-Pops_last p (take_first-Takes (compatible s) p.jobs) m)
pop_for_coverage-head p s all h (inr k) m =
    subst (Pops (compatible s) p) (ground arith)
      (popped-Pops_last p (take_first-Takes (compatible s) p.jobs) m)
