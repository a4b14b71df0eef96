-- ===== src/Core/Pool/FairShare.antt =====
-- `PopForFairShare` against `PopFor`: the limit on jobs of one model in a row.
use proxy_lm_go.Common.{
  ℤ, ◌≤ℤ◌, ◌≡◌, ◌↔◌, true, false, none, arith, NoneOf, take_first, take_first-Takes,
  take_first-none_mono,
}
use proxy_lm_go.Core.Models.{Job, ServerInfo}
use proxy_lm_go.Core.Pool.{
  JobPool, pop_for, pop_for_fair_share, compatible, switches, has_current, force_switch,
}
use proxy_lm_go.Core.Pool.Fifo.{Pops, popped-Pops}

force_switch-off : (s : ServerInfo) (max : ℤ) → max ≤ℤ ℤ.pos 0 → force_switch s max ≡ false
unfolding force_switch
force_switch-off s (ℤ.pos n) h = ground arith
force_switch-off s (ℤ.negsuc n) h = ground arith

-- A limit of zero or below turns the strategy into `PopFor`.
pub pop_for_fair_share-unlimited :
    (p : JobPool) (s : ServerInfo) (max : ℤ)
    → max ≤ℤ ℤ.pos 0
    → pop_for_fair_share p s max ≡ pop_for p s
unfolding pop_for_fair_share pop_for
pop_for_fair_share-unlimited p s max h = simp (force_switch-off s max h)

-- Once the limit is reached, a healthy server with a loaded model gets the oldest job of another of
-- its models, if one waits that has not failed on this server.
pub pop_for_fair_share-switches :
    (p : JobPool) (s : ServerInfo) (max : ℤ)
    → s.healthy ≡ true
    → force_switch s max ≡ true
    → has_current s ≡ true
    → ¬ NoneOf (switches s) p.jobs
    → Pops (switches s) p (pop_for_fair_share p s max)
unfolding pop_for_fair_share
pop_for_fair_share-switches p s max h f c m =
    simp (h, f, c) (popped-Pops p _ (take_first-Takes (switches s) p.jobs) m)

-- A job that a forced switch may take is compatible.
switches-compatible : (s : ServerInfo) (j : Job) → switches s j ≡ true → compatible s j ≡ true
unfolding switches compatible
switches-compatible s j h = ground arith

take_switch-none :
    (p : JobPool) (s : ServerInfo)
    → take_first (compatible s) p.jobs ≡ none
    → take_first (switches s) p.jobs ≡ none
take_switch-none p s e =
    take_first-none_mono (compatible s) (switches s) p.jobs (switches-compatible s) e

-- The limit never leaves a server idle that `PopFor` would serve, nor the other way round.
pub pop_for_fair_share-none_iff :
    (p : JobPool) (s : ServerInfo) (max : ℤ)
    → ((pop_for_fair_share p s max).1 ≡ none) ↔ ((pop_for p s).1 ≡ none)
unfolding pop_for_fair_share pop_for
pop_for_fair_share-none_iff p s max =
    (ground (arith, take_switch-none p s), ground (arith, take_switch-none p s))
