-- ===== src/Core/Scheduler/Streak.antt =====
-- `PopForFairShare` (internal/core/pool.go) with the streak that `dispatch` (internal/core/scheduler.go)
-- counts, over one pop and one dispatch.
use proxy_lm_go.Common.{
  ℕ, ◌+◌, ◌≤◌, ◌<◌, ℤ, ◌==◌, ◌≡◌, ◌⊎◌, inl, inr, true, false, Option, some, arith, Bool-cases,
  eq_iff, NoneOf,
}
use mathlib.Core.Option.{some-injective}
use proxy_lm_go.Core.Models.{Job, ServerInfo, current_model_string, set_current_model}
use proxy_lm_go.Core.Pool.{JobPool, pop_for_fair_share, switches, has_current, force_switch}
use proxy_lm_go.Core.Pool.Fifo.{Pops}
use proxy_lm_go.Core.Pool.FairShare.{pop_for_fair_share-switches}
use proxy_lm_go.Core.Scheduler.Dispatch.{begin_dispatch}

-- The streak counts dispatches of the loaded model, as `dispatch` leaves it.
abbrev pub InStep : ServerInfo → Type 0
InStep s = s.last_dispatched_model ≡ current_model_string s

streak_after :
    (s : ServerInfo) (j : Job) (now : ℕ)
    → ((begin_dispatch s j now).0.consecutive_model_count ≡ s.consecutive_model_count + 1)
      ⊎ ((begin_dispatch s j now).0.consecutive_model_count ≡ 1)
unfolding begin_dispatch set_current_model
streak_after s j now = ground arith

streak_switched :
    (s : ServerInfo) (j : Job) (now : ℕ)
    → InStep s
    → (j.model == current_model_string s) ≡ false
    → (begin_dispatch s j now).0.consecutive_model_count ≡ 1
unfolding begin_dispatch set_current_model current_model_string
streak_switched s j now i h = ground (
  arith,
  eq_iff j.model s.last_dispatched_model,
  eq_iff s.last_dispatched_model j.model,
  eq_iff (current_model_string s) j.model,
  eq_iff j.model (current_model_string s),
)

popped_switches :
    {p : JobPool} (s : ServerInfo) {r : JobPool × Option Job} {j : Job}
    → Pops (switches s) p r
    → r.1 ≡ some j
    → (j.model == current_model_string s) ≡ false
unfolding switches
popped_switches s {j = j} (Pops.oldest before k after e h n) q =
    let same : k ≡ j = some-injective _ _ q in rw (← same) (ground arith)

not_forced :
    (s : ServerInfo) (limit : ℕ)
    → 0 < limit
    → InStep s
    → has_current s ≡ true
    → force_switch s (ℤ.pos limit) ≡ false
    → s.consecutive_model_count + 1 ≤ limit
unfolding force_switch has_current
not_forced s limit l i c f = ground arith

taken_healthy :
    (p : JobPool) (s : ServerInfo) (max : ℤ) (j : Job)
    → (pop_for_fair_share p s max).1 ≡ some j
    → s.healthy ≡ true
unfolding pop_for_fair_share
taken_healthy p s max j e = ground arith

-- While a job of another of the server's models waits that has not failed on it, a job that a server
-- with a loaded model, which is the model of its streak, takes and dispatches under a positive limit
-- never makes the streak longer than the limit.
pub fair_share_bound :
    (p : JobPool) (s : ServerInfo) (limit now : ℕ) (j : Job)
    → 0 < limit
    → InStep s
    → has_current s ≡ true
    → ¬ NoneOf (switches s) p.jobs
    → (pop_for_fair_share p s (ℤ.pos limit)).1 ≡ some j
    → (begin_dispatch s j now).0.consecutive_model_count ≤ limit
fair_share_bound p s limit now j l i c w e = elim (Bool-cases (force_switch s (ℤ.pos limit))) [
  | inl f ↦
      let h = taken_healthy p s (ℤ.pos limit) j e in
      let other = popped_switches s (pop_for_fair_share-switches p s (ℤ.pos limit) h f c w) e in
      omega (arith, streak_switched s j now i other)
  | inr f ↦ ground (arith, streak_after s j now, not_forced s limit l i c f)
]
