-- ===== src/Core/Scheduler/Crash.antt =====
-- What an attempt leaves behind: the health of the server, its queue and its counters.
use proxy_lm_go.Common.{
  ℕ, ◌+◌, ◌≡◌, inl, inr, Bool, false, not, ◌&&◌, Option, none, some, List, [], arith, if◌then◌else◌,
  is_some, Bool-cases,
}
use proxy_lm_go.Core.Models.{Job, JobResult, ServerInfo, set_current_model}
use proxy_lm_go.Core.Perf.{PerfTracker}
use proxy_lm_go.Core.Scheduler.Errors.{is_connection_error}
use proxy_lm_go.Core.Scheduler.Queue.{Message}
use proxy_lm_go.Core.Scheduler.Dispatch.{
  Float64, run_with_panic_guard, reloads, begin_dispatch, failed_before_response, note_failure,
  update_slow_flag, Attempt, record_perf, stamped, finish_dispatch, dispatch,
}
use proxy_lm_go.Core.Scheduler.Outcome.{note_failure-effect}

-- The attempt failed with a connection error before the client got a byte.
unfoldable pub crashed : JobResult → Bool
crashed res = failed_before_response res && is_connection_error res.err

-- A server after an attempt with this result, against the server before it.
pub record Left (s t : ServerInfo) (res : JobResult) : Type 0 where
  pub health : t.healthy ≡ (s.healthy && not (crashed res))
  pub waiting : t.queue ≡ (if crashed res && s.healthy then [] else s.queue)
  pub failures :
      t.failure_count
      ≡ (if failed_before_response res then s.failure_count + 1 else s.failure_count)

begin_dispatch-kept :
    (s : ServerInfo) (j : Job) (now : ℕ)
    → let t = (begin_dispatch s j now).0 in
      (t.healthy ≡ s.healthy) × (t.queue ≡ s.queue) × (t.failure_count ≡ s.failure_count)
unfolding begin_dispatch set_current_model
begin_dispatch-kept s j now = ground arith

Left-from :
    (s s' t : ServerInfo) (res : JobResult)
    → (s'.healthy ≡ s.healthy) × (s'.queue ≡ s.queue) × (s'.failure_count ≡ s.failure_count)
    → Left s' t res
    → Left s t res
Left-from s s' t res k l = ground arith

module _ (fl : Float64) where
  record_perf-Left :
      (s t : ServerInfo) (r : JobResult) (j : Job) (res : JobResult) (reloaded : Bool)
      (a : Attempt fl) (sent : List Message) (perf : Option PerfTracker)
      → Left s t r
      → Left s (record_perf fl t j res reloaded a sent perf).server r
  unfolding record_perf update_slow_flag
  record_perf-Left s t r j res reloaded a sent none l = l
  record_perf-Left s t r j res reloaded a sent (some p) l = ground arith

  note_failure-Left :
      (s : ServerInfo) (j : Job) (reloaded : Bool) (a : Attempt fl)
      → Left s (note_failure s (stamped fl s j reloaded a)).0 (run_with_panic_guard a.outcome)
  unfolding stamped crashed failed_before_response
  note_failure-Left s j reloaded a =
      let (h, q, f, _) = note_failure-effect s (stamped fl s j reloaded a) in
      record { health = h; waiting = q; failures = f }

  idle_again-Left :
      (s t : ServerInfo) (r : JobResult) → Left s t r → Left s (record t { in_flight = false }) r
  idle_again-Left s t r l = record { health = l.health; waiting = l.waiting; failures = l.failures }

  finish_dispatch-Left :
      (s : ServerInfo) (j : Job) (reloaded : Bool) (a : Attempt fl) (perf : Option PerfTracker)
      → Left s (finish_dispatch fl s j reloaded a perf).server (run_with_panic_guard a.outcome)
  unfolding finish_dispatch
  finish_dispatch-Left s j reloaded a perf =
      elim (Bool-cases (is_some (stamped fl s j reloaded a).err)) [
        | inl e ↦ rw e (idle_again-Left s _ _ (note_failure-Left s j reloaded a))
        | inr e ↦ rw e (
            idle_again-Left s _ _
              (record_perf-Left s _ _ _ _ reloaded a _ perf (note_failure-Left s j reloaded a)))
      ]

  -- A server keeps its health and its queue, unless the attempt failed with a connection error before
  -- the response started: then it is unhealthy, and its queue is empty if it was healthy. The failure
  -- count goes up by one exactly when the attempt failed before the response started.
  pub dispatch-Left :
      (s : ServerInfo) (j : Job) (now : ℕ) (a : Attempt fl) (perf : Option PerfTracker)
      → Left s (dispatch fl s j now a perf).server (run_with_panic_guard a.outcome)
  unfolding dispatch
  dispatch-Left s j now a perf =
      Left-from s (begin_dispatch s j now).0 _ _ (begin_dispatch-kept s j now) (
        finish_dispatch-Left (begin_dispatch s j now).0 (begin_dispatch s j now).1 (reloads s j) a
          perf)
