-- ===== src/Core/Scheduler/Outcome.antt =====
-- What one attempt does: the crash test, the message to Submit, the durations, the slow flag.
use proxy_lm_go.Common.{
  ℕ, ◌+◌, sub_ℕ, ◌+ℤ◌, ◌≡◌, refl, sym, ap, ◌∙◌, inl, inr, Bool, true, false, not, ◌&&◌, Option,
  none, some, List, [], ◌∷◌, ◌++◌, map, arith, if◌then◌else◌, is_some, Bool-cases, eq_iff,
}
use proxy_lm_go.Core.Models.{
  server_unhealthy, Job, JobResult, zero_result, ServerInfo, current_model_string,
  set_current_model,
}
use proxy_lm_go.Core.Perf.{PerfTracker}
use proxy_lm_go.Core.Scheduler.Errors.{is_connection_error}
use proxy_lm_go.Core.Scheduler.Queue.{Message, fail_server_queue}
use proxy_lm_go.Core.Scheduler.Dispatch.{
  Float64, run_with_panic_guard, reloads, begin_dispatch, failed_before_response, note_failure,
  Attempt, Dispatched, with_ttft, record_perf, stamped, finish_dispatch, dispatch,
}

-- While `Run` works the server is in flight, its loaded model is the job's, and so is the model of
-- its streak.
pub begin_dispatch-state :
    (s : ServerInfo) (j : Job) (now : ℕ)
    → let during = (begin_dispatch s j now).0 in
      (during.in_flight ≡ true)
      × (current_model_string during ≡ j.model)
      × (during.last_dispatched_model ≡ j.model)
      × (during.queue ≡ s.queue)
      × (during.healthy ≡ s.healthy)
unfolding begin_dispatch current_model_string set_current_model reloads
begin_dispatch-state s j now = ground (
  arith,
  eq_iff (current_model_string s) j.model,
  eq_iff j.model "",
  eq_iff s.last_dispatched_model j.model,
)

mark_dispatched-id : (s : ServerInfo) (j : Job) (now : ℕ) → (begin_dispatch s j now).1.id ≡ j.id
unfolding begin_dispatch
mark_dispatched-id s j now = ground arith

pub begin_dispatch-name :
    (s : ServerInfo) (j : Job) (now : ℕ) → (begin_dispatch s j now).0.name ≡ s.name
unfolding begin_dispatch set_current_model
begin_dispatch-name s j now = ground arith

pub note_failure-effect :
    (s : ServerInfo) (res : JobResult)
    → let crashed = failed_before_response res && is_connection_error res.err in
      ((note_failure s res).0.healthy ≡ (s.healthy && not crashed))
      × ((note_failure s res).0.queue ≡ (if crashed && s.healthy then [] else s.queue))
      × ((note_failure s res).0.failure_count
          ≡ (if failed_before_response res then s.failure_count + 1 else s.failure_count))
      × ((note_failure s res).1 ≡ (
          if crashed && s.healthy
          then map
              (λ (w : Job). (
                w.id,
                record zero_result { err = some (server_unhealthy s.name); server = s.name },
              ))
              s.queue
          else []))
unfolding note_failure fail_server_queue
note_failure-effect s res = ground arith

module _ (fl : Float64) where
  -- The attempt ends with the message of the job's own result.
  abbrev pub Reports : ServerInfo → Job → Dispatched fl → Type 0
  Reports s j d =
      (failures : List Message) × (res : JobResult) × (d.messages ≡ failures ++ ((j.id, res) ∷ []))
      × (res.server ≡ s.name)
      × (res.run_ms ≡ d.job.run_ms)
      × (res.queue_ms ≡ d.job.queue_ms)

  record_perf-Reports :
      (s : ServerInfo) (j : Job) (res : JobResult) (reloaded : Bool) (a : Attempt fl)
      (failures : List Message) (perf : Option PerfTracker)
      → res.server ≡ s.name
      → res.run_ms ≡ j.run_ms
      → res.queue_ms ≡ j.queue_ms
      → Reports s j (record_perf fl s j res reloaded a failures perf)
  unfolding record_perf
  record_perf-Reports s j res reloaded a failures none n r q = (failures, res, refl, n, r, q)
  record_perf-Reports s j res reloaded a failures (some p) n r q =
      (failures, with_ttft fl res a.total_ms, refl, ground arith, ground arith, ground arith)

  note_failure-name : (s : ServerInfo) (res : JobResult) → (note_failure s res).0.name ≡ s.name
  unfolding note_failure fail_server_queue
  note_failure-name s res = ground arith

  finish_dispatch-Reports :
      (s : ServerInfo) (j : Job) (reloaded : Bool) (a : Attempt fl) (perf : Option PerfTracker)
      → Reports s j (finish_dispatch fl s j reloaded a perf)
  unfolding finish_dispatch stamped
  finish_dispatch-Reports s j reloaded a perf =
      elim (Bool-cases (is_some (run_with_panic_guard a.outcome).err)) [
        | inl e ↦ rw e (noted.1, res, refl, refl, refl, refl)
        | inr e ↦
            let (f, r, m, n, t, q) =
              record_perf-Reports noted.0 done res reloaded a noted.1 perf
                (sym (note_failure-name s res)) refl refl in
            rw e (f, r, m, n ∙ note_failure-name s res, t, q)
      ]
    where
      res : JobResult
      res = stamped fl s j reloaded a

      noted : ServerInfo × List Message
      noted = note_failure s res

      done : Job
      done = record j { run_ms = j.run_ms +ℤ sub_ℕ a.run_end a.run_start }

  -- After an attempt the server is free again, and the last message is the job's own result, stamped
  -- with the server's name and the job's durations.
  pub dispatch-Reports :
      (s : ServerInfo) (j : Job) (now : ℕ) (a : Attempt fl) (perf : Option PerfTracker)
      → ((dispatch fl s j now a perf).server.in_flight ≡ false)
        × Reports s j (dispatch fl s j now a perf)
  unfolding dispatch
  dispatch-Reports s j now a perf =
      let (begun, marked) = begin_dispatch s j now in
      let (f, r, m, n, t, q) = finish_dispatch-Reports begun marked (reloads s j) a perf in
      (
        refl,
        (
          f,
          r,
          m ∙ ap (λ id. f ++ ((id, r) ∷ [])) (mark_dispatched-id s j now),
          n ∙ begin_dispatch-name s j now,
          t,
          q,
        ),
      )
