-- ===== src/Core/Scheduler/Dispatch.antt =====
-- `dispatch`: one attempt of a job on a server, in the part before `Run` and the part after it.
-- `findServer` by the server's own name gives that server: names are distinct (validateBackends).
-- Not under src/ or not exact: the float64 of the slow test is the interface `Float64`, the
-- prediction of `perf.Predict` is an argument, and clocks are arguments, in milliseconds.
use proxy_lm_go.Common.{
  ℕ, ◌+◌, ℤ, sub_ℕ, ◌+ℤ◌, String, ◌==◌, Bool, true, false, not, ◌&&◌, Option, none, some, List, [],
  ◌∷◌, ◌++◌, if◌then◌else◌, is_some, leb_ℤ,
}
use proxy_lm_go.Core.Models.{
  panic, server_unhealthy, Job, JobResult, zero_result, ServerInfo, current_model_string,
  set_current_model,
}
use proxy_lm_go.Core.Perf.{PerfTracker, PerfKey, Observation, record_observation}
use proxy_lm_go.Core.Scheduler.Errors.{is_connection_error}
use proxy_lm_go.Core.Scheduler.Queue.{Message, fail_server_queue}

-- What the slow test uses of float64.
pub record Float64 : Type 1 where
  pub F : Type 0
  pub zero_f : F
  pub of_int : ℤ → F
  pub twice : F → F
  pub leb_f : F → F → Bool

-- How `Run` ends: with a result, or with a panic.
pub data RunOutcome : Type 0 where
  returns : JobResult → RunOutcome
  panics : String → RunOutcome

unfoldable pub run_with_panic_guard : RunOutcome → JobResult
run_with_panic_guard (returns res) = res
run_with_panic_guard (panics value) = record zero_result { err = some (panic value) }

unfoldable pub count_streak : ServerInfo → String → ServerInfo
count_streak s model =
    if s.last_dispatched_model == model
    then record s { consecutive_model_count = s.consecutive_model_count + 1 }
    else record s { last_dispatched_model = model; consecutive_model_count = 1 }

abbrev waited : ℕ → Option ℕ → ℤ → ℤ
waited now none queue_ms = queue_ms
waited now (some submitted) queue_ms = sub_ℕ now submitted

-- The wait in the queue is measured at the first dispatch only.
unfoldable pub mark_dispatched : Job → ℕ → Job
mark_dispatched j now =
    if j.dispatched
    then j
    else record j { dispatched = true; queue_ms = waited now j.submitted_at j.queue_ms }

unfoldable pub reloads : ServerInfo → Job → Bool
reloads s j = not (current_model_string s == j.model)

-- Up to the call of `Run`: the server while it runs, and the job.
unfoldable pub begin_dispatch : ServerInfo → Job → ℕ → ServerInfo × Job
unfolding count_streak mark_dispatched
begin_dispatch s j now =
    let loaded = if reloads s j then set_current_model s j.model else s in
    (record (count_streak loaded j.model) { in_flight = true }, mark_dispatched j now)

unfoldable pub failed_before_response : JobResult → Bool
failed_before_response res = is_some res.err && not res.response_started

-- A failed attempt: the failure is counted, and a connection error marks a healthy server unhealthy
-- and fails its queue.
unfoldable pub note_failure : ServerInfo → JobResult → ServerInfo × List Message
note_failure s res =
    let counted = record s { failure_count = s.failure_count + 1 } in
    if failed_before_response res
    then if is_connection_error res.err && s.healthy
      then fail_server_queue (record counted { healthy = false }) (server_unhealthy s.name)
      else (counted, [])
    else (s, [])

module _ (fl : Float64) where
  open fl use {F, zero_f, of_int, twice, leb_f}

  unfoldable pub update_slow_flag : ServerInfo → ℤ → F → ServerInfo
  update_slow_flag s actual_ms predicted =
      if leb_f predicted zero_f
      then s
      else record s { last_slow = leb_f (twice predicted) (of_int actual_ms) }

  -- What the clocks and the tracker say during one attempt.
  pub record Attempt : Type 0 where
    pub outcome : RunOutcome
    pub run_start : ℕ
    pub run_end : ℕ
    pub total_ms : ℤ
    pub predicted : F

  -- After an attempt: the server, the job, the tracker, what its sink got, the sends on `done` channels.
  pub record Dispatched : Type 0 where
    pub server : ServerInfo
    pub job : Job
    pub perf : Option PerfTracker
    pub sunk : Option (PerfKey × Observation)
    pub messages : List Message

  unfoldable pub with_ttft : JobResult → ℤ → JobResult
  with_ttft res total_ms =
      if leb_ℤ res.ttft_ms (ℤ.pos 0) && leb_ℤ (ℤ.pos 0) res.ttft_ms
      then record res { ttft_ms = total_ms }
      else res

  -- Without a tracker nothing is done. The slow test comes before the new point is stored.
  unfoldable pub record_perf :
      ServerInfo → Job → JobResult → Bool → Attempt → List Message → Option PerfTracker → Dispatched
  unfolding with_ttft
  record_perf s j res reloaded a failures none = record {
    server = s;
    job = j;
    perf = none;
    sunk = none;
    messages = failures ++ ((j.id, res) ∷ []);
  }
  record_perf s j res reloaded a failures (some p) =
      let k : PerfKey = record { server = s.name; model = j.model; endpoint = j.endpoint } in
      let stored = record_observation p k res.prompt_tokens res.output_tokens a.total_ms reloaded in
      record {
        server = update_slow_flag s a.total_ms a.predicted;
        job = j;
        perf = some stored.0;
        sunk = stored.1;
        messages = failures ++ ((j.id, with_ttft res a.total_ms) ∷ []);
      }

  -- The result as it is sent: with the durations, the server and the reload.
  unfoldable pub stamped : ServerInfo → Job → Bool → Attempt → JobResult
  stamped s j reloaded a = record (run_with_panic_guard a.outcome) {
    run_ms = j.run_ms +ℤ sub_ℕ a.run_end a.run_start;
    queue_ms = j.queue_ms;
    server = s.name;
    model_reloaded = reloaded;
  }

  abbrev idle_again : Dispatched → Dispatched
  idle_again d = record d { server = record (d.server) { in_flight = false } }

  -- After `Run` has ended.
  unfoldable pub finish_dispatch :
      ServerInfo → Job → Bool → Attempt → Option PerfTracker → Dispatched
  finish_dispatch s j reloaded a perf =
      let res = stamped s j reloaded a in
      let noted = note_failure s res in
      let done = record j { run_ms = j.run_ms +ℤ sub_ℕ a.run_end a.run_start } in
      idle_again (
        if is_some res.err
        then record {
          server = noted.0;
          job = done;
          perf = perf;
          sunk = none;
          messages = noted.1 ++ ((j.id, res) ∷ []);
        }
        else record_perf noted.0 done res reloaded a noted.1 perf)

  -- The whole of `dispatch`; `now` is the clock at its start.
  unfoldable pub dispatch : ServerInfo → Job → ℕ → Attempt → Option PerfTracker → Dispatched
  unfolding begin_dispatch finish_dispatch
  dispatch s j now a perf =
      let begun = begin_dispatch s j now in finish_dispatch begun.0 begun.1 (reloads s j) a perf
