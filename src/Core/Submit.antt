-- ===== src/Core/Submit.antt =====
-- internal/core/scheduler.go: `Submit` and its two loops. What other goroutines and the client do
-- between two steps of the loop is given by one record for each attempt. A loop runs on fuel.
pub mod Push
pub mod Deferred
pub mod Entry
use proxy_lm_go.Common.{
  ℕ, zero, suc, ◌+◌, ℤ, String, ◌==◌, Bool, true, false, not, ◌&&◌, ◌||◌, Option, none, some, List,
  [], ◌∷◌, if◌then◌else◌, ltb, leb, less64, contains,
}
use proxy_lm_go.Core.Models.{Err, no_server, empty_job, Job, JobResult, zero_result, ServerInfo}
use proxy_lm_go.Core.Retry.{RetryConfig, backoff}
use proxy_lm_go.Core.Pool.{
  any_healthy_compatible, pick_idle_by_priority, mark_visited, clear_visited,
}
use proxy_lm_go.Core.Router.{Router, Choice, chosen, failed, panics, pick}
use proxy_lm_go.Core.Scheduler.Errors.{is_context_error}

-- `return res, err` of Submit's loops; a panic of `Pick`; or the fuel of the model ran out.
pub data Answer : Type 0 where
  returned : JobResult → Option Err → Answer
  panicked : Answer
  out_of_fuel : Answer

-- One finished attempt: the server and its result.
pub record Tried : Type 0 where
  pub server : ServerInfo
  pub result : JobResult

-- The tests after an attempt that end the loop, whatever comes next: success, a response that has
-- started, a cancelled context.
unfoldable pub is_final : JobResult → Bool
is_final res = elim res.err [ none ↦ true | some e ↦ res.response_started || is_context_error e ]

-- How the wait of `runOnServer` ends: the worker's result, or a cancellation that found the job
-- still in the queue. A cancellation that comes too late waits for the worker's result.
pub data Wait : Type 0 where
  finished : JobResult → Wait
  cancelled_in_queue : Err → Wait

-- `runOnServer`: its error is the `Err` of its result.
unfoldable pub run_on_server : Wait → JobResult
run_on_server (finished res) = res
run_on_server (cancelled_in_queue e) = record zero_result { err = some e }

-- The environment of one attempt of `submitPush`: the router at the two calls of `Pick`, whether the
-- context ends during the pause, and how the wait on the chosen server ends.
pub record PushRound : Type 0 where
  pub router : Router
  pub router_again : Router
  pub context_done : Option Err
  pub wait : ServerInfo → Wait

pub record PushState : Type 0 where
  pub last_result : JobResult
  pub last_err : Option Err
  pub last_failed : String
  pub total : ℕ

abbrev pub push_start : PushState
push_start = record { last_result = zero_result; last_err = none; last_failed = ""; total = 0 }

unfoldable pub exclusion : String → List String
exclusion last_failed = if last_failed == "" then [] else last_failed ∷ []

abbrev pick_again : PushRound → String → PushState → Choice → Choice
pick_again round model st (failed e) =
    if st.last_failed == "" then failed e else (pick round.router_again model []).1
pick_again round model st (chosen s) = chosen s
pick_again round model st panics = panics

-- The choice of a server: without the one that failed last, and with it if there is no other.
unfoldable pub choose : PushRound → String → PushState → Choice
unfolding exclusion
choose round model st =
    pick_again round model st (pick round.router model (exclusion st.last_failed)).1

pub data PushStep : Type 0 where
  stops : List Tried → Answer → PushStep
  retries : Tried → PushState → PushStep

-- The last error, or the router's if no attempt has failed.
abbrev pub last_or : PushState → Err → Option Err → Answer
last_or st e none = returned zero_result (some e)
last_or st e (some l) = returned st.last_result (some l)

abbrev pub give_up : PushState → Err → Answer
give_up st e = last_or st e st.last_err

-- The pause before an attempt after the first, unless it is zero; `some e` if the context ends first.
unfoldable pub pause_ends : RetryConfig → ℕ → Option Err → Option Err
pause_ends c total context_done =
    if ltb 1 total && less64 0 (backoff c total) then context_done else none

-- After the wait on a server.
unfoldable pub after_wait : RetryConfig → ServerInfo → ℕ → JobResult → PushStep
after_wait c s total res =
    if is_final res || leb c.max_attempts total
    then stops (record { server = s; result = res } ∷ []) (returned res res.err)
    else retries (record { server = s; result = res })
        (record { last_result = res; last_err = res.err; last_failed = s.name; total = total })

-- After the pause: the context has ended, or the job is run.
abbrev pub after_pause :
    RetryConfig → PushRound → PushState → ServerInfo → ℕ → Option Err → PushStep
after_pause c round st s total (some e) =
    stops [] (returned (record (st.last_result) { attempt = total }) (some e))
after_pause c round st s total none =
    after_wait c s total
      (record (run_on_server (round.wait s)) { attempt = total; server = s.name })

unfoldable pub attempt : RetryConfig → PushRound → PushState → ServerInfo → PushStep
attempt c round st s =
    let total = st.total + 1 in
    after_pause c round st s total (pause_ends c total round.context_done)

abbrev pub step_with : RetryConfig → PushRound → PushState → Choice → PushStep
step_with c round st (chosen s) = attempt c round st s
step_with c round st (failed e) = stops [] (give_up st e)
step_with c round st panics = stops [] panicked

unfoldable pub push_step : RetryConfig → String → PushRound → PushState → PushStep
push_step c model round st = step_with c round st (choose round model st)

abbrev pub continue_with : (PushState → List Tried × Answer) → PushStep → List Tried × Answer
continue_with rest (stops tried answer) = (tried, answer)
continue_with rest (retries t st) = (t ∷ (rest st).0, (rest st).1)

-- The loop of `submitPush`: the attempts in order, and what is returned.
unfoldable pub push_loop :
    RetryConfig → String → (ℕ → PushRound) → ℕ → PushState → List Tried × Answer
push_loop c model env zero st = ([], out_of_fuel)
push_loop c model env (suc fuel) st =
    continue_with (push_loop c model env fuel) (push_step c model (env st.total) st)

-- One round of fuel for each attempt is enough: `submit_push-total`.
unfoldable pub submit_push : RetryConfig → Job → (ℕ → PushRound) → List Tried × Answer
submit_push c j env = push_loop c j.model env (c.max_attempts + 1) push_start
