-- ===== src/Core/Submit/Deferred.antt =====
-- internal/core/scheduler.go: `submitDeferred`, the loop of the pull strategies, and `Submit`.
-- What the workers and the client do in one round of the loop is a record. The loop runs on fuel.
pub mod Rounds
pub mod Answers
use proxy_lm_go.Common.{
  ℕ, zero, suc, ◌+◌, String, ◌==◌, Bool, true, false, ◌&&◌, ◌||◌, Option, none, some, List, [], ◌∷◌,
  if◌then◌else◌, ltb, leb, less64,
}
use proxy_lm_go.Core.Models.{Err, no_server, empty_job, Job, JobResult, zero_result, ServerInfo}
use proxy_lm_go.Core.Retry.{RetryConfig, backoff}
use proxy_lm_go.Core.Pool.{
  any_healthy_compatible, pick_idle_by_priority, mark_visited, clear_visited,
}
use proxy_lm_go.Core.Submit.{
  Answer, returned, panicked, out_of_fuel, Tried, PushRound, is_final, submit_push,
}

-- How the wait of a job in the pool ends: a worker's result, a cancellation that found the job still
-- in the pool, or a cancellation that had to wait for the worker's result.
pub data PoolWait : Type 0 where
  received : JobResult → PoolWait
  cancelled_in_pool : Err → PoolWait
  cancelled_running : Err → JobResult → PoolWait

-- The environment of one round: the servers when the job is pushed and after the wait, whether the
-- context ends during the pause, and how the wait of the pushed job ends.
pub record PullRound : Type 0 where
  pub servers : List ServerInfo
  pub servers_after : List ServerInfo
  pub context_done : Option Err
  pub wait : Job → PoolWait

pub record PullState : Type 0 where
  pub job : Job
  pub last_result : JobResult
  pub total : ℕ

-- One stay of the job in the pool: the job as it was pushed, the server that was woken, and how the
-- stay ended.
pub record Stay : Type 0 where
  pub pushed : Job
  pub woken : Option ServerInfo
  pub ends : PoolWait

pub data PullStep : Type 0 where
  stops : List Stay → Answer → PullStep
  retries : Stay → PullState → PullStep

-- The server that failed is excluded from the next round.
unfoldable pub exclude_failed : Job → String → Job
exclude_failed j server = if server == "" then j else mark_visited j server

-- The exclusion is lifted if no other server is left.
unfoldable pub lift_exclusion : List ServerInfo → Job → Job
lift_exclusion servers j =
    if any_healthy_compatible servers j.model j.visited then j else clear_visited j

-- After a worker's result.
unfoldable pub after_result : RetryConfig → PullRound → PullState → Stay → JobResult → PullStep
after_result c round st stay res =
    if is_final res || leb c.max_attempts (st.total + 1)
    then stops (stay ∷ []) (returned res res.err)
    else retries stay (record {
      job = lift_exclusion round.servers_after (exclude_failed st.job res.server);
      last_result = res;
      total = st.total + 1;
    })

abbrev pub settle : RetryConfig → PullRound → PullState → Stay → PoolWait → PullStep
settle c round st stay (received res) =
    after_result c round st stay (record res { attempt = st.total + 1 })
settle c round st stay (cancelled_in_pool e) =
    stops (stay ∷ []) (returned (record zero_result { attempt = st.total + 1 }) (some e))
settle c round st stay (cancelled_running e res) = stops (stay ∷ []) (returned res (some e))

-- The pause before an attempt after the first.
unfoldable pub pull_pause_ends : RetryConfig → ℕ → Option Err → Option Err
pull_pause_ends c total context_done =
    if ltb 0 total && less64 0 (backoff c (total + 1)) then context_done else none

unfoldable pub stay_of : PullRound → Job → Stay
stay_of round j = record {
  pushed = j;
  woken = pick_idle_by_priority round.servers j.model j.visited;
  ends = round.wait j;
}

abbrev pub after_pull_pause : RetryConfig → PullRound → PullState → Option Err → PullStep
after_pull_pause c round st (some e) = stops [] (returned st.last_result (some e))
after_pull_pause c round st none = settle c round st (stay_of round st.job) (round.wait st.job)

unfoldable pub pull_step : RetryConfig → PullRound → PullState → PullStep
pull_step c round st = after_pull_pause c round st (pull_pause_ends c st.total round.context_done)

abbrev pub continue_pull : (PullState → List Stay × Answer) → PullStep → List Stay × Answer
continue_pull rest (stops stays answer) = (stays, answer)
continue_pull rest (retries stay st) = (stay ∷ (rest st).0, (rest st).1)

unfoldable pub pull_loop : RetryConfig → (ℕ → PullRound) → ℕ → PullState → List Stay × Answer
pull_loop c env zero st = ([], out_of_fuel)
pull_loop c env (suc fuel) st = continue_pull (pull_loop c env fuel) (pull_step c (env st.total) st)

-- `servers` are the servers at the first test. One round of fuel for each attempt is enough:
-- `submit_deferred-total`.
unfoldable pub submit_deferred :
    RetryConfig → List ServerInfo → Job → (ℕ → PullRound) → List Stay × Answer
submit_deferred c servers j env =
    if any_healthy_compatible servers j.model []
    then pull_loop c env (c.max_attempts + 1)
        (record { job = j; last_result = zero_result; total = 0 })
    else ([], returned zero_result (some (no_server j.model)))
