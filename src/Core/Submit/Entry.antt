-- ===== src/Core/Submit/Entry.antt =====
-- internal/core/scheduler.go: `Submit`, the entry of both modes.
use proxy_lm_go.Common.{ℕ, ◌≢◌, refl, false, Option, none, some, List, ℤ}
use proxy_lm_go.Core.Models.{empty_job, Job, zero_result, ServerInfo}
use proxy_lm_go.Core.Retry.{RetryConfig}
use proxy_lm_go.Core.Submit.{Answer, returned, panicked, out_of_fuel, PushRound, submit_push}
use proxy_lm_go.Core.Submit.Push.Attempts.{submit_push-total}
use proxy_lm_go.Core.Submit.Deferred.{PullRound, submit_deferred}
use proxy_lm_go.Core.Submit.Deferred.Answers.{submit_deferred-total}

-- Whether the scheduler has a pool, with the environment of the loop that runs.
pub data Mode : Type 0 where
  push_mode : (ℕ → PushRound) → Mode
  pull_mode : List ServerInfo → (ℕ → PullRound) → Mode

unfoldable pub start_job : ℕ → Job → Job
start_job clock j = record j {
  submitted_at = some clock;
  dispatched = false;
  queue_ms = ℤ.pos 0;
  run_ms = ℤ.pos 0;
}

-- The durations that the workers left in the job.
abbrev pub with_durations : Job → Answer → Answer
with_durations left (returned res e) =
    returned (record res { run_ms = left.run_ms; queue_ms = left.queue_ms }) e
with_durations left panicked = panicked
with_durations left out_of_fuel = out_of_fuel

abbrev pub run_mode : RetryConfig → Mode → Job → Answer
run_mode c (push_mode env) j = (submit_push c j env).1
run_mode c (pull_mode servers env) j = (submit_deferred c servers j env).1

-- `Submit`: no job or no `Run` is an error. `left` is the job as the workers leave it.
unfoldable pub submit : RetryConfig → Mode → ℕ → Job → Option Job → Answer
submit c mode clock left none = returned zero_result (some empty_job)
submit c mode clock left (some j) = with_durations left (run_mode c mode (start_job clock j))

run_mode-total : (c : RetryConfig) (mode : Mode) (j : Job) → run_mode c mode j ≢ out_of_fuel
run_mode-total c (push_mode env) j = submit_push-total c j env
run_mode-total c (pull_mode servers env) j = submit_deferred-total c servers j env

with_durations-total :
    (left : Job) (a : Answer) → a ≢ out_of_fuel → with_durations left a ≢ out_of_fuel
with_durations-total left (returned res e) h q = cc
with_durations-total left panicked h q = cc
with_durations-total left out_of_fuel h q = h refl

-- `Submit` ends in every mode and for every environment: the fuel of the model is enough.
pub submit-total :
    (c : RetryConfig) (mode : Mode) (clock : ℕ) (left : Job) (j : Option Job)
    → submit c mode clock left j ≢ out_of_fuel
unfolding submit
submit-total c mode clock left none q = cc
submit-total c mode clock left (some j) q =
    with_durations-total left _ (run_mode-total c mode (start_job clock j)) q
