-- ===== src/Examples/Requests.antt =====
-- Requests: two attempts, the first one fails before its response starts.
use proxy_lm_go.Common.{ℕ, ◌≤◌, ◌≡◌, ◌≢◌, refl, none, some, length, if◌then◌else◌, eqb, arith}
use proxy_lm_go.Core.Models.{Job, JobResult, ServerInfo}
use proxy_lm_go.Common.Sort.{stable_sort}
use proxy_lm_go.Core.Models.{current_model_string, has_model}
use proxy_lm_go.Core.Retry.{backoff}
use proxy_lm_go.Core.Pool.{any_healthy_compatible, mark_visited}
use proxy_lm_go.Core.Scheduler.Errors.{is_context_error}
use proxy_lm_go.Core.Router.{
  model_affinity_least_busy, pick, candidates, is_candidate, server_has_model, pick_by,
  pick_model_affinity_least_busy, is_loaded, pick_least_busy, less_busy, load,
}
use proxy_lm_go.Core.Submit.{
  Wait, finished, PushRound, returned, out_of_fuel, submit_push, push_loop, push_step, choose,
  exclusion, attempt, after_wait, pause_ends, is_final, run_on_server,
}
use proxy_lm_go.Core.Submit.Push.Attempts.{
  submit_push-attempts, submit_push-OnlyRetriable, OnlyRetriable, submit_push-Rotates, Rotates,
  submit_push-success, LastIs,
}
use proxy_lm_go.Core.Submit.Deferred.{
  received, PullRound, submit_deferred, pull_loop, pull_step, pull_pause_ends, stay_of,
  after_result, exclude_failed, lift_exclusion,
}
use proxy_lm_go.Core.Submit.Deferred.Answers.{
  submit_deferred-attempts, submit_deferred-success, LastReceived,
}
use proxy_lm_go.Core.Submit.Entry.{push_mode, submit, submit-total}
use proxy_lm_go.Examples.Data.{
  a_job, a_router, two_servers, three_attempts, succeeded, failed_early,
}

abbrev job_m : Job
job_m = a_job "j" "m"

abbrev answers : ℕ → ServerInfo → Wait
answers round s = finished (if eqb round 0 then failed_early s.name else succeeded)

abbrev push_env : ℕ → PushRound
push_env round = record {
  router = a_router model_affinity_least_busy;
  router_again = a_router model_affinity_least_busy;
  context_done = none;
  wait = answers round;
}

abbrev pull_env : ℕ → PullRound
pull_env round = record {
  servers = two_servers;
  servers_after = two_servers;
  context_done = none;
  wait = λ j. received (if eqb round 0 then failed_early "one" else succeeded);
}

submit_push-attempts_example : length (submit_push three_attempts job_m push_env).0 ≤ 3
submit_push-attempts_example = submit_push-attempts three_attempts job_m push_env (omega arith)

submit_push-OnlyRetriable_example : OnlyRetriable (submit_push three_attempts job_m push_env).0
submit_push-OnlyRetriable_example = submit_push-OnlyRetriable three_attempts job_m push_env

submit_push-Rotates_example :
    Rotates "m" push_env 0 "" (submit_push three_attempts job_m push_env).0
submit_push-Rotates_example = submit_push-Rotates three_attempts job_m push_env

submit-total_example : submit three_attempts (push_mode push_env) 5 job_m (some job_m) ≢ out_of_fuel
submit-total_example = submit-total three_attempts (push_mode push_env) 5 job_m (some job_m)

submit_deferred-attempts_example :
    length (submit_deferred three_attempts two_servers job_m pull_env).0 ≤ 3
submit_deferred-attempts_example =
    submit_deferred-attempts three_attempts two_servers job_m pull_env (omega arith)

abbrev done : JobResult
done = record succeeded { attempt = 2 }

-- The first attempt fails on the server that has the model loaded, the second one succeeds on the other.
push_answer : (submit_push three_attempts job_m push_env).1 ≡ returned done none
unfolding submit_push push_loop push_step choose exclusion attempt after_wait pause_ends is_final
    run_on_server pick candidates is_candidate server_has_model pick_by
    pick_model_affinity_least_busy is_loaded current_model_string pick_least_busy stable_sort
    less_busy load backoff is_context_error
push_answer = refl

submit_push-success_example :
    LastIs (submit_push three_attempts job_m push_env).0 done × (done.err ≡ none)
submit_push-success_example = submit_push-success three_attempts job_m push_env done push_answer

pull_answer : (submit_deferred three_attempts two_servers job_m pull_env).1 ≡ returned done none
unfolding submit_deferred pull_loop pull_step pull_pause_ends stay_of after_result exclude_failed
    lift_exclusion any_healthy_compatible has_model mark_visited is_final backoff is_context_error
pull_answer = refl

submit_deferred-success_example :
    LastReceived 0 (submit_deferred three_attempts two_servers job_m pull_env).0 done
submit_deferred-success_example =
    submit_deferred-success three_attempts two_servers job_m pull_env done pull_answer
