-- ===== src/Examples/Servers.antt =====
-- The router, an attempt on a server, the pauses, the stored observations and the polls.

use proxy_lm_go.Common.{
  ℕ, suc, ◌+◌, ◌<◌, ℤ, pos, leb_ℤ, ◌+ℤ◌, ◌≡◌, refl, true, false, ◌&&◌, true≢false, none, some, List,
  [], ◌∷◌, arith, NoneOf, length, get_elem?,
}
use proxy_lm_go.Core.Models.{url_error, op_error, message, JobResult, zero_result, ServerInfo}
use proxy_lm_go.Core.Router.{
  model_affinity_least_busy, round_robin, chosen, pick, candidates, is_candidate, server_has_model,
  choice_of, pick_by, pick_round_robin, index_mod,
}
use proxy_lm_go.Core.Router.Affinity.{BestLoaded, pick-loaded}
use proxy_lm_go.Core.Router.RoundRobin.{after_picks, pick-round_robin_fair}
use proxy_lm_go.Core.Scheduler.Dispatch.{Float64, returns, run_with_panic_guard, Attempt, dispatch}
use proxy_lm_go.Core.Scheduler.Outcome.{Reports, dispatch-Reports}
use proxy_lm_go.Core.Scheduler.Worker.{WorkRound, Idle, work, added, work-Idle}
use proxy_lm_go.Core.Scheduler.Meanwhile.{joins, turns, joined}
use proxy_lm_go.Core.Scheduler.Crash.{Left, dispatch-Left}
use proxy_lm_go.Core.Perf.{PerfKey, new_perf_tracker, set_sink, load}
use proxy_lm_go.Core.Perf.Restart.{Call, record_all, rows, load-record_all}
use proxy_lm_go.Core.Discovery.{
  listed, list_failed, no_prober, DiscoveryEntry, has_explicit, poll_one,
}
use proxy_lm_go.Core.Discovery.Health.{InService, poll_one-InService}
use proxy_lm_go.Core.Discovery.Outage.{
  below_limit, HealthEvent, polled, attempted, health_steps, failed_polls_in, none_crashed,
  health_steps-failures,
}
use proxy_lm_go.Examples.Data.{a_job, a_server, a_router, first_server, two_servers}

some_candidate : ¬ NoneOf (is_candidate "m" []) two_servers
unfolding is_candidate server_has_model
some_candidate n = true≢false n.0

pick-loaded_example :
    (s : ServerInfo) × (pick (a_router model_affinity_least_busy) "m" []
      ≡ (a_router model_affinity_least_busy, chosen s))
    × BestLoaded "m" [] two_servers s
pick-loaded_example = pick-loaded (a_router model_affinity_least_busy) "m" [] tt some_candidate

two_candidates : length (candidates (a_router round_robin) "m" []) ≡ 2
unfolding candidates is_candidate server_has_model
two_candidates = refl

pick-round_robin_fair_example :
    (k : ℕ) × (k < length (candidates (a_router round_robin) "m" []))
    × ((pick (after_picks k (a_router round_robin) "m") "m" []).1
        ≡ choice_of (get_elem? (candidates (a_router round_robin) "m" []) 1))
pick-round_robin_fair_example =
    pick-round_robin_fair (a_router round_robin) "m" 1 refl (omega (arith, two_candidates))
      (omega (arith, two_candidates))

picks_first : (pick (a_router round_robin) "m" []).1 ≡ chosen first_server
unfolding pick candidates is_candidate server_has_model pick_by pick_round_robin index_mod
picks_first = refl

-- Integers in the place of float64.
abbrev whole_numbers : Float64
whole_numbers = record {
  F = ℤ;
  zero_f = pos 0;
  of_int = λ n. n;
  twice = λ n. n +ℤ n;
  leb_f = leb_ℤ;
}

-- A refused connection.
abbrev refused : JobResult
refused = record zero_result { err = some (url_error false (op_error "dial" (message "refused"))) }

abbrev crash : Attempt whole_numbers
crash = record {
  outcome = returns refused;
  run_start = 5;
  run_end = 9;
  total_ms = pos 4;
  predicted = pos 0;
}

abbrev waiting : ServerInfo
waiting = a_server "one" (some "m") ("m" ∷ []) (a_job "j2" "m" ∷ [])

dispatch-Reports_example :
    ((dispatch whole_numbers waiting (a_job "j1" "m") 5 crash none).server.in_flight ≡ false)
    × Reports whole_numbers waiting
        (a_job "j1" "m")
        (dispatch whole_numbers waiting (a_job "j1" "m") 5 crash none)
dispatch-Reports_example = dispatch-Reports whole_numbers waiting (a_job "j1" "m") 5 crash none

-- In the first round (the worker has fuel for three) another job comes while the server refuses the one
-- that it runs.
abbrev rounds : ℕ → WorkRound whole_numbers
rounds (suc (suc n)) = record {
  before = turns true ∷ [];
  context_done = none;
  now = 5;
  during = joins (a_job "j3" "m") ∷ [];
  attempt = crash;
}
rounds n = record { before = []; context_done = none; now = 9; during = []; attempt = crash }

one_joins : added whole_numbers rounds 3 ≡ 1
unfolding added joined
one_joins = refl

work-Idle_example :
    Idle whole_numbers (1 + added whole_numbers rounds 3) (work whole_numbers rounds 3 waiting none)
work-Idle_example = work-Idle whole_numbers rounds 3 waiting none (omega (arith, one_joins))

dispatch-Left_example :
    Left waiting (dispatch whole_numbers waiting (a_job "j1" "m") 5 crash none).server refused
unfolding run_with_panic_guard
dispatch-Left_example = dispatch-Left whole_numbers waiting (a_job "j1" "m") 5 crash none

abbrev key_m : PerfKey
key_m = record { server = "one"; model = "m"; endpoint = "chat" }

abbrev two_calls : List Call
two_calls =
    record { key = key_m; prompt = pos 10; output = pos 20; total_ms = pos 300; loaded = true }
    ∷ record { key = key_m; prompt = pos 11; output = pos 0; total_ms = pos 20; loaded = false }
    ∷ []

load-record_all_example :
    let (p, stored) = record_all (set_sink new_perf_tracker true) two_calls in
    (load new_perf_tracker key_m (rows key_m stored)).by_slot key_m ≡ p.by_slot key_m
load-record_all_example = load-record_all two_calls key_m

abbrev in_use : DiscoveryEntry
in_use = record { server = first_server; explicit_models = []; failed_polls = 0 }

-- A poll that fails, a refused connection, and another poll that fails.
abbrev outage : List (HealthEvent whole_numbers)
outage =
    polled (list_failed false) no_prober
    ∷ attempted (a_job "j1" "m") 5 crash none
    ∷ polled (list_failed true) no_prober
    ∷ []

starts_below : first_server.healthy ≡ true → below_limit (pos 3) 0 ≡ true
unfolding below_limit
starts_below h = refl

both_count : (has_explicit [] && true) ≡ false
unfolding has_explicit
both_count = refl

one_counts : (has_explicit [] && false) ≡ false
unfolding has_explicit
one_counts = refl

health_steps-failures_example :
    ((health_steps whole_numbers (pos 3) outage in_use).failed_polls
      ≡ 0 + failed_polls_in whole_numbers outage)
    × ((health_steps whole_numbers (pos 3) outage in_use).server.healthy ≡ (
        (true && none_crashed whole_numbers outage)
        && below_limit (pos 3) (0 + failed_polls_in whole_numbers outage)))
health_steps-failures_example =
    health_steps-failures whole_numbers (pos 3) outage in_use starts_below
      (one_counts, (tt, (both_count, tt)))

poll_one-InService_example :
    InService first_server (poll_one (pos 3) (listed ("k" ∷ [])) no_prober in_use)
poll_one-InService_example =
    poll_one-InService (pos 3) (listed ("k" ∷ [])) no_prober in_use (λ h. h)

fixed_models : has_explicit ("k" ∷ []) ≡ true
unfolding has_explicit
fixed_models = refl
