-- ===== src/Examples/Pools.antt =====
-- The pool and the push queue: two jobs of two models, and servers that have both.

use proxy_lm_go.Common.{
  ◌≤◌, pos, ◌==◌, ◌≡◌, refl, ◌⊎◌, true, false, true≢false, some, List, [], ◌∷◌, ◌++◌, Perm, arith,
  NoneOf, any,
}
use proxy_lm_go.Common.Lists.{take_first}
use proxy_lm_go.Core.Models.{ServerInfo, current_model_string, models_snapshot, message}
use proxy_lm_go.Core.Pool.{
  pop_for, pop_for_fair_share, pop_for_coverage, drains, compatible, switches, has_current,
  holds_current, force_switch, choose_coverage,
}
use proxy_lm_go.Core.Pool.Fifo.{Pops, pop_for-drains}
use proxy_lm_go.Core.Pool.Coverage.{pop_for_coverage-keeps}
use proxy_lm_go.Core.Pool.Order.{of_model}
use proxy_lm_go.Core.Pool.History.{
  PoolEvent, pushes, pops, pops_fair, departures, pool_after, arrivals, departures-arrivals,
}
use proxy_lm_go.Core.Scheduler.Queue.{pick_next}
use proxy_lm_go.Core.Scheduler.Queue.Picked.{Next, pick_next-Next}
use proxy_lm_go.Core.Scheduler.Queue.Settled.{
  QueueEvent, enqueues, picks, cancels, crashes, ids, all_enqueued, all_settled, queue_after,
  queue-settled,
}
use proxy_lm_go.Core.Scheduler.Dispatch.{begin_dispatch}
use proxy_lm_go.Core.Scheduler.Streak.{fair_share_bound}
use proxy_lm_go.Examples.Data.{a_job, a_server, first_server, second_server, two_jobs}

current : has_current first_server ≡ true
unfolding has_current current_model_string
current = refl

some_drains : ¬ NoneOf (drains first_server) two_jobs.jobs
unfolding drains current_model_string
some_drains n = true≢false n.1.0

some_compatible : ¬ NoneOf (compatible second_server) two_jobs.jobs
unfolding compatible models_snapshot
some_compatible n = true≢false n.0

some_switches : ¬ NoneOf (switches first_server) two_jobs.jobs
unfolding switches models_snapshot current_model_string
some_switches n = true≢false n.0

no_current : has_current second_server ≡ false
unfolding has_current current_model_string
no_current = refl

pop_for-drains_example : Pops (drains first_server) two_jobs (pop_for two_jobs first_server)
pop_for-drains_example = pop_for-drains two_jobs first_server refl current some_drains

-- The first server after two jobs of its model in a row.
abbrev streaky : ServerInfo
streaky = record first_server { last_dispatched_model = "m"; consecutive_model_count = 2 }

streaky_current : has_current streaky ≡ true
unfolding has_current current_model_string
streaky_current = refl

may_switch : ¬ NoneOf (switches streaky) two_jobs.jobs
unfolding switches models_snapshot current_model_string
may_switch n = true≢false n.0

forced : force_switch streaky (pos 2) ≡ true
unfolding force_switch current_model_string
forced = refl

in_step : streaky.last_dispatched_model ≡ current_model_string streaky
unfolding current_model_string
in_step = refl

taken : (pop_for_fair_share two_jobs streaky (pos 2)).1 ≡ some (a_job "j1" "k")
unfolding take_first pop_for_fair_share force_switch has_current switches models_snapshot
    current_model_string
taken = refl

fair_share_bound_example : (begin_dispatch streaky (a_job "j1" "k") 7).0.consecutive_model_count ≤ 2
fair_share_bound_example =
    fair_share_bound two_jobs streaky 2 7 (a_job "j1" "k") (omega arith) in_step streaky_current
      may_switch taken

-- Two servers with the same model loaded: one of them may give it up.
abbrev twins : List ServerInfo
twins = first_server ∷ a_server "twin" (some "m") ("m" ∷ []) [] ∷ []

given_up : (pop_for_coverage two_jobs first_server twins).1 ≡ some (a_job "j1" "k")
unfolding take_first pop_for_coverage choose_coverage has_current holds_current compatible
    models_snapshot current_model_string
given_up = refl

other_model : ((a_job "j1" "k").model == current_model_string first_server) ≡ false
unfolding current_model_string
other_model = refl

pop_for_coverage-keeps_example :
    (any (holds_current first_server) twins ≡ true) ⊎ NoneOf (drains first_server) two_jobs.jobs
pop_for_coverage-keeps_example =
    pop_for_coverage-keeps two_jobs first_server twins (a_job "j1" "k") given_up current other_model

abbrev pool_events : List PoolEvent
pool_events = pops first_server ∷ pushes (a_job "j3" "m") ∷ pops_fair second_server (pos 1) ∷ []

departures-arrivals_example :
    of_model "m" (departures two_jobs pool_events)
      ++ of_model "m" (pool_after two_jobs pool_events).jobs
    ≡ of_model "m" two_jobs.jobs ++ of_model "m" (arrivals pool_events)
unfolding arrivals
departures-arrivals_example =
    departures-arrivals "m" two_jobs pool_events (refl, (refl, tt)) (refl, tt)

abbrev queued : ServerInfo
queued = a_server "one" (some "m") ("m" ∷ "k" ∷ []) (two_jobs.jobs)

pick_next-Next_example : Next queued (pick_next queued)
pick_next-Next_example = pick_next-Next queued

abbrev queue_events : List QueueEvent
queue_events = picks ∷ enqueues (a_job "j3" "m") ∷ cancels "j1" ∷ crashes (message "refused") ∷ []

queue-settled_example :
    Perm
      (ids queued.queue ++ all_enqueued queue_events)
      (all_settled queued queue_events ++ ids (queue_after queued queue_events).queue)
queue-settled_example = queue-settled queued queue_events
