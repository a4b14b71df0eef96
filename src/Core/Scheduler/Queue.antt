-- ===== src/Core/Scheduler/Queue.antt =====
-- The push queue of a server: `pickNext`, `cancelQueued`, and the drains that fail every waiting job.
-- A send on a job's `done` is a message with the job's ID; Submit holds the receiving end.
pub mod Picked
pub mod Settled
use proxy_lm_go.Common.{
  String, ◌==◌, Bool, true, false, not, Option, none, some, List, [], ◌∷◌, ◌++◌, map, if◌then◌else◌,
  or_else, take_first,
}
use proxy_lm_go.Core.Models.{
  Err, scheduler_stopped, Job, JobResult, zero_result, ServerInfo, current_model_string,
  set_current_model,
}
use proxy_lm_go.Core.Pool.{JobPool, drain_all, has_current}

unfoldable pub enqueue : ServerInfo → Job → ServerInfo
enqueue s j = record s { queue = s.queue ++ (j ∷ []) }

abbrev pub cancelled : ServerInfo → Option (Job × List Job) → ServerInfo × Bool
cancelled s none = (s, false)
cancelled s (some (j, rest)) = (record s { queue = rest }, true)

unfoldable pub cancel_queued : ServerInfo → String → ServerInfo × Bool
cancel_queued s id = cancelled s (take_first (λ j. j.id == id) s.queue)

-- The test of the loop that looks for a job for the loaded model.
unfoldable pub is_current : ServerInfo → Job → Bool
is_current s j = j.model == current_model_string s

-- `srv.Queue[0]`, which becomes the loaded model.
abbrev pub take_head : ServerInfo → List Job → ServerInfo × Option Job
take_head s [] = (s, none)
take_head s (j ∷ rest) = (set_current_model (record s { queue = rest }) j.model, some j)

abbrev pub drained : ServerInfo → Option (Job × List Job) → ServerInfo × Option Job
drained s none = take_head s s.queue
drained s (some (j, rest)) = (record s { queue = rest }, some j)

unfoldable pub pick_next : ServerInfo → ServerInfo × Option Job
pick_next s =
    if s.healthy
    then drained s (if has_current s then take_first (is_current s) s.queue else none)
    else (s, none)

-- A message on a job's `done`. The channel has room for one; a second send is dropped.
abbrev pub Message : Type 0
Message = String × JobResult

unfoldable pub fail_server_queue : ServerInfo → Err → ServerInfo × List Message
fail_server_queue s cause = (
  record s { queue = [] },
  map (λ j. (j.id, record zero_result { err = some cause; server = s.name })) s.queue,
)

stopped : Err → Job → Message
stopped e j = (j.id, record zero_result { err = some (scheduler_stopped e) })

abbrev drained_pool : Option JobPool → Option JobPool × List Job
drained_pool none = (none, [])
drained_pool (some p) = let (q, jobs) = drain_all p in (some q, jobs)

-- The server's own queue, then the shared pool, if there is one.
unfoldable pub fail_pending :
    ServerInfo → Option JobPool → Err → ServerInfo × Option JobPool × List Message
unfolding stopped
fail_pending s pool e =
    let (pool', jobs) = drained_pool pool in
    (record s { queue = [] }, pool', map (stopped e) s.queue ++ map (stopped e) jobs)
