-- ===== src/Core/Pool.antt =====
-- internal/core/pool.go: the shared pool of the pull strategies. A method runs under the pool's
-- mutex, so it is one function from the pool to the new pool and the job that it hands out.
pub mod Fifo
pub mod Order
pub mod History
pub mod Idle
pub mod Conserve
pub mod FairShare
pub mod Coverage
use proxy_lm_go.Common.{
  ℕ, ℤ, String, ◌==◌, Bool, true, false, not, ◌&&◌, Option, none, some, List, [], ◌∷◌, ◌++◌,
  if◌then◌else◌, or_else, leb_ℤ, ltb_ℤ, contains, any, keep, length, take_first,
}
use proxy_lm_go.Common.Sort.{stable_sort, first}
use proxy_lm_go.Core.Models.{Job, ServerInfo, current_model_string, models_snapshot, has_model}

pub record JobPool : Type 0 where
  pub jobs : List Job

unfoldable pub new_job_pool : JobPool
new_job_pool = record { jobs = [] }

unfoldable pub push : JobPool → Job → JobPool
push p j = record { jobs = p.jobs ++ (j ∷ []) }

-- `j.visited != nil && j.visited[s.Name]`
abbrev pub is_visited : Job → String → Bool
is_visited j name = contains j.visited name

-- The test of the loop that drains the current model.
unfoldable pub drains : ServerInfo → Job → Bool
drains s j = j.model == current_model_string s && not (is_visited j s.name)

-- The test of the loop for the first compatible job.
unfoldable pub compatible : ServerInfo → Job → Bool
compatible s j = contains (models_snapshot s) j.model && not (is_visited j s.name)

-- The test of the loop of the forced switch.
unfoldable pub switches : ServerInfo → Job → Bool
switches s j =
    contains (models_snapshot s) j.model
    && not (j.model == current_model_string s)
    && not (is_visited j s.name)

unfoldable pub has_current : ServerInfo → Bool
has_current s = not (current_model_string s == "")

-- The pool after a loop, and the job that the loop returned.
abbrev pub popped : JobPool → Option (Job × List Job) → JobPool × Option Job
popped p none = (p, none)
popped p (some (j, rest)) = (record { jobs = rest }, some j)

unfoldable pub drain_current : JobPool → ServerInfo → Option (Job × List Job)
drain_current p s = if has_current s then take_first (drains s) p.jobs else none

unfoldable pub pop_for : JobPool → ServerInfo → JobPool × Option Job
pop_for p s =
    if s.healthy
    then popped p (or_else (drain_current p s) (take_first (compatible s) p.jobs))
    else (p, none)

unfoldable pub force_switch : ServerInfo → ℤ → Bool
force_switch s max =
    ltb_ℤ (ℤ.pos 0) max
    && not (s.last_dispatched_model == "")
    && leb_ℤ max (ℤ.pos s.consecutive_model_count)

unfoldable pub pop_for_fair_share : JobPool → ServerInfo → ℤ → JobPool × Option Job
pop_for_fair_share p s max =
    if s.healthy
    then popped p (
        or_else
          (if force_switch s max && has_current s then take_first (switches s) p.jobs else none)
          (or_else (drain_current p s) (take_first (compatible s) p.jobs)))
    else (p, none)

-- `srv == s` compares pointers; the scheduler's servers have distinct names (config.validateBackends).
unfoldable pub holds_current : ServerInfo → ServerInfo → Bool
holds_current s srv =
    not (srv.name == s.name) && srv.healthy && current_model_string srv == current_model_string s

-- What is taken when the head of the queue is `head`, with `rest` left.
unfoldable pub choose_coverage :
    JobPool → ServerInfo → List ServerInfo → Option (Job × List Job) → Option (Job × List Job)
choose_coverage p s all none = none
choose_coverage p s all (some (head, rest)) =
    if not (has_current s)
    then some (head, rest)
    else if head.model == current_model_string s
    then some (head, rest)
    else if any (holds_current s) all
    then some (head, rest)
    else or_else (take_first (drains s) p.jobs) (some (head, rest))

unfoldable pub pop_for_coverage : JobPool → ServerInfo → List ServerInfo → JobPool × Option Job
pop_for_coverage p s all =
    if s.healthy
    then popped p (choose_coverage p s all (take_first (compatible s) p.jobs))
    else (p, none)

abbrev removed : JobPool → Option (Job × List Job) → JobPool × Bool
removed p none = (p, false)
removed p (some (j, rest)) = (record { jobs = rest }, true)

unfoldable pub remove : JobPool → String → JobPool × Bool
remove p id = removed p (take_first (λ j. j.id == id) p.jobs)

-- A new mark replaces the old one.
unfoldable pub mark_visited : Job → String → Job
mark_visited j server_name = record j { visited = server_name ∷ [] }

unfoldable pub clear_visited : Job → Job
clear_visited j = record j { visited = [] }

unfoldable pub len : JobPool → ℕ
len p = length p.jobs

unfoldable pub drain_all : JobPool → JobPool × List Job
drain_all p = (record { jobs = [] }, p.jobs)

unfoldable pub idle : String → List String → ServerInfo → Bool
idle model visited srv =
    srv.healthy && not srv.in_flight && not (contains visited srv.name) && has_model srv model

unfoldable pub pick_idle_by_priority : List ServerInfo → String → List String → Option ServerInfo
pick_idle_by_priority servers model visited =
    first (stable_sort (λ a b. ltb_ℤ a.priority b.priority) (keep (idle model visited) servers))

unfoldable pub any_healthy_compatible : List ServerInfo → String → List String → Bool
any_healthy_compatible servers model visited =
    any (λ srv. srv.healthy && not (contains visited srv.name) && has_model srv model) servers
