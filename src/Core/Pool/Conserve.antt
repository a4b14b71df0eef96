-- ===== src/Core/Pool/Conserve.antt =====
-- internal/core/pool.go: which jobs the operations of the pool hand out and which they keep.
use proxy_lm_go.Common.{
  ℤ, String, ◌==◌, ◌≡◌, Bool, true, false, not, any, Option, none, some, List, ◌∷◌, ◌++◌, Perm,
  perm_middle, NoneOf, Takes, take_first-Takes, Split, take_first-Split, or_else-Split,
  if◌then◌else◌,
}
use proxy_lm_go.Core.Models.{Job, ServerInfo, current_model_string}
use proxy_lm_go.Core.Pool.{
  JobPool, pop_for, pop_for_fair_share, pop_for_coverage, remove, removed, popped, drains,
  has_current, drain_current, holds_current, choose_coverage,
}

-- Nothing is handed out and the pool is as before, or one job leaves it.
pub data Kept (p : JobPool) : JobPool × Option Job → Type 0 where
  untouched : Kept p (p, none)
  one_less : (j : Job) (q : JobPool) → Perm p.jobs (j ∷ q.jobs) → Kept p (q, some j)

module _ (p : JobPool) where
  popped-Kept : {r : Option (Job × List Job)} → Split p.jobs r → Kept p (popped p r)
  popped-Kept (Split.split j rest h) = one_less j (record { jobs = rest }) h
  popped-Kept Split.unsplit = untouched

  if-Split :
      (b : Bool) {r q : Option (Job × List Job)}
      → Split p.jobs r
      → Split p.jobs q
      → Split p.jobs (if b then r else q)
  if-Split true h k = h
  if-Split false h k = k

  drain_current-Split : (s : ServerInfo) → Split p.jobs (drain_current p s)
  unfolding drain_current
  drain_current-Split s =
      if-Split (has_current s) (take_first-Split (drains s) p.jobs) Split.unsplit

  if-Kept : (b : Bool) {r : JobPool × Option Job} → Kept p r → Kept p (if b then r else (p, none))
  if-Kept true h = h
  if-Kept false h = untouched

  choose_coverage-Split :
      (s : ServerInfo) (all : List ServerInfo) {r : Option (Job × List Job)}
      → Split p.jobs r
      → Split p.jobs (choose_coverage p s all r)
  unfolding choose_coverage
  choose_coverage-Split s all (Split.split j rest h) =
      let head : Split p.jobs (some (j, rest)) = Split.split j rest h in
      if-Split (not (has_current s)) head (
        if-Split (j.model == current_model_string s) head (
          if-Split (any (holds_current s) all) head
            (or_else-Split (take_first-Split (drains s) p.jobs) head)))
  choose_coverage-Split s all Split.unsplit = Split.unsplit

-- Each way to take work leaves the pool as it was or hands out one job and keeps all the others.
pub pops-Kept :
    (p : JobPool) (s : ServerInfo) (max : ℤ) (all : List ServerInfo)
    → Kept p (pop_for p s) × Kept p (pop_for_fair_share p s max) × Kept p (pop_for_coverage p s all)
unfolding pop_for pop_for_fair_share pop_for_coverage
pops-Kept p s max all = (
  if-Kept p s.healthy
      (popped-Kept p (or_else-Split (drain_current-Split p s) (take_first-Split _ p.jobs))),
  if-Kept p s.healthy (
      popped-Kept p (
        or_else-Split (if-Split p _ (take_first-Split _ p.jobs) Split.unsplit)
          (or_else-Split (drain_current-Split p s) (take_first-Split _ p.jobs)))),
  if-Kept p s.healthy (popped-Kept p (choose_coverage-Split p s all (take_first-Split _ p.jobs))),
)

-- What a cancellation does: it takes out one job of that name, or there is none and nothing changes.
pub data Removes (p : JobPool) (id : String) : JobPool × Bool → Type 0 where
  gone :
      (j : Job) (q : JobPool)
      → (j.id == id) ≡ true
      → Perm p.jobs (j ∷ q.jobs)
      → Removes p id (q, true)
  absent : NoneOf (λ j. j.id == id) p.jobs → Removes p id (p, false)

removed-Removes :
    (p : JobPool) (id : String) {r : Option (Job × List Job)}
    → Takes (λ j. j.id == id) p.jobs r
    → Removes p id (removed p r)
removed-Removes p id (Takes.found before j after e h n) =
    gone j (record { jobs = before ++ after }) h (rw e (perm_middle before after))
removed-Removes p id (Takes.missing n) = absent n

-- `Remove` answers true exactly when a job of that ID waited, and then takes out that one only.
pub remove-Removes : (p : JobPool) (id : String) → Removes p id (remove p id)
unfolding remove
remove-Removes p id = removed-Removes p id (take_first-Takes (λ j. j.id == id) p.jobs)
