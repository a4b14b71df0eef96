-- ===== src/Core/Pool/Order.antt =====
-- internal/core/pool.go: the order in which the jobs of one model leave the pool (INV-3).
use proxy_lm_go.Common.{
  ℤ, String, ◌==◌, ◌≡◌, refl, ap, subst, ◌∙◌, Bool, true, false, not, any, ◌&&◌, Option, none, some,
  List, [], ◌∷◌, ◌++◌, arith, or_else, All, NoneOf, keep, eq_iff, Takes, take_first,
  take_first-Takes, if◌then◌else◌,
}
use proxy_lm_go.Core.Models.{Job, ServerInfo, current_model_string}
use proxy_lm_go.Core.Pool.{
  JobPool, pop_for, pop_for_fair_share, pop_for_coverage, popped, drains, compatible, switches,
  has_current, drain_current, force_switch, holds_current, choose_coverage,
}

-- A job that has not failed yet.
abbrev pub Unvisited : Job → Type 0
Unvisited j = j.visited ≡ []

-- The jobs for one model, in their order.
abbrev pub of_model : String → List Job → List Job
of_model m = keep (λ j. j.model == m)

abbrev pub handed : Option Job → List Job
handed none = []
handed (some j) = j ∷ []

-- A test that looks at the model only, for jobs that have not failed yet.
abbrev ByModel : (Job → Bool) → Type 0
ByModel passes = (x y : Job) → Unvisited x → Unvisited y → x.model ≡ y.model → passes x ≡ passes y

drains-ByModel : (s : ServerInfo) → ByModel (drains s)
unfolding drains
drains-ByModel s x y u v e = rw (u, v, e)

compatible-ByModel : (s : ServerInfo) → ByModel (compatible s)
unfolding compatible
compatible-ByModel s x y u v e = rw (u, v, e)

switches-ByModel : (s : ServerInfo) → ByModel (switches s)
unfolding switches
switches-ByModel s x y u v e = rw (u, v, e)

pub keep-append : (p : Job → Bool) (xs ys : List Job) → keep p (xs ++ ys) ≡ keep p xs ++ keep p ys
keep-append p [] ys = refl
keep-append p (x ∷ xs) ys = ground (arith, keep-append p xs ys)

module _ (m : String) where
  -- What is handed out is the oldest of its model, and the others of the model keep their order.
  data Ordered (xs : List Job) : Option (Job × List Job) → Type 0 where
    nothing : Ordered xs none
    oldest :
        (j : Job) (rest : List Job)
        → of_model m xs ≡ of_model m (j ∷ []) ++ of_model m rest
        → All Unvisited rest
        → Ordered xs (some (j, rest))

  or_else-Ordered :
      {xs : List Job} {r q : Option (Job × List Job)}
      → Ordered xs r
      → Ordered xs q
      → Ordered xs (or_else r q)
  or_else-Ordered (oldest j rest e u) k = oldest j rest e u
  or_else-Ordered nothing k = k

  if-Ordered :
      {xs : List Job} (b : Bool) {r q : Option (Job × List Job)}
      → Ordered xs r
      → Ordered xs q
      → Ordered xs (if b then r else q)
  if-Ordered true h k = h
  if-Ordered false h k = k

  -- No job before the first one that passes is of its model.
  skipped :
      (passes : Job → Bool)
      → ByModel passes
      → (before : List Job) (j : Job) (after : List Job) → All Unvisited (before ++ (j ∷ after))
      → passes j ≡ true
      → NoneOf passes before
      → (of_model m (before ++ (j ∷ after)) ≡ of_model m (j ∷ []) ++ of_model m (before ++ after))
        × All Unvisited (before ++ after)
        × Unvisited j
  skipped passes by [] j after u h n = (ground arith, u.1, u.0)
  skipped passes by (b ∷ before) j after u h n =
      let (e, us, uj) = skipped passes by before j after u.1 h n.1 in
      (ground (arith, eq_iff b.model m, eq_iff j.model m, by b j u.0 uj, e, n.0, h), (u.0, us), uj)

  Takes-Ordered :
      (passes : Job → Bool)
      → ByModel passes
      → {xs : List Job} {r : Option (Job × List Job)} → All Unvisited xs
      → Takes passes xs r
      → Ordered xs r
  Takes-Ordered passes by u (Takes.found before j after e h n) =
      let (o, us, _) = skipped passes by before j after (subst (All Unvisited) e u) h n in
      oldest j (before ++ after) (ap (of_model m) e ∙ o) us
  Takes-Ordered passes by u (Takes.missing n) = nothing

  module _ (p : JobPool) (s : ServerInfo) (u : All Unvisited p.jobs) where
    taken_drains : Ordered p.jobs (take_first (drains s) p.jobs)
    taken_drains =
        Takes-Ordered (drains s) (drains-ByModel s) u (take_first-Takes (drains s) p.jobs)

    taken_compatible : Ordered p.jobs (take_first (compatible s) p.jobs)
    taken_compatible =
        Takes-Ordered (compatible s) (compatible-ByModel s) u
          (take_first-Takes (compatible s) p.jobs)

    taken_switches : Ordered p.jobs (take_first (switches s) p.jobs)
    taken_switches =
        Takes-Ordered (switches s) (switches-ByModel s) u (take_first-Takes (switches s) p.jobs)

    drain_current-Ordered : Ordered p.jobs (drain_current p s)
    unfolding drain_current
    drain_current-Ordered = if-Ordered (has_current s) taken_drains nothing

    choose_coverage-Ordered :
        (all : List ServerInfo) {r : Option (Job × List Job)}
        → Ordered p.jobs r
        → Ordered p.jobs (choose_coverage p s all r)
    unfolding choose_coverage
    choose_coverage-Ordered all nothing = nothing
    choose_coverage-Ordered all (oldest j rest e v) =
        let head : Ordered p.jobs (some (j, rest)) = oldest j rest e v in
        if-Ordered (not (has_current s)) head (
          if-Ordered (j.model == current_model_string s) head
            (if-Ordered (any (holds_current s) all) head (or_else-Ordered taken_drains head)))

-- What waited and came in (`before`) is what was handed out and what still waits, in this order.
abbrev pub InOrder : String → List Job → JobPool × Option Job → Type 0
InOrder m before r =
    (of_model m before ≡ of_model m (handed r.1) ++ of_model m r.0.jobs) × All Unvisited r.0.jobs

module _ (m : String) (p : JobPool) (u : All Unvisited p.jobs) where
  popped-InOrder :
      {r : Option (Job × List Job)} → Ordered m p.jobs r → InOrder m p.jobs (popped p r)
  popped-InOrder nothing = (refl, u)
  popped-InOrder (oldest j rest e v) = (e, v)

  if-InOrder :
      (b : Bool) (r : JobPool × Option Job)
      → InOrder m p.jobs r
      → InOrder m p.jobs (if b then r else (p, none))
  if-InOrder true r h = h
  if-InOrder false r h = (refl, u)

  pop_base :
      (s : ServerInfo)
      → Ordered m p.jobs (or_else (drain_current p s) (take_first (compatible s) p.jobs))
  pop_base s = or_else-Ordered m (drain_current-Ordered m p s u) (taken_compatible m p s u)

  pub pop_for-InOrder : (s : ServerInfo) → InOrder m p.jobs (pop_for p s)
  unfolding pop_for
  pop_for-InOrder s = if-InOrder s.healthy _ (popped-InOrder (pop_base s))

  pub pop_for_fair_share-InOrder :
      (s : ServerInfo) (max : ℤ) → InOrder m p.jobs (pop_for_fair_share p s max)
  unfolding pop_for_fair_share
  pop_for_fair_share-InOrder s max = if-InOrder s.healthy _ (
      popped-InOrder (
        or_else-Ordered m
          (if-Ordered m (force_switch s max && has_current s) (taken_switches m p s u) nothing)
          (pop_base s)))

  pub pop_for_coverage-InOrder :
      (s : ServerInfo) (all : List ServerInfo) → InOrder m p.jobs (pop_for_coverage p s all)
  unfolding pop_for_coverage
  pop_for_coverage-InOrder s all =
      if-InOrder s.healthy _
        (popped-InOrder (choose_coverage-Ordered m p s u all (taken_compatible m p s u)))
