-- ===== src/Core/Router/Chosen.antt =====
-- internal/core/router.go: which servers `Pick` chooses (INV-8).
use mathlib.Core.List.{Memᴰ}
use mathlib.Core.Option.{some-injective}
use proxy_lm_go.Common.{
  ℕ, zero, suc, String, ◌≡◌, refl, sym, ap, subst, ◌≢◌, inl, inr, Bool, true, not, Option, none,
  some, List, [], ◌∷◌, ◌++◌, arith, NoneOf, keep, eqb, ltb, length, get_elem?, if◌then◌else◌,
  Bool-cases,
}
use proxy_lm_go.Common.Sort.{Least, first-stable_sort}
use proxy_lm_go.Core.Models.{ServerInfo, Err, no_server}
use proxy_lm_go.Core.Router.{
  Router, RouterStrategy, round_robin, least_busy, chosen, failed, pick, pick_by, candidates,
  is_candidate, is_loaded, less_busy, choice_of, pick_least_busy, pick_model_affinity_least_busy,
  pick_round_robin, elem_at,
}
use proxy_lm_go.Core.Router.Order.{keep-nil_iff, less_busy-IsStrictWeak}
use proxy_lm_go.Core.Router.Affinity.{pick_by-ne-failed}

-- An element of the list that passes.
abbrev pub Passes : (ServerInfo → Bool) → List ServerInfo → ServerInfo → Type 0
Passes p xs s = Memᴰ s xs × (p s ≡ true)

mem_middle :
    (before : List ServerInfo) (x : ServerInfo) (after : List ServerInfo)
    → Memᴰ x (before ++ (x ∷ after))
mem_middle [] x after = Memᴰ.head refl
mem_middle (b ∷ before) x after = Memᴰ.tail (mem_middle before x after)

Least-Passes :
    {p : ServerInfo → Bool} {xs : List ServerInfo} {r : Option ServerInfo} {s : ServerInfo}
    → Least less_busy p xs r
    → r ≡ some s
    → Passes p xs s
Least-Passes {p} {xs} (Least.least before x after e q b a) h =
    subst (Passes p xs) (some-injective _ _ h)
      (subst (Memᴰ x) (sym e) (mem_middle before x after), q)
Least-Passes (Least.no_element n) h = cc

mem-get_elem? :
    (xs : List ServerInfo) (i : ℕ) (s : ServerInfo) → get_elem? xs i ≡ some s → Memᴰ s xs
mem-get_elem? [] i s h = cc
mem-get_elem? (x ∷ xs) zero s h = Memᴰ.head (sym (some-injective _ _ h))
mem-get_elem? (x ∷ xs) (suc i) s h = Memᴰ.tail (mem-get_elem? xs i s h)

-- What is kept passes and was there before.
mem-keep :
    (p : ServerInfo → Bool) (xs : List ServerInfo) (s : ServerInfo)
    → Memᴰ s (keep p xs)
    → Passes p xs s
mem-keep p [] s m = elim m [ ]
mem-keep p (x ∷ xs) s m = elim (Bool-cases (p x)) [
  | inl e ↦
      kept e (mem-keep p xs s)
        (subst (λ l. Memᴰ s l) (ap (λ b. if b then x ∷ keep p xs else keep p xs) e) m)
  | inr e ↦
      let (t, q) =
        mem-keep p xs s
          (subst (λ l. Memᴰ s l) (ap (λ b. if b then x ∷ keep p xs else keep p xs) e) m) in
      (Memᴰ.tail t, q)
]
  where
    kept :
        p x ≡ true
        → (Memᴰ s (keep p xs) → Passes p xs s)
        → Memᴰ s (x ∷ keep p xs)
        → Passes p (x ∷ xs) s
    kept e ih (Memᴰ.head q) = (Memᴰ.head q, subst (λ y. p y ≡ true) (sym q) e)
    kept e ih (Memᴰ.tail t) = (Memᴰ.tail (ih t).0, (ih t).1)

choice_of-chosen : (o : Option ServerInfo) (s : ServerInfo) → choice_of o ≡ chosen s → o ≡ some s
choice_of-chosen none s h = cc
choice_of-chosen (some t) s h = cc

pick_least_busy-Passes :
    (p : ServerInfo → Bool) (xs : List ServerInfo) (s : ServerInfo)
    → pick_least_busy (keep p xs) ≡ chosen s
    → Passes p xs s
unfolding pick_least_busy
pick_least_busy-Passes p xs s h =
    Least-Passes (first-stable_sort less_busy-IsStrictWeak p xs) (choice_of-chosen _ s h)

affinity-mem :
    (model : String) (xs : List ServerInfo) (s : ServerInfo)
    → pick_model_affinity_least_busy model xs ≡ chosen s
    → Memᴰ s xs
unfolding pick_model_affinity_least_busy
affinity-mem model xs s h = elim (Bool-cases (ltb 0 (length (keep (is_loaded model) xs)))) [
  | inl e ↦ (pick_least_busy-Passes (is_loaded model) xs s (rw e at h)).0
  | inr e ↦ (pick_least_busy-Passes (λ t. not (is_loaded model t)) xs s (rw e at h)).0
]

elem_at-mem :
    (xs : List ServerInfo) (i : Option ℕ) (s : ServerInfo) → elem_at xs i ≡ some s → Memᴰ s xs
elem_at-mem xs none s h = cc
elem_at-mem xs (some i) s h = mem-get_elem? xs i s h

pick_by-mem :
    (strategy : RouterStrategy) (r : Router) (model : String) (p : ServerInfo → Bool)
    (xs : List ServerInfo) (s : ServerInfo)
    → (pick_by strategy r model (keep p xs)).1 ≡ chosen s
    → Passes p xs s
unfolding pick_by pick_round_robin
pick_by-mem round_robin r model p xs s h =
    mem-keep p xs s (elem_at-mem (keep p xs) _ s (choice_of-chosen _ s h))
pick_by-mem least_busy r model p xs s h = pick_least_busy-Passes p xs s h
pick_by-mem _ r model p xs s h = mem-keep p xs s (affinity-mem model (keep p xs) s h)

-- A server that `Pick` chooses is one of the router's servers, healthy, has the model and is not
-- excluded, under every strategy.
pub pick-Passes :
    (r : Router) (model : String) (exclude : List String) (s : ServerInfo)
    → (pick r model exclude).1 ≡ chosen s
    → Passes (is_candidate model exclude) r.servers s
unfolding pick candidates
pick-Passes r model exclude s h =
    elim (Bool-cases (eqb (length (keep (is_candidate model exclude) r.servers)) 0)) [
      | inl e ↦ absurd (ne-chosen (rw e at h))
      | inr e ↦ pick_by-mem r.strategy r model (is_candidate model exclude) r.servers s (rw e at h)
    ]
  where
    ne-chosen : failed (no_server model) ≢ chosen s
    ne-chosen q = cc

-- If it fails, no server passes.
pub pick-failed :
    (r : Router) (model : String) (exclude : List String) (e : Err)
    → (pick r model exclude).1 ≡ failed e
    → NoneOf (is_candidate model exclude) r.servers
unfolding pick candidates
pick-failed r model exclude e h =
    let k = keep-nil_iff (is_candidate model exclude) r.servers in
    let ne = pick_by-ne-failed r.strategy r model (keep (is_candidate model exclude) r.servers) e in
    ground (arith, k, ne)
