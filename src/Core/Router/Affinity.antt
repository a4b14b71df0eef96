-- ===== src/Core/Router/Affinity.antt =====
-- `Pick` under the strategies that prefer a server with the model loaded.
use proxy_lm_go.Common.{
  String, ◌≡◌, refl, ◌↔◌, ◌⊎◌, inl, inr, Bool, false, not, ◌&&◌, Option, none, some, List, [], ◌∷◌,
  arith, NoneOf, ap, tests, ◌≢◌, keep, ltb, eqb, length, Bool-cases,
}
use proxy_lm_go.Common.Sort.{Least}
use proxy_lm_go.Core.Models.{ServerInfo, Err, no_server}
use proxy_lm_go.Core.Router.{
  Router, chosen, failed, pick, pick_by, candidates, is_candidate, is_loaded, less_busy,
  pick_least_busy, choice_of, pick_round_robin, pick_model_affinity_least_busy, RouterStrategy,
  round_robin, least_busy,
}
use proxy_lm_go.Core.Router.Order.{keep-nil_iff, pick_least_busy-Least}

keep-keep :
    (p q : ServerInfo → Bool) (xs : List ServerInfo)
    → keep q (keep p xs) ≡ keep (λ s. p s && q s) xs
keep-keep p q [] = refl
keep-keep p q (x ∷ xs) = ground (arith, keep-keep p q xs)

abbrev pub preferred : String → List String → ServerInfo → Bool
preferred model exclude s = is_candidate model exclude s && is_loaded model s

-- Where no candidate has the model loaded, the others are all the candidates.
keep-others :
    (p q : ServerInfo → Bool) (xs : List ServerInfo)
    → NoneOf (λ s. p s && q s) xs
    → keep (λ s. not (q s)) (keep p xs) ≡ keep p xs
keep-others p q [] n = refl
keep-others p q (x ∷ xs) n = ground (arith, keep-others p q xs n.1)

pub NoneOf-nonempty :
    (p : ServerInfo → Bool) (xs : List ServerInfo)
    → ¬ NoneOf p xs
    → eqb (length (keep p xs)) 0 ≡ false
NoneOf-nonempty p xs n =
    let k = keep-nil_iff p xs in
    elim (Bool-cases (eqb (length (keep p xs)) 0)) [
      | inl e ↦ absurd (n (k.0 (ground arith)))
      | inr e ↦ e
    ]

-- The strategies other than `round_robin` and `least_busy`, and any unknown one.
abbrev pub PrefersLoaded : RouterStrategy → Type 0
PrefersLoaded round_robin = ⊥
PrefersLoaded least_busy = ⊥
PrefersLoaded _ = Unit {0}

pick_by-loaded :
    (strategy : RouterStrategy) (r : Router) (model : String) (servers : List ServerInfo)
    → PrefersLoaded strategy
    → pick_by strategy r model servers ≡ (r, pick_model_affinity_least_busy model servers)
unfolding pick_by
pick_by-loaded round_robin r model servers h = absurd h
pick_by-loaded least_busy r model servers h = absurd h
pick_by-loaded _ r model servers h = refl

-- The chosen server is the first of those with the least load, and of the least priority among these:
-- among the candidates with the model loaded if there is one, else among all the candidates.
abbrev pub BestLoaded : String → List String → List ServerInfo → ServerInfo → Type 0
BestLoaded model exclude servers s =
    (¬ NoneOf (preferred model exclude) servers
      × Least less_busy (preferred model exclude) servers (some s))
    ⊎ (NoneOf (preferred model exclude) servers
        × Least less_busy (is_candidate model exclude) servers (some s))

loaded_first :
    (model : String) (exclude : List String) (servers : List ServerInfo)
    → ¬ NoneOf (is_candidate model exclude) servers
    → (s : ServerInfo) × (pick_model_affinity_least_busy model
          (keep (is_candidate model exclude) servers)
        ≡ chosen s)
      × BestLoaded model exclude servers s
unfolding pick_model_affinity_least_busy
loaded_first model exclude servers n =
    elim (Bool-cases (ltb 0 (length (keep (is_loaded model) (keep cand servers))))) [
      | inl b ↦
          let some_loaded : ¬ NoneOf pref servers =
            λ m. absurd (omega (tests, b, ap length same, (keep-nil_iff pref servers).1 m)) in
          let (s, e, l) = pick_least_busy-Least pref servers some_loaded in
          (s, rw b (rw same e), inl (some_loaded, l))
      | inr b ↦
          let none_loaded : NoneOf pref servers =
            (keep-nil_iff pref servers).0 (omega (tests, not_loaded b, ap length same)) in
          let (s, e, l) = pick_least_busy-Least cand servers n in
          (
            s,
            rw b (rw (keep-others cand (is_loaded model) servers none_loaded) e),
            inr (none_loaded, l),
          )
    ]
  where
    cand : ServerInfo → Bool
    cand = is_candidate model exclude

    pref : ServerInfo → Bool
    pref = preferred model exclude

    same : keep (is_loaded model) (keep cand servers) ≡ keep pref servers
    same = keep-keep cand (is_loaded model) servers

    not_loaded :
        ltb 0 (length (keep (is_loaded model) (keep cand servers))) ≡ false
        → length (keep (is_loaded model) (keep cand servers)) ≡ 0
    not_loaded b = ground arith

-- Under a strategy that is neither `round_robin` nor `least_busy`, if there is a candidate, one is
-- chosen that is the first of those with the least load, and of the least priority among these: among
-- the candidates with the model loaded if there is one, else among all the candidates.
pub pick-loaded :
    (r : Router) (model : String) (exclude : List String)
    → PrefersLoaded r.strategy
    → ¬ NoneOf (is_candidate model exclude) r.servers
    → (s : ServerInfo) × (pick r model exclude ≡ (r, chosen s))
      × BestLoaded model exclude r.servers s
unfolding pick candidates
pick-loaded r model exclude h n =
    let (s, e, b) = loaded_first model exclude r.servers n in
    (
      s,
      ground (
        arith,
        NoneOf-nonempty _ r.servers n,
        e,
        pick_by-loaded r.strategy r model (keep (is_candidate model exclude) r.servers) h,
      ),
      b,
    )

choice_of-ne-failed : (o : Option ServerInfo) (e : Err) → choice_of o ≢ failed e
choice_of-ne-failed none e h = cc
choice_of-ne-failed (some s) e h = cc

pub pick_by-ne-failed :
    (strategy : RouterStrategy) (r : Router) (model : String) (servers : List ServerInfo) (e : Err)
    → (pick_by strategy r model servers).1 ≢ failed e
unfolding pick_by pick_round_robin pick_least_busy pick_model_affinity_least_busy
pick_by-ne-failed round_robin r model servers e h = choice_of-ne-failed _ e h
pick_by-ne-failed least_busy r model servers e h = choice_of-ne-failed _ e h
pick_by-ne-failed _ r model servers e h =
    elim (Bool-cases (ltb 0 (length (keep (is_loaded model) servers)))) [
      | inl b ↦ choice_of-ne-failed _ e (rw b at h)
      | inr b ↦ choice_of-ne-failed _ e (rw b at h)
    ]

-- `Pick` reports that there is no server exactly when no server is healthy, has the model and is not
-- excluded.
pub pick-failed_iff :
    (r : Router) (model : String) (exclude : List String)
    → ((pick r model exclude).1 ≡ failed (no_server model))
      ↔ NoneOf (is_candidate model exclude) r.servers
unfolding pick candidates
pick-failed_iff r model exclude =
    let k = keep-nil_iff (is_candidate model exclude) r.servers in
    let ne =
      pick_by-ne-failed r.strategy r model (keep (is_candidate model exclude) r.servers)
        (no_server model) in
    (ground (arith, k, ne), ground (arith, k))
