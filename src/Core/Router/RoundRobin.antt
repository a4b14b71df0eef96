-- ===== src/Core/Router/RoundRobin.antt =====
-- `Pick` under `round_robin` and `least_busy`.
use native.Mathlib.Nat.{mod-eq_of_lt, mod-add-mod, mod-eq-sub-mod}
use proxy_lm_go.Common.{
  ℕ, zero, suc, ◌+◌, ◌-◌, ◌%◌, ◌≤◌, ◌<◌, String, ◌≡◌, sym, ap, ◌∙◌, ◌⊎◌, inl, inr, some, List, [],
  arith, NoneOf, leb, length, get_elem?, Bool-cases, int64_mod, int64_sign,
}
use proxy_lm_go.Common.Sort.{Least}
use proxy_lm_go.Core.Models.{ServerInfo}
use proxy_lm_go.Core.Router.{
  Router, chosen, pick, pick_by, candidates, is_candidate, less_busy, choice_of, pick_round_robin,
  index_mod, round_robin, least_busy,
}
use proxy_lm_go.Core.Router.Order.{keep-nil_iff, pick_least_busy-Least}
use proxy_lm_go.Core.Router.Affinity.{NoneOf-nonempty}

-- Under `least_busy`, if there is a candidate, the first of those with the least load, and of the least
-- priority among these, is chosen.
pub pick-least_busy :
    (r : Router) (model : String) (exclude : List String)
    → r.strategy ≡ least_busy
    → ¬ NoneOf (is_candidate model exclude) r.servers
    → (s : ServerInfo) × (pick r model exclude ≡ (r, chosen s))
      × Least less_busy (is_candidate model exclude) r.servers (some s)
unfolding pick candidates pick_by
pick-least_busy r model exclude h n =
    let (s, e, l) = pick_least_busy-Least (is_candidate model exclude) r.servers n in
    (s, ground (arith, NoneOf-nonempty _ r.servers n, e), l)

-- Under `round_robin` the candidate at the count modulo their number is chosen, and the count goes up
-- by one, as long as the count is below 2 ^ 63.
pub pick-round_robin :
    (r : Router) (model : String) (exclude : List String)
    → r.strategy ≡ round_robin
    → r.rr_idx < int64_sign
    → ¬ NoneOf (is_candidate model exclude) r.servers
    → pick r model exclude ≡ (
      record r { rr_idx = r.rr_idx + 1 },
      choice_of
          (get_elem? (candidates r model exclude) (r.rr_idx % length (candidates r model exclude))),
    )
unfolding pick candidates pick_by pick_round_robin index_mod
pick-round_robin r model exclude h b n =
    let small : (r.rr_idx + 1) % int64_mod ≡ r.rr_idx + 1 = omega arith in
    ground (arith, NoneOf-nonempty _ r.servers n, small)

-- The router after some requests for one model, none of them excluding a server.
unfoldable pub after_picks : ℕ → Router → String → Router
after_picks zero r model = r
after_picks (suc k) r model = after_picks k (pick r model []).0 model

-- The position that a count reaches within one round.
rounds_to : (t n i : ℕ) → t < n → i < n → (k : ℕ) × (k < n) × ((t + k ≡ i) ⊎ (t + k ≡ n + i))
rounds_to t n i h g = elim (Bool-cases (leb t i)) [
  | inl e ↦ (i - t, ground arith, inl (ground arith))
  | inr e ↦ (n + i - t, ground arith, inr (ground arith))
]

hits : (c n i : ℕ) → i < n → (k : ℕ) × (k < n) × ((c + k) % n ≡ i)
hits c n i h =
    let (k, b, e) = rounds_to (c % n) n i (omega arith) h in
    (k, b, sym (mod-add-mod c n k) ∙ wraps (c % n + k) e)
  where
    wraps : (m : ℕ) → (m ≡ i) ⊎ (m ≡ n + i) → m % n ≡ i
    wraps m e = grind (arith, mod-eq_of_lt, mod-eq-sub-mod)

after_picks-count :
    (k : ℕ) (r : Router) (model : String)
    → r.strategy ≡ round_robin
    → r.rr_idx + k ≤ int64_sign
    → ¬ NoneOf (is_candidate model []) r.servers
    → after_picks k r model ≡ record r { rr_idx = r.rr_idx + k }
unfolding after_picks
after_picks-count zero r model h b n = ground arith
after_picks-count (suc k) r model h b n =
    let e = pick-round_robin r model [] h (omega arith) n in
    let ih = after_picks-count k (record r { rr_idx = r.rr_idx + 1 }) model h (omega arith) n in
    rw e (ih ∙ ground arith)

-- Under `round_robin` each candidate is chosen within as many requests for one model, none of them
-- excluding a server, as there are candidates, if their health and models stay and the count does not
-- pass 2 ^ 63.
pub pick-round_robin_fair :
    (r : Router) (model : String) (i : ℕ)
    → r.strategy ≡ round_robin
    → i < length (candidates r model [])
    → r.rr_idx + length (candidates r model []) ≤ int64_sign
    → (k : ℕ) × (k < length (candidates r model []))
      × ((pick (after_picks k r model) model []).1
          ≡ choice_of (get_elem? (candidates r model []) i))
unfolding candidates
pick-round_robin_fair r model i h l b =
    let (k, kl, e) = hits r.rr_idx (length (candidates r model [])) i l in
    (k, kl, rw (after_picks-count k r model h (omega arith) n) (at_count k kl e))
  where
    n : ¬ NoneOf (is_candidate model []) r.servers
    n m = absurd (omega (arith, l, (keep-nil_iff (is_candidate model []) r.servers).1 m))

    at_count :
        (k : ℕ)
        → k < length (candidates r model [])
        → (r.rr_idx + k) % length (candidates r model []) ≡ i
        → (pick (record r { rr_idx = r.rr_idx + k }) model []).1
          ≡ choice_of (get_elem? (candidates r model []) i)
    at_count k kl e =
        ap (λ x. x.1)
          (pick-round_robin (record r { rr_idx = r.rr_idx + k }) model [] h (omega arith) n)
        ∙ ap (λ j. choice_of (get_elem? (candidates r model []) j)) e
