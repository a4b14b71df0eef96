-- ===== src/Common/Lists.antt =====
-- Lists measured and indexed by native numbers, predicates on lists, and the search loops of the
-- source: `for i, x := range xs { if !ok(x) { continue }; xs = append(xs[:i], xs[i+1:]...); return x }`.
use Prim.Native.Nat.{ℕ, zero, suc, ◌+◌, ◌-◌, ◌≤◌}
use Prim.Native.String.{String}
use text.Mathlib.Text.{◌==◌}
use mathlib.Core.Path.{◌≡◌, refl, sym, ap, subst, ◌∙◌}
use mathlib.Core.Bool.{Bool, true, false, ◌||◌}
use mathlib.Core.Option.{Option, none, some}
use mathlib.Core.List.{List, [], ◌∷◌, ◌++◌, map, filter_map, Perm, perm_middle}
use native.Mathlib.Omega.{arith}
use mathlib.Core.Logic.{inl, inr, ◌↔◌, ◌≢◌}
use proxy_lm_go.Common.Tests.{if◌then◌else◌, or_else, Bool-cases}

pub true≢false : ◌≢◌ {A = Bool} true false
true≢false e = cc

module _ {ℓ} {A : Type ℓ} where
  abbrev pub length : List A → ℕ
  length [] = 0
  length (x ∷ xs) = suc (length xs)

  abbrev pub get_elem? : List A → ℕ → Option A
  get_elem? [] i = none
  get_elem? (x ∷ xs) zero = some x
  get_elem? (x ∷ xs) (suc i) = get_elem? xs i

  abbrev pub drop : ℕ → List A → List A
  drop zero xs = xs
  drop (suc n) [] = []
  drop (suc n) (x ∷ xs) = drop n xs

  pub length-drop : (n : ℕ) (xs : List A) → length (drop n xs) ≡ length xs - n
  length-drop zero xs = omega arith
  length-drop (suc n) [] = omega arith
  length-drop (suc n) (x ∷ xs) = omega (arith, length-drop n xs)

  pub drop-append : (n : ℕ) (xs ys : List A) → n ≤ length xs → drop n (xs ++ ys) ≡ drop n xs ++ ys
  drop-append zero xs ys h = refl
  drop-append (suc n) [] ys h = absurd (omega arith)
  drop-append (suc n) (x ∷ xs) ys h = drop-append n xs ys (omega arith)

  pub drop-drop : (n m : ℕ) (xs : List A) → drop n (drop m xs) ≡ drop (m + n) xs
  drop-drop n zero xs = let e : 0 + n ≡ n = omega arith in rw e
  drop-drop n (suc m) [] = let e : suc m + n ≡ suc (m + n) = omega arith in rw e (drop-nil n)
    where
      drop-nil : (i : ℕ) → drop i [] ≡ []
      drop-nil zero = refl
      drop-nil (suc i) = refl
  drop-drop n (suc m) (x ∷ xs) =
      let e : suc m + n ≡ suc (m + n) = omega arith in rw e (drop-drop n m xs)

  pub length-append : (xs ys : List A) → length (xs ++ ys) ≡ length xs + length ys
  length-append [] ys = omega arith
  length-append (x ∷ xs) ys = omega (arith, length-append xs ys)

  abbrev pub All {κ} : (A → Type κ) → List A → Type κ
  All P [] = Unit
  All P (x ∷ xs) = P x × All P xs

  pub All-append {κ} : (P : A → Type κ) (xs ys : List A) → All P xs → All P ys → All P (xs ++ ys)
  All-append P [] ys a b = b
  All-append P (x ∷ xs) ys a b = (a.0, All-append P xs ys a.1 b)

  pub All-middle {κ} :
      (P : A → Type κ) (xs : List A) (y : A) (ys : List A) → All P (xs ++ (y ∷ ys)) → P y
  All-middle P [] y ys a = a.0
  All-middle P (x ∷ xs) y ys a = All-middle P xs y ys a.1

  -- Every element fails the test.
  abbrev pub NoneOf : (A → Bool) → List A → Type 0
  NoneOf p xs = All (λ x. p x ≡ false) xs

  abbrev pub any : (A → Bool) → List A → Bool
  any p [] = false
  any p (x ∷ xs) = p x || any p xs

  abbrev pub keep : (A → Bool) → List A → List A
  keep p [] = []
  keep p (x ∷ xs) = if p x then x ∷ keep p xs else keep p xs

abbrev pub contains : List String → String → Bool
contains xs k = any (λ x. x == k) xs

module _ {ℓ} {A : Type ℓ} where
  abbrev pub push_front : A → Option (A × List A) → Option (A × List A)
  push_front x none = none
  push_front x (some (y, rest)) = some (y, x ∷ rest)

  -- The search-and-remove loop: the first element that passes, and the list without it.
  unfoldable pub take_first : (A → Bool) → List A → Option (A × List A)
  take_first p [] = none
  take_first p (x ∷ xs) = if p x then some (x, xs) else push_front x (take_first p xs)

  -- What the loop may return: the first element that passes, with the others in their order, or
  -- nothing when no element passes.
  pub data Takes (p : A → Bool) (xs : List A) : Option (A × List A) → Type ℓ where
    found :
        (before : List A) (x : A) (after : List A)
        → xs ≡ before ++ (x ∷ after)
        → p x ≡ true
        → NoneOf p before
        → Takes p xs (some (x, before ++ after))
    missing : NoneOf p xs → Takes p xs none

  Takes-push_front :
      (p : A → Bool) (x : A) (xs : List A) {r : Option (A × List A)}
      → p x ≡ false
      → Takes p xs r
      → Takes p (x ∷ xs) (push_front x r)
  Takes-push_front p x xs h (found before y after e py none_before) =
      found (x ∷ before) y after (ap (◌∷◌ x) e) py (h, none_before)
  Takes-push_front p x xs h (missing none_of) = missing (h, none_of)

  pub take_first-Takes : (p : A → Bool) (xs : List A) → Takes p xs (take_first p xs)
  unfolding take_first
  take_first-Takes p [] = missing tt
  take_first-Takes p (x ∷ xs) = elim (Bool-cases (p x)) [
    | inl hit ↦ rw hit (found [] x xs refl hit tt)
    | inr miss ↦ rw miss (Takes-push_front p x xs miss (take_first-Takes p xs))
  ]

  -- Nothing is returned exactly when every element fails.
  pub Takes-none :
      {p : A → Bool} {xs : List A} {r : Option (A × List A)}
      → Takes p xs r
      → (r ≡ none) ↔ NoneOf p xs
  Takes-none {p} {xs} (found before x after e px n) = (
    λ q. cc,
    λ n'. absurd (true≢false (sym px ∙ All-middle _ before x after (subst (NoneOf p) e n'))),
  )
  Takes-none (missing n) = (λ _. n, λ _. refl)

  pub Takes-passes :
      {p : A → Bool} {xs : List A} {r : Option (A × List A)} {y : A} {rest : List A}
      → Takes p xs r
      → r ≡ some (y, rest)
      → p y ≡ true
  Takes-passes {p} (found before x after e px n) q = subst (λ z. p z ≡ true) (same q) px
    where
      same :
          {a b : A} {l k : List A}
          → ◌≡◌ {A = Option (A × List A)} (some (a, l)) (some (b, k))
          → a ≡ b
      same e = cc
  Takes-passes (missing n) q = cc

  -- A test that another one implies finds nothing where that one finds nothing.
  pub take_first-none_mono :
      (p q : A → Bool) (xs : List A)
      → ((x : A) → q x ≡ true → p x ≡ true)
      → take_first p xs ≡ none
      → take_first q xs ≡ none
  take_first-none_mono p q xs h e =
      (Takes-none (take_first-Takes q xs)).1 (weaken xs ((Takes-none (take_first-Takes p xs)).0 e))
    where
      weaken : (ys : List A) → NoneOf p ys → NoneOf q ys
      weaken [] n = tt
      weaken (y ∷ ys) n = (ground (arith, h y), weaken ys n.1)

  pub data Split (xs : List A) : Option (A × List A) → Type ℓ where
    split : (x : A) (rest : List A) → Perm xs (x ∷ rest) → Split xs (some (x, rest))
    unsplit : Split xs none

  -- What is taken and what is left are the elements again, each as often.
  pub take_first-Split : (p : A → Bool) (xs : List A) → Split xs (take_first p xs)
  take_first-Split p xs = of_Takes (take_first-Takes p xs)
    where
      of_Takes : {r : Option (A × List A)} → Takes p xs r → Split xs r
      of_Takes (found before x after e px n) =
          split x (before ++ after) (rw e (perm_middle before after))
      of_Takes (missing n) = unsplit

  pub or_else-Split :
      {xs : List A} {r q : Option (A × List A)} → Split xs r → Split xs q → Split xs (or_else r q)
  or_else-Split (split x rest h) t = split x rest h
  or_else-Split unsplit t = t

-- A conversion that undoes the other one on each item.
pub filter_map-map {ℓ κ ι} :
    {A : Type ℓ} {B : Type κ} {C : Type ι} (f : B → Option C) (g : A → B) (h : A → C) (xs : List A)
    → ((x : A) → f (g x) ≡ some (h x))
    → filter_map f (map g xs) ≡ map h xs
unfolding filter_map
filter_map-map f g h [] e = refl
filter_map-map f g h (x ∷ xs) e = rw (e x) (ap (◌∷◌ (h x)) (filter_map-map f g h xs e))
