-- ===== src/Common/Sort.antt =====
-- `sort.SliceStable` as insertion, and what its first element is.
use proxy_lm_go.Common.Tests.{if◌then◌else◌, Bool-cases}
use proxy_lm_go.Common.Lists.{All, All-append, NoneOf, keep}
use mathlib.Core.Path.{◌≡◌, refl, sym, ap, subst}
use mathlib.Core.Logic.{inl, inr}
use mathlib.Core.Bool.{Bool, true, false}
use mathlib.Core.Option.{Option, none, some}
use mathlib.Core.List.{List, [], ◌∷◌, ◌++◌}

module _ {ℓ} {A : Type ℓ} where
  -- `x` goes before the first element that is not less than it.
  pub insert_sorted : (A → A → Bool) → A → List A → List A
  insert_sorted less x [] = x ∷ []
  insert_sorted less x (y ∷ ys) = if less y x then y ∷ insert_sorted less x ys else x ∷ y ∷ ys

  -- Elements that neither is less than the other keep their order.
  unfoldable pub stable_sort : (A → A → Bool) → List A → List A
  unfolding insert_sorted
  stable_sort less [] = []
  stable_sort less (x ∷ xs) = insert_sorted less x (stable_sort less xs)

  abbrev pub first : List A → Option A
  first [] = none
  first (x ∷ xs) = some x

-- `less` orders by a key: a strict order whose "not less" is transitive.
pub record IsStrictWeak {ℓ} {A : Type ℓ} (less : A → A → Bool) : Type ℓ where
  pub asym : (a b : A) → less a b ≡ true → less b a ≡ false
  pub cotrans : (a b c : A) → less b a ≡ false → less c b ≡ false → less c a ≡ false

-- The first of the least elements that pass: those before it are greater, none after it is less.
pub data Least {ℓ} {A : Type ℓ} (less : A → A → Bool) (p : A → Bool) (xs : List A)
    : Option A → Type ℓ where
  least :
      (before : List A) (x : A) (after : List A)
      → xs ≡ before ++ (x ∷ after)
      → p x ≡ true
      → All (λ y. p y ≡ true → less x y ≡ true) before
      → All (λ y. p y ≡ true → less y x ≡ false) after
      → Least less p xs (some x)
  no_element : NoneOf p xs → Least less p xs none

module _ {ℓ} {A : Type ℓ} {less : A → A → Bool} (order : IsStrictWeak less) (p : A → Bool) where
  open order use {asym, cotrans}

  abbrev NotLess : A → A → Type 0
  NotLess x z = p z ≡ true → less z x ≡ false

  NotLess-trans :
      (x y : A) (ys : List A) → less y x ≡ false → All (NotLess y) ys → All (NotLess x) ys
  NotLess-trans x y [] h a = tt
  NotLess-trans x y (z ∷ zs) h a = (λ q. cotrans x y z h (a.0 q), NotLess-trans x y zs h a.1)

  NotLess-before :
      (x y : A) (ys : List A)
      → less y x ≡ false
      → All (λ z. p z ≡ true → less y z ≡ true) ys
      → All (NotLess x) ys
  NotLess-before x y [] h a = tt
  NotLess-before x y (z ∷ zs) h a =
      (λ q. cotrans x y z h (asym y z (a.0 q)), NotLess-before x y zs h a.1)

  Least-skip :
      {x y : A} {xs : List A}
      → less y x ≡ true
      → Least less p xs (some y)
      → Least less p (x ∷ xs) (some y)
  Least-skip {x} h (least before y after e q b a) =
      least (x ∷ before) y after (ap (◌∷◌ x) e) q ((λ _. h), b) a

  Least-new :
      {x y : A} {xs : List A}
      → less y x ≡ false
      → p x ≡ true
      → Least less p xs (some y)
      → Least less p (x ∷ xs) (some x)
  Least-new {x} {xs = xs} h px (least before y after e q b a) = least [] x xs refl px tt (
      subst (All (NotLess x)) (sym e) (
        All-append _ before (y ∷ after) (NotLess-before x y before h b)
          ((λ _. h), NotLess-trans x y after h a)))

  NotLess-none : (x : A) (xs : List A) → NoneOf p xs → All (NotLess x) xs
  NotLess-none x [] n = tt
  NotLess-none x (y ∷ ys) n = (λ q. cc, NotLess-none x ys n.1)

  first-insert_sorted :
      (x : A) (sorted : List A) (xs : List A)
      → p x ≡ true
      → Least less p xs (first sorted)
      → Least less p (x ∷ xs) (first (insert_sorted less x sorted))
  unfolding insert_sorted
  first-insert_sorted x [] xs px (no_element n) = least [] x xs refl px tt (NotLess-none x xs n)
  first-insert_sorted x (y ∷ ys) xs px l = elim (Bool-cases (less y x)) [
    | inl h ↦ rw h (Least-skip h l)
    | inr h ↦ rw h (Least-new h px l)
  ]

  Least-filtered :
      {x : A} {xs : List A} {r : Option A}
      → p x ≡ false
      → Least less p xs r
      → Least less p (x ∷ xs) r
  Least-filtered {x} h (least before y after e q b a) =
      least (x ∷ before) y after (ap (◌∷◌ x) e) q ((λ k. cc), b) a
  Least-filtered h (no_element n) = no_element (h, n)

  -- The head of the sorted list of those that pass.
  pub first-stable_sort : (xs : List A) → Least less p xs (first (stable_sort less (keep p xs)))
  unfolding stable_sort
  first-stable_sort [] = no_element tt
  first-stable_sort (x ∷ xs) = elim (Bool-cases (p x)) [
    | inl h ↦
        rw h (first-insert_sorted x (stable_sort less (keep p xs)) xs h (first-stable_sort xs))
    | inr h ↦ rw h (Least-filtered h (first-stable_sort xs))
  ]
