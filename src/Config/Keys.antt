-- ===== src/Config/Keys.antt =====
-- What `Validate` ensures of the keys.

use proxy_lm_go.Common.{
  String, ◌==◌, ◌≡◌, refl, sym, ap, ◌∙◌, Bool, true, false, ◌||◌, Option, none, some, List, [], ◌∷◌,
  arith, eq_iff, inl, inr, All, contains, if◌then◌else◌, Bool-cases, true≢false,
}
use proxy_lm_go.Config.{ApiKey, ConfigError}
use proxy_lm_go.Config.Validate.{validate_keys, validate_admin_key}

-- A test that does not end in its error.
pub unless_error :
    (bad : Bool) (e : ConfigError) (rest : Option ConfigError)
    → (if bad then some e else rest) ≡ none
    → (bad ≡ false) × (rest ≡ none)
unless_error true e rest h = cc
unless_error false e rest h = (refl, h)

-- What the loop has checked of a key when it finds no error.
pub record Checked (admin_key : String) (seen_name seen_key : List String) (k : ApiKey)
    (ks : List ApiKey) : Type 0 where
  pub named : (k.name == "") ≡ false
  pub has_key : (k.key == "") ≡ false
  pub new_name : contains seen_name k.name ≡ false
  pub new_key : contains seen_key k.key ≡ false
  pub rest : validate_keys admin_key (k.name ∷ seen_name) (k.key ∷ seen_key) ks ≡ none

pub validate_keys-Checked :
    (admin_key : String) (seen_name seen_key : List String) (k : ApiKey) (ks : List ApiKey)
    → validate_keys admin_key seen_name seen_key (k ∷ ks) ≡ none
    → Checked admin_key seen_name seen_key k ks
unfolding validate_keys
validate_keys-Checked admin_key seen_name seen_key k ks h =
    let (a, h1) = unless_error _ _ _ h in
    let (b, h2) = unless_error _ _ _ h1 in
    let (c, h3) = unless_error _ _ _ h2 in
    let (d, h4) = unless_error _ _ _ h3 in
    record { named = a; has_key = b; new_name = c; new_key = d; rest = h4 }

-- No key of the list is this one.
abbrev pub NoKey : String → List ApiKey → Type 0
NoKey key ks = All (λ k. (k.key == key) ≡ false) ks

pub validate_keys-NoKey :
    (admin_key : String) (seen_name seen_key : List String) (ks : List ApiKey) (key : String)
    → validate_keys admin_key seen_name seen_key ks ≡ none
    → contains seen_key key ≡ true
    → NoKey key ks
validate_keys-NoKey admin_key seen_name seen_key [] key h c = tt
validate_keys-NoKey admin_key seen_name seen_key (k ∷ ks) key h c =
    let checked = validate_keys-Checked admin_key seen_name seen_key k ks h in
    (
      other (checked.new_key),
      validate_keys-NoKey admin_key (k.name ∷ seen_name) (k.key ∷ seen_key) ks key (checked.rest)
          (also (k.key == key)),
    )
  where
    other : contains seen_key k.key ≡ false → (k.key == key) ≡ false
    other n = elim (Bool-cases (k.key == key)) [
      | inl e ↦
          absurd (true≢false (sym c ∙ ap (contains seen_key) (sym ((eq_iff k.key key).0 e)) ∙ n))
      | inr e ↦ e
    ]

    also : (b : Bool) → (b || contains seen_key key) ≡ true
    also b = ground (arith, c)

pub validate_keys-admin :
    (admin_key : String) (seen_name seen_key : List String) (ks : List ApiKey)
    → validate_keys admin_key seen_name seen_key ks ≡ none
    → NoKey admin_key ks × (contains seen_key admin_key ≡ false)
unfolding validate_keys validate_admin_key
validate_keys-admin admin_key seen_name seen_key [] h =
    (tt, (unless_error _ _ _ (unless_error _ _ _ h).1).0)
validate_keys-admin admin_key seen_name seen_key (k ∷ ks) h =
    let checked = validate_keys-Checked admin_key seen_name seen_key k ks h in
    let (n, c) =
      validate_keys-admin admin_key (k.name ∷ seen_name) (k.key ∷ seen_key) ks (checked.rest) in
    ((ground (arith, c), n), ground (arith, c))
