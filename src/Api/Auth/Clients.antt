-- ===== src/Api/Auth/Clients.antt =====
-- The table of keys of a configuration that `Validate` accepts.
use mathlib.Core.List.{Memᴰ}
use proxy_lm_go.Common.{
  String, ◌==◌, ◌≡◌, ◌≢◌, refl, sym, ap, subst, ◌∙◌, ◌⊎◌, inl, inr, Bool, true, false, none, List,
  [], ◌∷◌, arith, eq_iff, eq_refl, ℕ, contains, if◌then◌else◌, Bool-cases, true≢false,
}
use proxy_lm_go.Config.{ApiKey, Auth}
use proxy_lm_go.Config.Validate.{validate_keys, validate_auth, validate_auth_keys}
use proxy_lm_go.Config.Keys.{validate_keys-Checked, NoKey, validate_keys-NoKey, validate_keys-admin}
use proxy_lm_go.Api.Auth.{
  write_keys, new_auth_registry, read_key, lookup_client, is_admin, AuthHeaders, HeaderLib,
  extract_key, denied, served_as, client_auth,
}

-- A key that is not written reads as before.
write_keys-NoKey :
    (m : List (String × String)) (ks : List ApiKey) (key : String)
    → NoKey key ks
    → read_key (write_keys m ks) key ≡ read_key m key
unfolding write_keys read_key
write_keys-NoKey m [] key n = refl
write_keys-NoKey m (k ∷ ks) key n = write_keys-NoKey ((k.key, k.name) ∷ m) ks key n.1 ∙ rw n.0 refl

read-written :
    (m : List (String × String)) (k : ApiKey) → read_key ((k.key, k.name) ∷ m) k.key ≡ k.name
unfolding read_key
read-written m k = rw (eq_refl k.key) refl

-- What is read for a key of the list.
abbrev Named : List (String × String) → List ApiKey → ApiKey → Type 0
Named m ks k = (read_key (write_keys m ks) k.key ≡ k.name) × ((k.name == "") ≡ false)

write_keys-Named :
    (admin_key : String) (seen_name seen_key : List String) (m : List (String × String))
    (ks : List ApiKey) (k : ApiKey)
    → validate_keys admin_key seen_name seen_key ks ≡ none
    → Memᴰ k ks
    → Named m ks k
unfolding write_keys
write_keys-Named admin_key seen_name seen_key m [] k h t = elim t [ ]
write_keys-Named admin_key seen_name seen_key m (x ∷ ks) k h (Memᴰ.head e) =
    let checked = validate_keys-Checked admin_key seen_name seen_key x ks h in
    let seen : contains (x.key ∷ seen_key) x.key ≡ true = rw (eq_refl x.key) refl in
    subst (Named m (x ∷ ks)) (sym e) (
      write_keys-NoKey ((x.key, x.name) ∷ m) ks x.key (
            validate_keys-NoKey admin_key (x.name ∷ seen_name) (x.key ∷ seen_key) ks x.key
              (checked.rest) seen)
          ∙ read-written m x,
      checked.named,
    )
write_keys-Named admin_key seen_name seen_key m (x ∷ ks) k h (Memᴰ.tail t) =
    let checked = validate_keys-Checked admin_key seen_name seen_key x ks h in
    write_keys-Named admin_key (x.name ∷ seen_name) (x.key ∷ seen_key) ((x.key, x.name) ∷ m) ks k
      (checked.rest) t

-- The list of an accepted section is not empty, and passes the loop.
accepted_keys :
    (admin_key : String) (ks : List ApiKey)
    → validate_auth_keys admin_key ks ≡ none
    → validate_keys admin_key [] [] ks ≡ none
accepted_keys admin_key [] h = cc
accepted_keys admin_key (k ∷ ks) h = h

-- In a section that `Validate` accepts every configured key looks up the name that is configured with
-- it, which is not empty.
pub lookup_client-configured :
    (a : Auth) (k : ApiKey)
    → validate_auth a ≡ none
    → Memᴰ k a.api_keys
    → (lookup_client (new_auth_registry a) k.key ≡ k.name) × ((k.name == "") ≡ false)
unfolding lookup_client new_auth_registry validate_auth
lookup_client-configured a k h m =
    write_keys-Named a.admin_key [] [] [] a.api_keys k (accepted_keys a.admin_key a.api_keys h) m

-- In a section that `Validate` accepts the admin key is no client's key.
pub is_admin-lookup_client :
    (a : Auth) (key : String)
    → validate_auth a ≡ none
    → is_admin (new_auth_registry a) key ≡ true
    → lookup_client (new_auth_registry a) key ≡ ""
unfolding lookup_client new_auth_registry validate_auth is_admin read_key
is_admin-lookup_client a key h q =
    let same : key ≡ a.admin_key = (eq_iff key a.admin_key).0 (ground (arith, q)) in
    ap (read_key (write_keys [] a.api_keys)) same
    ∙ write_keys-NoKey [] a.api_keys a.admin_key
        (validate_keys-admin a.admin_key [] [] a.api_keys
          (accepted_keys a.admin_key a.api_keys h)).0

-- A name that is read was written, or was there before.
abbrev WrittenOr : List (String × String) → List ApiKey → String → Type 0
WrittenOr m ks key = ((k : ApiKey) × Memᴰ k ks × (k.key ≡ key)) ⊎ (read_key m key ≢ "")

read-origin :
    (m : List (String × String)) (ks : List ApiKey) (key : String)
    → read_key (write_keys m ks) key ≢ ""
    → WrittenOr m ks key
unfolding write_keys read_key
read-origin m [] key h = inr h
read-origin m (x ∷ ks) key h = elim (read-origin ((x.key, x.name) ∷ m) ks key h) [
  | inl (k, t, e) ↦ inl (k, Memᴰ.tail t, e)
  | inr n ↦ elim (Bool-cases (x.key == key)) [
    | inl e ↦ inl (x, Memᴰ.head refl, (eq_iff x.key key).0 e)
    | inr e ↦ inr (rw e at n)
  ]
]

-- A response of the check, read backwards.
two_checks :
    (no_key no_name : Bool) (a b : String) (c : ℕ) (found name : String)
    → (if no_key then denied c a else if no_name then denied c b else served_as found)
      ≡ served_as name
    → (no_key ≡ false) × (no_name ≡ false) × (found ≡ name)
two_checks true no_name a b c found name h = cc
two_checks false true a b c found name h = cc
two_checks false false a b c found name h = (refl, refl, cc)

nonempty : (s : String) → (s == "") ≡ false → s ≢ ""
nonempty s h e = true≢false (sym ((eq_iff s "").1 e) ∙ h)

-- A request of a client is let through, in the name of a client, only with a configured key, which was
-- taken from its headers and is not empty.
pub client_auth-served :
    (lib : HeaderLib) (a : Auth) (h : AuthHeaders) (name : String)
    → client_auth lib (new_auth_registry a) h ≡ served_as name
    → (k : ApiKey) × Memᴰ k a.api_keys
      × (k.key ≡ extract_key lib h)
      × ((extract_key lib h == "") ≡ false)
      × (lookup_client (new_auth_registry a) k.key ≡ name)
unfolding client_auth lookup_client new_auth_registry read_key
client_auth-served lib a h name q =
    let (has_key, has_name, same) = two_checks _ _ _ _ _ _ _ q in
    origin has_key same (read-origin [] a.api_keys (extract_key lib h) (nonempty _ has_name))
  where
    origin :
        (extract_key lib h == "") ≡ false
        → read_key (write_keys [] a.api_keys) (extract_key lib h) ≡ name
        → WrittenOr [] a.api_keys (extract_key lib h)
        → (k : ApiKey) × Memᴰ k a.api_keys
          × (k.key ≡ extract_key lib h)
          × ((extract_key lib h == "") ≡ false)
          × (lookup_client (new_auth_registry a) k.key ≡ name)
    origin x y (inl (k, m, e)) = (k, m, e, x, ap (read_key (write_keys [] a.api_keys)) e ∙ y)
    origin x y (inr n) = absurd (n refl)
