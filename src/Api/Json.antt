-- ===== src/Api/Json.antt =====
-- JSON values as the code handles them (`any` after `json.Unmarshal`): the types that it asks for by
-- `v.(T)`, and maps by their entries. The decoder and the encoder are parameters.
use proxy_lm_go.Common.{
  ℤ, String, ◌==◌, Bool, Option, none, some, List, [], ◌∷◌, ◌≡◌, refl, ap, if◌then◌else◌, or_else,
  Bool-cases, inl, inr,
}

-- A float64, by its decimal text and its value as an int, or an int that the code put in.
pub data Number : Type 0 where
  float : String → ℤ → Number
  int : ℤ → Number

mutual
  pub data Json : Type 0 where
    null : Json
    bool : Bool → Json
    num : Number → Json
    str : String → Json
    arr : Items → Json
    obj : Fields → Json

  pub data Items : Type 0 where
    no_items : Items
    item : Json → Items → Items

  pub data Fields : Type 0 where
    no_fields : Fields
    field : String → Json → Fields → Fields

-- `[]any{…}`
unfoldable pub of_list : List Json → Items
of_list [] = no_items
of_list (x ∷ xs) = item x (of_list xs)

unfoldable pub to_list : Items → List Json
to_list no_items = []
to_list (item x xs) = x ∷ to_list xs

pub to_list-of_list : (xs : List Json) → to_list (of_list xs) ≡ xs
unfolding to_list of_list
to_list-of_list [] = refl
to_list-of_list (x ∷ xs) = ap (◌∷◌ x) (to_list-of_list xs)

abbrev pub array : List Json → Json
array xs = arr (of_list xs)

-- `v, ok := m[k]`
unfoldable pub get : Fields → String → Option Json
get no_fields k = none
get (field j v m) k = if j == k then some v else get m k

-- `m[k]`, which is nil for a missing key.
abbrev pub or_null : Option Json → Json
or_null none = null
or_null (some v) = v

abbrev pub get_any : Fields → String → Json
get_any m k = or_null (get m k)

-- The type assertions `v.(string)`, `v.([]any)`, `v.(map[string]any)`.
abbrev pub as_string : Json → Option String
as_string (str s) = some s
as_string _ = none

abbrev pub as_array : Json → Option (List Json)
as_array (arr xs) = some (to_list xs)
as_array _ = none

abbrev pub as_object : Json → Option Fields
as_object (obj m) = some m
as_object _ = none

-- `s, _ := v.(string)`
abbrev pub or_empty : Option String → String
or_empty none = ""
or_empty (some s) = s

abbrev pub get_string : Fields → String → String
get_string m k = or_empty (as_string (get_any m k))

-- `if v, ok := src[k]; ok { dst[name] = v }`, at the head of what follows.
abbrev pub field_if : String → Option Json → Fields → Fields
field_if name none m = m
field_if name (some v) m = field name v m

-- `encoding/json`: `Unmarshal` into `any` or a map, and `Marshal`.
pub record JsonLib : Type 0 where
  pub parse : String → Option Json
  pub print : Json → String

-- What the code relies on: a decoded value comes back from its encoding. An object comes back with its
-- keys in order, so this is asked of one value at a time.
abbrev pub ComesBack : JsonLib → Json → Type 0
ComesBack lib v = lib.parse (lib.print v) ≡ some v

pub get-field_if :
    (name : String) (o : Option Json) (m : Fields) (k : String)
    → get (field_if name o m) k ≡ (if name == k then or_else o (get m k) else get m k)
unfolding get
get-field_if name none m k = elim (Bool-cases (name == k)) [ inl e ↦ simp e | inr e ↦ simp e ]
get-field_if name (some v) m k = refl
