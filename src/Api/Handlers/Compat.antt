-- ===== src/Api/Handlers/Compat.antt =====
-- internal/api/routes_openai.go: `applyResponseFormatCompat` and `listModelsHandler`.
use proxy_lm_go.Common.{
  String, ◌==◌, ◌≡◌, refl, ap, ◌∙◌, eq_refl, eq_iff, inl, inr, Bool, true, false, ◌||◌, Bool-cases,
  Option, none, some, List, [], ◌∷◌, ◌++◌, map, contains, if◌then◌else◌,
}
use proxy_lm_go.Core.Models.{ModelInfo, ServerInfo}
use proxy_lm_go.Api.Json.{
  Json, str, bool, obj, Fields, no_fields, field, get, get_string, as_object, get_any, array,
  JsonLib, ComesBack,
}
use proxy_lm_go.Api.Translate.{parse_map}

-- `m[k] = v`
unfoldable pub set_field : Fields → String → Json → Fields
set_field no_fields k v = field k v no_fields
set_field (field j u m) k v =
    let rest = set_field m k v in if j == k then field k v m else field j u rest

-- The schema that any object satisfies.
abbrev any_object_schema : Json
any_object_schema = obj (
    field "name" (str "response") (
      field "strict" (bool false) (
        field "schema"
          (obj (field "type" (str "object") (field "additionalProperties" (bool true) no_fields)))
          no_fields)))

abbrev pub as_json_schema : Fields → Fields
as_json_schema rf =
    set_field (set_field rf "type" (str "json_schema")) "json_schema" any_object_schema

abbrev pub is_allowed : String → Bool
is_allowed typ = typ == "" || (typ == "json_schema" || typ == "text")

-- The body for the backend, or the type of the format that the error for the client names.
pub data Compat : Type 0 where
  kept : String → Compat
  refused_format : String → Compat

-- The body for the two modes that look at the format.
abbrev format_compat : JsonLib → String → String → Fields → Option Fields → Compat
format_compat lib mode body request none = kept body
format_compat lib mode body request (some rf) =
    if mode == "strict_reject"
    then if is_allowed (get_string rf "type")
      then kept body
      else refused_format (get_string rf "type")
    else if mode == "normalize_json_object"
    then if get_string rf "type" == "json_object"
      then kept (lib.print (obj (set_field request "response_format" (obj (as_json_schema rf)))))
      else kept body
    else kept body

abbrev request_compat : JsonLib → String → String → Option Fields → Compat
request_compat lib mode body none = kept body
request_compat lib mode body (some request) =
    format_compat lib mode body request (as_object (get_any request "response_format"))

-- `applyResponseFormatCompat`; the map has an encoding.
unfoldable pub apply_response_format_compat : JsonLib → String → String → String → Compat
apply_response_format_compat lib body endpoint mode =
    if endpoint == "/v1/chat/completions"
    then if mode == "" || mode == "passthrough"
      then kept body
      else request_compat lib mode body (parse_map lib body)
    else kept body

get-set_field : (m : Fields) (k : String) (v : Json) → get (set_field m k v) k ≡ some v
unfolding get set_field
get-set_field no_fields k v = simp (eq_refl k)
get-set_field (field j u m) k v = elim (Bool-cases (j == k)) [
  | inl e ↦ simp (e, eq_refl k)
  | inr e ↦ simp (e, get-set_field m k v)
]

get-set_other :
    (m : Fields) (k l : String) (v : Json) → k == l ≡ false → get (set_field m k v) l ≡ get m l
unfolding get set_field
get-set_other no_fields k l v d = simp d
get-set_other (field j u m) k l v d = elim (Bool-cases (j == k)) [
  | inl e ↦ simp (e, ap (λ x. x == l) ((eq_iff j k).0 e) ∙ d, d)
  | inr e ↦ elim (Bool-cases (j == l)) [
    | inl f ↦ simp (e, f)
    | inr f ↦ simp (e, f, get-set_other m k l v d)
  ]
]

-- What `normalize_json_object` makes of a request for a JSON object, when it comes back from its
-- encoding, is not changed a second time: its format has another type.
pub compat-settles :
    (lib : JsonLib) (request rf : Fields)
    → (let made = set_field request "response_format" (obj (as_json_schema rf)) in
        ComesBack lib (obj made)
        → apply_response_format_compat lib
            (lib.print (obj made))
            "/v1/chat/completions"
            "normalize_json_object"
          ≡ kept (lib.print (obj made)))
unfolding apply_response_format_compat parse_map
compat-settles lib request rf back = simp (
  back,
  get-set_field request "response_format" (obj (as_json_schema rf)),
  get-set_other (set_field rf "type" (str "json_schema")) "json_schema" "type" any_object_schema
      refl,
  get-set_field rf "type" (str "json_schema"),
)

-- `listModelsHandler`: the loop over the servers, with the names that were seen so far.
abbrev pub new_names : List String → List ModelInfo → List String
new_names seen [] = seen
new_names seen (m ∷ ms) =
    new_names (if contains seen m.name then seen else seen ++ (m.name ∷ [])) ms

unfoldable pub list_models : List String → List ServerInfo → List String
list_models seen [] = seen
list_models seen (s ∷ ss) = list_models (if s.healthy then new_names seen s.models else seen) ss

abbrev model_json : String → Json
model_json name = obj (
    field "id" (str name)
      (field "object" (str "model") (field "owned_by" (str "proxylm") no_fields)))

-- The body of the answer.
unfoldable pub list_models_body : List ServerInfo → Json
list_models_body servers = obj (
    field "object" (str "list")
      (field "data" (array (map model_json (list_models [] servers))) no_fields))
