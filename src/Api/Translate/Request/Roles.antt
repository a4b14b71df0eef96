-- ===== src/Api/Translate/Request/Roles.antt =====
-- Which roles a translated conversation has, and where its system messages go.
use proxy_lm_go.Common.{
  String, ◌==◌, ◌≡◌, refl, inl, inr, Bool, false, ◌||◌, Bool-cases, Option, none, some, List, [],
  ◌∷◌, All,
}
use proxy_lm_go.Api.Json.{Json, null, bool, num, str, arr, obj, get, get_string, as_array, JsonLib}
use proxy_lm_go.Api.Translate.{append_line}
use proxy_lm_go.Api.Translate.Request.{
  content_text, extracted_of, is_system, split_system, extract_system_messages, anthropic_message,
  convert_oai_messages_to_anthropic,
}

-- A role that the Messages API does not have.
abbrev pub foreign_role : String → Bool
foreign_role role = role == "system" || (role == "function" || role == "tool")

-- A message that is an object has none of those roles.
abbrev pub Native : Json → Type 0
Native (obj msg) = foreign_role (get_string msg "role") ≡ false
Native m = Unit

abbrev pub NotSystem : Json → Type 0
NotSystem m = is_system m ≡ false

split_system-NotSystem : (s : String) (ms : List Json) → All NotSystem (split_system s ms).1
unfolding split_system
split_system-NotSystem s [] = tt
split_system-NotSystem s (m ∷ ms) = elim (Bool-cases (is_system m)) [
  | inl e ↦ rw e (split_system-NotSystem (append_line s (content_text m)) ms)
  | inr e ↦ rw e (e, split_system-NotSystem s ms)
]

anthropic_message-Native :
    (lib : JsonLib) (m : Json) → NotSystem m → Native (anthropic_message lib m)
unfolding anthropic_message get
anthropic_message-Native lib (obj msg) e =
    let role = get_string msg "role" in
    let other : role == "system" ≡ false = e in
    elim (Bool-cases (role == "function" || role == "tool")) [
      | inl f ↦ rw f refl
      | inr f ↦ rw f (simp (other, f))
    ]
anthropic_message-Native lib null e = tt
anthropic_message-Native lib (bool b) e = tt
anthropic_message-Native lib (num n) e = tt
anthropic_message-Native lib (str s) e = tt
anthropic_message-Native lib (arr xs) e = tt

converted-Native :
    (lib : JsonLib) (ms : List Json)
    → All NotSystem ms
    → All Native (convert_oai_messages_to_anthropic lib ms)
unfolding convert_oai_messages_to_anthropic
converted-Native lib [] n = tt
converted-Native lib (m ∷ ms) n = (anthropic_message-Native lib m n.0, converted-Native lib ms n.1)

extracted-NotSystem : (o : Option (List Json)) → All NotSystem (extracted_of o).1
extracted-NotSystem none = tt
extracted-NotSystem (some ms) = split_system-NotSystem "" ms

-- No object among the messages of a translated conversation, whatever the request has, is of a role
-- that the Messages API does not have: `system`, `tool` or `function`.
pub convert_messages-Native :
    (lib : JsonLib) (msgs : Json)
    → All Native (convert_oai_messages_to_anthropic lib (extract_system_messages msgs).1)
unfolding extract_system_messages
convert_messages-Native lib msgs =
    converted-Native lib (extract_system_messages msgs).1 (extracted-NotSystem (as_array msgs))
