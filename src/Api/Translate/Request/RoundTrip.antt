-- ===== src/Api/Translate/Request/RoundTrip.antt =====
-- A request of an OpenAI client, translated for the Messages API and back.
use proxy_lm_go.Common.{
  String, ◌==◌, ◌≡◌, refl, sym, ap, ◌∙◌, eq_iff, inl, inr, false, Bool-cases, Option, none, some,
  List, [], ◌∷◌, ◌++◌, map, All, if◌then◌else◌,
}
use proxy_lm_go.Api.Json.{Json, str, Fields, get, get-field_if, to_list-of_list, array, JsonLib}
use proxy_lm_go.Api.Translate.Request.{
  is_system, split_system, extract_system_messages, convert_oai_messages_to_anthropic,
}
use proxy_lm_go.Api.Translate.Request.Blocks.{convert_all, convert_anthropic_messages_to_oai}
use proxy_lm_go.Api.Translate.Request.Bodies.{
  anthropic_messages_field, messages_body, system_message, system_messages, flatten_system,
  chat_body,
}
use proxy_lm_go.Api.Translate.Request.Conversation.{
  Turn, user, assistant, calling, answered, openai_turn, Decodes, turns-back,
}

-- The messages and the system text of the translated request.
messages_field-messages :
    (lib : JsonLib) (msgs : Json) (rest : Fields)
    → get (anthropic_messages_field lib (some msgs) rest) "messages"
      ≡ some (array (convert_oai_messages_to_anthropic lib (extract_system_messages msgs).1))
unfolding get
messages_field-messages lib msgs rest = elim (Bool-cases ((extract_system_messages msgs).0 == "")) [
  | inl e ↦ simp e
  | inr e ↦ simp e
]

-- An empty system text has no field.
abbrev text_or_none : String → Option Json
text_or_none text = if text == "" then none else some (str text)

messages_field-system :
    (lib : JsonLib) (msgs : Json) (rest : Fields)
    → get rest "system" ≡ none
    → get (anthropic_messages_field lib (some msgs) rest) "system"
      ≡ text_or_none (extract_system_messages msgs).0
unfolding get
messages_field-system lib msgs rest r = elim (Bool-cases ((extract_system_messages msgs).0 == "")) [
  | inl e ↦ simp (e, r)
  | inr e ↦ simp e
]

body-messages :
    (lib : JsonLib) (oai : Fields) (msgs : Json)
    → get oai "messages" ≡ some msgs
    → get (messages_body lib oai) "messages"
      ≡ some (array (convert_oai_messages_to_anthropic lib (extract_system_messages msgs).1))
unfolding messages_body get
body-messages lib oai msgs h = simp (h, get-field_if, messages_field-messages)

body-system :
    (lib : JsonLib) (oai : Fields) (msgs : Json)
    → get oai "messages" ≡ some msgs
    → get (messages_body lib oai) "system" ≡ text_or_none (extract_system_messages msgs).0
unfolding messages_body get
body-system lib oai msgs h =
    simp (h, get-field_if) (messages_field-system lib msgs _ (simp get-field_if))

turn-other : (lib : JsonLib) (t : Turn) → is_system (openai_turn lib t) ≡ false
unfolding get
turn-other lib (user text) = refl
turn-other lib (assistant text) = refl
turn-other lib (calling text c cs) = refl
turn-other lib (answered id text) = refl

turns-split :
    (lib : JsonLib) (s : String) (ts : List Turn)
    → split_system s (map (openai_turn lib) ts) ≡ (s, map (openai_turn lib) ts)
unfolding split_system
turns-split lib s [] = refl
turns-split lib s (t ∷ ts) = simp (turn-other lib t, turns-split lib s ts)

-- The messages of an OpenAI request: a system text, if there is one, and then the turns.
abbrev pub openai_messages_json : JsonLib → String → List Turn → Json
openai_messages_json lib system ts = array (system_message system ++ map (openai_turn lib) ts)

system-split :
    (lib : JsonLib) (system : String) (ts : List Turn)
    → split_system "" (system_message system ++ map (openai_turn lib) ts)
      ≡ (system, map (openai_turn lib) ts)
unfolding split_system get
system-split lib system ts = elim (Bool-cases (system == "")) [
  | inl e ↦ rw e (
      turns-split lib "" ts
      ∙ ap (λ x. (x, map (openai_turn lib) ts)) (sym ((eq_iff system "").0 e)))
  | inr e ↦ rw e (turns-split lib system ts)
]

messages-split :
    (lib : JsonLib) (system : String) (ts : List Turn)
    → extract_system_messages (openai_messages_json lib system ts)
      ≡ (system, map (openai_turn lib) ts)
unfolding extract_system_messages
messages-split lib system ts =
    ap (split_system "") (to_list-of_list (system_message system ++ map (openai_turn lib) ts))
    ∙ system-split lib system ts

system-back :
    (sprint : Json → String) (system : String)
    → system_messages sprint (text_or_none system) ≡ system_message system
unfolding flatten_system
system-back sprint system = elim (Bool-cases (system == "")) [ inl e ↦ simp e | inr e ↦ simp e ]

-- An OpenAI request whose messages are a system text and turns, with tool calls whose arguments come
-- back from their encoding, keeps its messages when `OpenAIChatToAnthropicMessages` translates it and
-- `AnthropicMessagesToOpenAIChat` translates the result.
pub chat_body-messages :
    (sprint : Json → String) (lib : JsonLib) (oai : Fields) (system : String) (ts : List Turn)
    → get oai "messages" ≡ some (openai_messages_json lib system ts)
    → All (Decodes lib) ts
    → get (chat_body sprint lib (messages_body lib oai)) "messages" ≡ get oai "messages"
unfolding chat_body get convert_anthropic_messages_to_oai
chat_body-messages sprint lib oai system ts h d =
    simp
      (
        get-field_if,
        h,
        body-messages lib oai _ h,
        body-system lib oai _ h,
        messages-split lib system ts,
        system-back sprint system,
      )
      (ap (λ l. some (array (system_message system ++ l)))
        (ap (convert_all lib) (to_list-of_list _) ∙ turns-back lib ts d))
