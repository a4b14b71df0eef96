-- ===== src/Api/Translate/Request/Settings.antt =====
-- The settings of an OpenAI request (all but its messages), translated for the Messages API and back.
use proxy_lm_go.Common.{
  pos, String, ◌==◌, ◌≡◌, refl, sym, subst, ap, ◌∙◌, inl, inr, false, Bool-cases, Option, none,
  some, List, [], ◌∷◌, map, or_else-none,
}
use proxy_lm_go.Api.Json.{
  Json, null, bool, num, str, arr, obj, int, Items, Fields, get, get-field_if, array, JsonLib,
}
use proxy_lm_go.Api.Translate.Request.{
  extract_system_messages, normalize_stop_sequences, convert_anthropic_tools_to_oai,
  convert_oai_tools_to_anthropic,
}
use proxy_lm_go.Api.Translate.Request.Bodies.{
  mapped, anthropic_messages_field, max_tokens, messages_body, chat_body,
}
use proxy_lm_go.Api.Translate.Request.Tools.{
  Tool, openai_form, convert_oai_tools-form, convert_anthropic_tools-form,
}

-- The token limit of a request: `max_tokens`, else `max_completion_tokens`, else 4096.
pub data TokenLimit (oai : Fields) : Option Json → Type 0 where
  own : {v : Json} → get oai "max_tokens" ≡ some v → TokenLimit oai (some v)
  newer :
      {v : Json}
      → get oai "max_tokens" ≡ none
      → get oai "max_completion_tokens" ≡ some v
      → TokenLimit oai (some v)
  absent :
      get oai "max_tokens" ≡ none
      → get oai "max_completion_tokens" ≡ none
      → TokenLimit oai (some (num (int (pos 4096))))

abbrev OtherValue : Json → Type 0
OtherValue (str s) = ⊥
OtherValue (arr items) = ⊥
OtherValue v = Unit

-- The stop sequences of a request and what comes back: a text as a list of one, a list as it is, and any
-- other value as null.
pub data StopForm : Option Json → Option Json → Type 0 where
  no_stop : StopForm none none
  one_stop : (s : String) → StopForm (some (str s)) (some (array (str s ∷ [])))
  stop_list : (items : Items) → StopForm (some (arr items)) (some (arr items))
  bad_stop : (v : Json) → OtherValue v → StopForm (some v) (some null)

-- The tools of a request: none, or functions as the API has them.
pub data Functions : Option Json → Type 0 where
  no_tools : Functions none
  functions : (ts : List Tool) → Functions (some (array (map openai_form ts)))

-- The messages are not looked at for the other keys.
messages_field-other :
    (lib : JsonLib) (o : Option Json) (rest : Fields) (k : String)
    → "system" == k ≡ false
    → "messages" == k ≡ false
    → get (anthropic_messages_field lib o rest) k ≡ get rest k
unfolding get
messages_field-other lib none rest k s m = refl
messages_field-other lib (some msgs) rest k s m =
    elim (Bool-cases ((extract_system_messages msgs).0 == "")) [
      | inl e ↦ simp (e, m)
      | inr e ↦ simp (e, m, s)
    ]

body-model : (lib : JsonLib) (oai : Fields) → get (messages_body lib oai) "model" ≡ get oai "model"
unfolding messages_body get
body-model lib oai = simp (get-field_if, messages_field-other, or_else-none)

body-stream :
    (lib : JsonLib) (oai : Fields) → get (messages_body lib oai) "stream" ≡ get oai "stream"
unfolding messages_body get
body-stream lib oai = simp (get-field_if, messages_field-other, or_else-none)

body-temperature :
    (lib : JsonLib) (oai : Fields)
    → get (messages_body lib oai) "temperature" ≡ get oai "temperature"
unfolding messages_body get
body-temperature lib oai = simp (get-field_if, messages_field-other, or_else-none)

body-top_p : (lib : JsonLib) (oai : Fields) → get (messages_body lib oai) "top_p" ≡ get oai "top_p"
unfolding messages_body get
body-top_p lib oai = simp (get-field_if, messages_field-other, or_else-none)

body-max_tokens :
    (lib : JsonLib) (oai : Fields)
    → get (messages_body lib oai) "max_tokens" ≡ some (max_tokens oai)
unfolding messages_body get
body-max_tokens lib oai = simp get-field_if

body-stop_sequences :
    (lib : JsonLib) (oai : Fields)
    → get (messages_body lib oai) "stop_sequences"
      ≡ mapped normalize_stop_sequences (get oai "stop")
unfolding messages_body get
body-stop_sequences lib oai = simp (get-field_if, messages_field-other, or_else-none)

body-tools :
    (lib : JsonLib) (oai : Fields)
    → get (messages_body lib oai) "tools" ≡ mapped convert_oai_tools_to_anthropic (get oai "tools")
unfolding messages_body get
body-tools lib oai = simp (get-field_if, messages_field-other, or_else-none)

limit-cases :
    (oai : Fields) (own_limit new_limit : Option Json)
    → get oai "max_tokens" ≡ own_limit
    → get oai "max_completion_tokens" ≡ new_limit
    → TokenLimit oai (some (max_tokens oai))
unfolding max_tokens
limit-cases oai (some v) n e f = rw e (own e)
limit-cases oai none (some v) e f = rw (e, f) (newer e f)
limit-cases oai none none e f = rw (e, f) (absent e f)

stop-form : (o : Option Json) → StopForm o (mapped normalize_stop_sequences o)
unfolding normalize_stop_sequences
stop-form none = no_stop
stop-form (some null) = bad_stop null tt
stop-form (some (bool b)) = bad_stop (bool b) tt
stop-form (some (num n)) = bad_stop (num n) tt
stop-form (some (str s)) = one_stop s
stop-form (some (arr items)) = stop_list items
stop-form (some (obj m)) = bad_stop (obj m) tt

Functions-back :
    {o : Option Json}
    → Functions o
    → mapped convert_anthropic_tools_to_oai (mapped convert_oai_tools_to_anthropic o) ≡ o
Functions-back no_tools = refl
Functions-back (functions ts) =
    ap (λ v. some (convert_anthropic_tools_to_oai v)) (convert_oai_tools-form ts)
    ∙ ap some (convert_anthropic_tools-form ts)

-- The settings of an OpenAI request whose tools, if it has any, are functions, after
-- `OpenAIChatToAnthropicMessages` and `AnthropicMessagesToOpenAIChat`: the model, the stream flag, the
-- sampling and the tools come back as they were; the token limit is `max_tokens`, else
-- `max_completion_tokens`, else 4096; a text in `stop` comes back as a list of one, a list as it is, any
-- other value as null.
pub chat_body-fields :
    (sprint : Json → String) (lib : JsonLib) (oai : Fields)
    → Functions (get oai "tools")
    → let back = chat_body sprint lib (messages_body lib oai) in
      (get back "model" ≡ get oai "model")
      × (get back "stream" ≡ get oai "stream")
      × (get back "temperature" ≡ get oai "temperature")
      × (get back "top_p" ≡ get oai "top_p")
      × TokenLimit oai (get back "max_tokens")
      × StopForm (get oai "stop") (get back "stop")
      × (get back "tools" ≡ get oai "tools")
unfolding chat_body get
chat_body-fields sprint lib oai known = (
  simp (get-field_if, or_else-none, body-model lib oai),
  simp (get-field_if, or_else-none, body-stream lib oai),
  simp (get-field_if, or_else-none, body-temperature lib oai),
  simp (get-field_if, or_else-none, body-top_p lib oai),
  subst (TokenLimit oai) (sym back_limit) (limit-cases oai _ _ refl refl),
  subst (StopForm (get oai "stop")) (sym back_stop) (stop-form (get oai "stop")),
  back_tools ∙ Functions-back known,
)
  where
    back_limit :
        get (chat_body sprint lib (messages_body lib oai)) "max_tokens" ≡ some (max_tokens oai)
    back_limit = simp (get-field_if, body-max_tokens lib oai)

    back_stop :
        get (chat_body sprint lib (messages_body lib oai)) "stop"
        ≡ mapped normalize_stop_sequences (get oai "stop")
    back_stop = simp (get-field_if, or_else-none, body-stop_sequences lib oai)

    back_tools :
        get (chat_body sprint lib (messages_body lib oai)) "tools"
        ≡ mapped convert_anthropic_tools_to_oai
            (mapped convert_oai_tools_to_anthropic (get oai "tools"))
    back_tools = simp (get-field_if, or_else-none, body-tools lib oai)
