-- ===== src/Api/Translate/Response/Answers.antt =====
-- An answer of a model, translated for an OpenAI client and back.
use proxy_lm_go.Common.{
  String, ◌==◌, ◌≡◌, refl, sym, ap, ◌∙◌, eq_iff, inl, inr, Bool-cases, some, List, [], ◌∷◌, ◌++◌,
  map, All,
}
use proxy_lm_go.Api.Json.{
  Json, str, obj, Fields, no_fields, field, get, get_any, get_string, as_array, get-field_if,
  to_list, of_list, to_list-of_list, array, JsonLib, ComesBack,
}
use proxy_lm_go.Api.Translate.{
  map_oai_finish_reason, map_anthropic_stop_reason, json_num, int_json, join_lines,
}
use proxy_lm_go.Api.Translate.Request.{text_blocks, tool_call_blocks}
use proxy_lm_go.Api.Translate.Request.Blocks.{read_block, read_blocks}
use proxy_lm_go.Api.Translate.Request.Conversation.{
  Call, openai_call, anthropic_call, calls-parts, sent-blocks,
}
use proxy_lm_go.Api.Translate.Response.{
  or_no_content, calls_field, extract_oai_choice, message_body, extract_anthropic_content,
  chat_response,
}

-- The blocks of an answer: its text, and then its calls.
abbrev pub answer : String → List Call → List Json
answer text cs = text_blocks (some text) ++ map anthropic_call cs

answer-read :
    (lib : JsonLib) (text : String) (cs : List Call)
    → let parts = read_blocks lib (to_list (of_list (answer text cs))) in
      (join_lines parts.text_parts ≡ text) × (parts.tool_calls ≡ map (openai_call lib) cs)
unfolding read_blocks read_block get to_list of_list join_lines
answer-read lib text cs =
    let copied = to_list-of_list (map anthropic_call cs) in
    let parts = ap (read_blocks lib) copied ∙ calls-parts lib cs in
    elim (Bool-cases (text == "")) [
      | inl e ↦ rw e (
        ap (λ p. join_lines p.text_parts) parts ∙ sym ((eq_iff text "").0 e),
        ap (λ p. p.tool_calls) parts,
      )
      | inr e ↦
          rw e (ap (λ p. join_lines (text ∷ p.text_parts)) parts, ap (λ p. p.tool_calls) parts)
    ]

answer-parts :
    (lib : JsonLib) (ant : Fields) (text : String) (cs : List Call)
    → get ant "content" ≡ some (array (answer text cs))
    → extract_anthropic_content lib ant ≡ (text, map (openai_call lib) cs)
unfolding extract_anthropic_content
answer-parts lib ant text cs h = let read = answer-read lib text cs in simp (h, read.0, read.1)

-- The calls in the message of a choice.
message-calls :
    (lib : JsonLib) (text : String) (cs : List Call)
    → All (λ call. ComesBack lib call.input) cs
    → tool_call_blocks lib (
        as_array (
          get_any
            (field "role"
              (str "assistant")
              (field "content" (str text) (calls_field (map (openai_call lib) cs) no_fields)))
            "tool_calls"))
      ≡ map anthropic_call cs
unfolding get tool_call_blocks
message-calls lib text [] back = refl
message-calls lib text (c ∷ cs) back = sent-blocks lib (c ∷ cs) back

choice-back :
    (lib : JsonLib) (id : String) (ant : Fields) (text : String) (cs : List Call)
    → get ant "content" ≡ some (array (answer text cs))
    → All (λ call. ComesBack lib call.input) cs
    → extract_oai_choice lib (chat_response lib id ant)
      ≡ (or_no_content (answer text cs), map_anthropic_stop_reason (get_string ant "stop_reason"))
unfolding chat_response extract_oai_choice get to_list of_list
choice-back lib id ant text cs h back =
    simp (get-field_if, answer-parts lib ant text cs h, message-calls lib text cs back)

-- The reasons to stop that both protocols know.
pub data Known : String → Type 0 where
  end_turn : Known "end_turn"
  max_tokens : Known "max_tokens"
  tool_use : Known "tool_use"

reason-back :
    (reason : String)
    → Known reason
    → map_oai_finish_reason (map_anthropic_stop_reason reason) ≡ reason
unfolding map_oai_finish_reason map_anthropic_stop_reason
reason-back _ end_turn = refl
reason-back _ max_tokens = refl
reason-back _ tool_use = refl

-- The counts of tokens, as numbers.
abbrev pub counts : Fields → Json
counts usage = obj (
    field "input_tokens" (int_json (json_num (get_any usage "input_tokens")))
      (field "output_tokens" (int_json (json_num (get_any usage "output_tokens"))) no_fields))

usage-back :
    (lib : JsonLib) (id back_id model : String) (ant usage : Fields)
    → get ant "usage" ≡ some (obj usage)
    → get (message_body lib back_id model (chat_response lib id ant)) "usage" ≡ some (counts usage)
unfolding message_body chat_response get json_num
usage-back lib id back_id model ant usage used = simp (get-field_if, used)

-- An Anthropic answer with a text and tool calls, whose arguments come back from their encoding, keeps
-- its content when `AnthropicMessageToOpenAIChatResponse` translates it and
-- `OpenAIChatResponseToAnthropicMessage` translates the result; an answer with no content gets an empty
-- text block. A reason to stop that both protocols know and the counts of tokens are kept, too.
pub message_body-chat_response :
    (lib : JsonLib) (id back_id model : String) (ant usage : Fields) (text reason : String)
    (cs : List Call)
    → get ant "content" ≡ some (array (answer text cs))
    → get ant "stop_reason" ≡ some (str reason)
    → get ant "usage" ≡ some (obj usage)
    → Known reason
    → All (λ call. ComesBack lib call.input) cs
    → let back = message_body lib back_id model (chat_response lib id ant) in
      (get back "content" ≡ some (array (or_no_content (answer text cs))))
      × (get back "stop_reason" ≡ some (str reason))
      × (get back "usage" ≡ some (counts usage))
unfolding message_body get
message_body-chat_response lib id back_id model ant usage text reason cs content stopped used known
      back =
    let choice = choice-back lib id ant text cs content back in
    (
      simp choice,
      simp (choice, stopped, reason-back reason known),
      usage-back lib id back_id model ant usage used,
    )
