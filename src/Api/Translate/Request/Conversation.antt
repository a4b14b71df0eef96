-- ===== src/Api/Translate/Request/Conversation.antt =====
-- internal/api/translate/request.go: the turns of a conversation as messages of both protocols.
use proxy_lm_go.Common.{
  String, ◌==◌, ◌≡◌, refl, ap, ◌∙◌, inl, inr, Bool-cases, some, List, [], ◌∷◌, ◌++◌, map,
  filter_map, All,
}
use proxy_lm_go.Api.Json.{
  Json, str, obj, no_fields, field, get, of_list, to_list, to_list-of_list, array, JsonLib,
  ComesBack,
}
use proxy_lm_go.Api.Translate.{text_block, join_lines}
use proxy_lm_go.Api.Translate.Request.{
  nonempty_field, text_blocks, tool_use, tool_call_block, tool_call_blocks,
  convert_tool_calls_to_anthropic_blocks, convert_tool_result_to_anthropic,
  convert_oai_content_to_anthropic, message_json, anthropic_message,
  convert_oai_messages_to_anthropic,
}
use proxy_lm_go.Api.Translate.Request.Blocks.{
  tool_call, tool_message, read_block, Block, first_message, Parts, add_block, read_blocks,
  convert_anthropic_blocks_to_oai, openai_messages, convert_all,
}

-- A call of a tool, by its decoded arguments.
pub record Call : Type 0 where
  pub id : String
  pub name : String
  pub input : Json

-- What a client says in a conversation; an empty text beside tool calls is none.
pub data Turn : Type 0 where
  user : String → Turn
  assistant : String → Turn
  calling : String → Call → List Call → Turn
  answered : String → String → Turn

abbrev pub openai_call : JsonLib → Call → Json
openai_call lib c = tool_call c.id c.name (lib.print c.input)

abbrev pub anthropic_call : Call → Json
anthropic_call c = tool_use c.id c.name c.input

abbrev pub openai_turn : JsonLib → Turn → Json
openai_turn lib (user text) = message_json "user" (str text)
openai_turn lib (assistant text) = message_json "assistant" (str text)
openai_turn lib (calling text c cs) = obj (
    field "role" (str "assistant") (
      nonempty_field "content" text
        (field "tool_calls" (array (map (openai_call lib) (c ∷ cs))) no_fields)))
openai_turn lib (answered id text) = tool_message id text

-- The arguments of the calls come back from their encoding.
abbrev pub Decodes : JsonLib → Turn → Type 0
Decodes lib (calling text c cs) = All (λ call. ComesBack lib call.input) (c ∷ cs)
Decodes lib _ = Unit

call-block :
    (lib : JsonLib) (c : Call)
    → ComesBack lib c.input
    → tool_call_block lib (openai_call lib c) ≡ some (anthropic_call c)
unfolding tool_call_block get
call-block lib c back = simp back

calls-blocks :
    (lib : JsonLib) (cs : List Call)
    → All (λ call. ComesBack lib call.input) cs
    → filter_map (tool_call_block lib) (map (openai_call lib) cs) ≡ map anthropic_call cs
unfolding filter_map
calls-blocks lib [] back = refl
calls-blocks lib (c ∷ cs) back =
    rw (call-block lib c back.0) (ap (◌∷◌ (anthropic_call c)) (calls-blocks lib cs back.1))

pub sent-blocks :
    (lib : JsonLib) (cs : List Call)
    → All (λ call. ComesBack lib call.input) cs
    → tool_call_blocks lib (some (to_list (of_list (map (openai_call lib) cs))))
      ≡ map anthropic_call cs
unfolding tool_call_blocks
sent-blocks lib cs back =
    ap (filter_map (tool_call_block lib)) (to_list-of_list (map (openai_call lib) cs))
    ∙ calls-blocks lib cs back

-- Calls leave the other parts alone.
pub calls-parts :
    (lib : JsonLib) (cs : List Call)
    → read_blocks lib (map anthropic_call cs)
      ≡ record { text_parts = []; tool_calls = map (openai_call lib) cs; tool_results = [] }
unfolding read_blocks read_block get
calls-parts lib [] = refl
calls-parts lib (c ∷ cs) = ap (add_block (read_block lib (anthropic_call c))) (calls-parts lib cs)

abbrev anthropic_turn : JsonLib → Turn → Json
anthropic_turn lib (user text) = message_json "user" (str text)
anthropic_turn lib (assistant text) = message_json "assistant" (str text)
anthropic_turn lib (calling text c cs) =
    message_json "assistant" (array (text_blocks (some text) ++ map anthropic_call (c ∷ cs)))
anthropic_turn lib (answered id text) = message_json "user" (
    array (
      convert_tool_result_to_anthropic (
        field "role" (str "tool")
          (field "tool_call_id" (str id) (field "content" (str text) no_fields)))))

turn-message :
    (lib : JsonLib) (t : Turn)
    → Decodes lib t
    → anthropic_message lib (openai_turn lib t) ≡ anthropic_turn lib t
unfolding anthropic_message convert_oai_content_to_anthropic convert_tool_calls_to_anthropic_blocks
    get
turn-message lib (user text) d = refl
turn-message lib (assistant text) d = refl
turn-message lib (calling text c cs) d =
    let sent = sent-blocks lib (c ∷ cs) d in
    elim (Bool-cases (text == "")) [
      | inl e ↦ rw e (ap (λ l. message_json "assistant" (array l)) sent)
      | inr e ↦ rw e (rw e (ap (λ l. message_json "assistant" (array (text_block text ∷ l))) sent))
    ]
turn-message lib (answered id text) d = refl

-- The messages of an assistant's blocks.
abbrev gathered : JsonLib → Parts → List Json
gathered lib p = first_message "assistant" p.text_parts p.tool_calls ++ p.tool_results

turn-back :
    (lib : JsonLib) (t : Turn) → openai_messages lib (anthropic_turn lib t) ≡ openai_turn lib t ∷ []
unfolding openai_messages convert_anthropic_blocks_to_oai convert_tool_result_to_anthropic
    read_blocks read_block get to_list of_list join_lines
turn-back lib (user text) = refl
turn-back lib (assistant text) = refl
turn-back lib (calling text c cs) =
    let calls = calls-parts lib (c ∷ cs) in
    let copied = to_list-of_list (map anthropic_call (c ∷ cs)) in
    elim (Bool-cases (text == "")) [
      | inl e ↦
          rw e
            (ap (convert_anthropic_blocks_to_oai lib "assistant") copied ∙ ap (gathered lib) calls)
      | inr e ↦ rw e (
          ap (λ l. convert_anthropic_blocks_to_oai lib "assistant" (text_block text ∷ l)) copied
          ∙ ap (λ p. gathered lib (add_block (Block.text text) p)) calls)
    ]
turn-back lib (answered id text) = refl

pub turns-back :
    (lib : JsonLib) (ts : List Turn)
    → All (Decodes lib) ts
    → convert_all lib (convert_oai_messages_to_anthropic lib (map (openai_turn lib) ts))
      ≡ map (openai_turn lib) ts
unfolding convert_all convert_oai_messages_to_anthropic
turns-back lib [] d = refl
turns-back lib (t ∷ ts) d =
    ap
      (λ m.
        openai_messages lib m
        ++ convert_all lib (map (anthropic_message lib) (map (openai_turn lib) ts)))
      (turn-message lib t d.0)
    ∙ ap (λ l. l ++ convert_all lib (map (anthropic_message lib) (map (openai_turn lib) ts)))
        (turn-back lib t)
    ∙ ap (◌∷◌ (openai_turn lib t)) (turns-back lib ts d.1)
