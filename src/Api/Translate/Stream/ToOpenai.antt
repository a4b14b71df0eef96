-- ===== src/Api/Translate/Stream/ToOpenai.antt =====
-- internal/api/translate/stream.go: `anthropicToOAITranslator`.
use proxy_lm_go.Common.{
  ℤ, pos, ◌+ℤ◌, String, ◌==◌, Bool, true, false, Option, none, some, List, [], ◌∷◌, if◌then◌else◌,
}
use proxy_lm_go.Api.Json.{
  Json, null, str, obj, Fields, no_fields, field, get_any, get_string, as_string, as_object, array,
  JsonLib,
}
use proxy_lm_go.Api.Translate.{json_num, int_json, parse_map, map_anthropic_stop_reason}
use proxy_lm_go.Api.Translate.Stream.{LineLib, trim_sse_data}

pub record AnthropicToOai : Type 0 where
  pub chat_id : String
  pub model : String
  pub started : Bool
  pub prompt_tok : ℤ
  pub output_tok : ℤ
  pub done : Bool
  pub pending_event : String

-- `randomID` is a parameter: the ID that it returns.
unfoldable pub new_anthropic_to_oai : String → AnthropicToOai
new_anthropic_to_oai id = record {
  chat_id = id;
  model = "";
  started = false;
  prompt_tok = pos 0;
  output_tok = pos 0;
  done = false;
  pending_event = "";
}

-- A line for the client: `data: <chunk>`, or the end mark of a stream.
pub data OaiLine : Type 0 where
  chunk_line : Json → OaiLine
  done_line : OaiLine

-- `oaiFinish`
pub record OaiFinish : Type 0 where
  pub reason : String
  pub usage : Fields

abbrev finish_reason : Option OaiFinish → Json
finish_reason none = null
finish_reason (some f) = str f.reason

abbrev with_usage : Option OaiFinish → Fields → Fields
with_usage none m = m
with_usage (some f) m = field "usage" (obj f.usage) m

-- `makeOAIChunk`; a missing delta is an empty object.
unfoldable pub make_oai_chunk : AnthropicToOai → Fields → Option OaiFinish → OaiLine
make_oai_chunk t delta finish = chunk_line (
    obj (
      field "id" (str t.chat_id) (
        field "object" (str "chat.completion.chunk") (
          field "created" (int_json (pos 0)) (
            field "model" (str t.model) (
              with_usage finish (
                field "choices"
                  (array (
                    obj (
                      field "index" (int_json (pos 0)) (
                        field "delta" (obj delta)
                          (field "finish_reason" (finish_reason finish) no_fields)))
                    ∷ []))
                  no_fields)))))))

abbrev pub with_model : AnthropicToOai → Option String → AnthropicToOai
with_model t none = t
with_model t (some m) = record t { model = m }

abbrev pub with_prompt : AnthropicToOai → Option Fields → AnthropicToOai
with_prompt t none = t
with_prompt t (some u) = record t { prompt_tok = json_num (get_any u "input_tokens") }

abbrev pub read_message : AnthropicToOai → Option Fields → AnthropicToOai
read_message t none = t
read_message t (some msg) =
    with_prompt (with_model t (as_string (get_any msg "model"))) (as_object (get_any msg "usage"))

abbrev pub open_message : AnthropicToOai → AnthropicToOai × List OaiLine
open_message t = if t.started then (t, []) else (
  record t { started = true },
  make_oai_chunk (record t { started = true }) (field "role" (str "assistant") no_fields) none ∷ [],
)

-- The text of a `text_delta`, which may be empty; other deltas have none.
abbrev pub delta_text : Option Fields → String
delta_text none = ""
delta_text (some delta) =
    if get_string delta "type" == "text_delta" then get_string delta "text" else ""

abbrev pub with_output : AnthropicToOai → Option Fields → AnthropicToOai
with_output t none = t
with_output t (some u) = record t { output_tok = json_num (get_any u "output_tokens") }

abbrev stop_reason : Option Fields → String
stop_reason none = ""
stop_reason (some delta) = get_string delta "stop_reason"

abbrev finish_of : AnthropicToOai → String → OaiFinish
finish_of t reason = record {
  reason = map_anthropic_stop_reason reason;
  usage = field "prompt_tokens" (int_json t.prompt_tok) (
      field "completion_tokens" (int_json t.output_tok)
        (field "total_tokens" (int_json (t.prompt_tok +ℤ t.output_tok)) no_fields));
}

unfoldable pub on_message_start : AnthropicToOai → Fields → AnthropicToOai × List OaiLine
on_message_start t payload = open_message (read_message t (as_object (get_any payload "message")))

unfoldable pub on_block_delta : AnthropicToOai → Fields → AnthropicToOai × List OaiLine
on_block_delta t payload =
    let text = delta_text (as_object (get_any payload "delta")) in
    (
      t,
      if text == "" then [] else make_oai_chunk t (field "content" (str text) no_fields) none ∷ [],
    )

unfoldable pub on_message_delta : AnthropicToOai → Fields → AnthropicToOai × List OaiLine
on_message_delta t payload =
    let t' = with_output t (as_object (get_any payload "usage")) in
    (
      t',
      make_oai_chunk t' no_fields
            (some (finish_of t' (stop_reason (as_object (get_any payload "delta")))))
          ∷ [],
    )

-- The `switch` on the event.
unfoldable pub anthropic_event : AnthropicToOai → String → Fields → AnthropicToOai × List OaiLine
unfolding on_message_start on_block_delta on_message_delta
anthropic_event t event payload =
    if event == "message_start"
    then on_message_start t payload
    else if event == "content_block_delta"
    then on_block_delta t payload
    else if event == "message_delta"
    then on_message_delta t payload
    else if event == "message_stop"
    then (record t { done = true }, done_line ∷ [])
    else (t, [])

-- What a line is: the name of an event, data, or neither.
pub data AnthropicLine : Type 0 where
  ignored : AnthropicLine
  named : String → AnthropicLine
  payload_text : String → AnthropicLine

abbrev payload_of : Option String → AnthropicLine
payload_of none = ignored
payload_of (some text) = payload_text text

abbrev anthropic_line : LineLib → String → Option String → AnthropicLine
anthropic_line lines line (some name) = named (lines.trim_space name)
anthropic_line lines line none = payload_of (trim_sse_data lines line)

unfoldable pub read_anthropic : LineLib → String → AnthropicLine
read_anthropic lines line =
    anthropic_line lines line (lines.cut_prefix "event:" (lines.trim_space line))

abbrev pub on_payload : AnthropicToOai → String → Option Fields → AnthropicToOai × List OaiLine
on_payload t event none = (t, [])
on_payload t event (some payload) = anthropic_event t event payload

unfoldable pub anthropic_step :
    JsonLib → AnthropicToOai → AnthropicLine → AnthropicToOai × List OaiLine
anthropic_step lib t ignored = (t, [])
anthropic_step lib t (named event) = (record t { pending_event = event }, [])
anthropic_step lib t (payload_text text) =
    on_payload (record t { pending_event = "" }) t.pending_event (parse_map lib text)

-- `ProcessLine`
unfoldable pub anthropic_process_line :
    LineLib → JsonLib → AnthropicToOai → String → AnthropicToOai × List OaiLine
anthropic_process_line lines lib t line = anthropic_step lib t (read_anthropic lines line)

-- `Finish`
unfoldable pub anthropic_finish : AnthropicToOai → List OaiLine
anthropic_finish t = if t.done then [] else done_line ∷ []
