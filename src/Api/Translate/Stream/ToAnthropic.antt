-- ===== src/Api/Translate/Stream/ToAnthropic.antt =====
-- internal/api/translate/stream.go: `oaiToAnthropicTranslator`.
use proxy_lm_go.Common.{
  ℤ, pos, String, ◌==◌, Bool, true, false, Option, none, some, List, [], ◌∷◌, ◌++◌, if◌then◌else◌,
}
use proxy_lm_go.Api.Json.{
  Json, str, obj, Fields, no_fields, field, get_any, as_string, as_array, as_object, array, JsonLib,
}
use proxy_lm_go.Api.Translate.{json_num, int_json, parse_map, text_block}
use proxy_lm_go.Api.Translate.Stream.{LineLib, trim_sse_data, SseEvent}

pub record OaiToAnthropic : Type 0 where
  pub model : String
  pub msg_id : String
  pub started : Bool
  pub block_started : Bool
  pub block_index : ℤ
  pub prompt_tok : ℤ
  pub output_tok : ℤ
  pub done : Bool

-- `randomID` is a parameter: the ID that it returns.
unfoldable pub new_oai_to_anthropic : String → String → OaiToAnthropic
new_oai_to_anthropic model id = record {
  model = model;
  msg_id = id;
  started = false;
  block_started = false;
  block_index = pos 0;
  prompt_tok = pos 0;
  output_tok = pos 0;
  done = false;
}

-- What a line is: not data or not a JSON object, the end mark, or a chunk.
pub data Upstream : Type 0 where
  skipped : Upstream
  end_mark : Upstream
  chunk : Fields → Upstream

abbrev chunk_of : Option Fields → Upstream
chunk_of none = skipped
chunk_of (some m) = chunk m

abbrev upstream_of : LineLib → JsonLib → Option String → Upstream
upstream_of lines lib none = skipped
upstream_of lines lib (some text) =
    if lines.trim_space text == "[DONE]" then end_mark else chunk_of (parse_map lib text)

unfoldable pub read_upstream : LineLib → JsonLib → String → Upstream
read_upstream lines lib line = upstream_of lines lib (trim_sse_data lines line)

abbrev counted : OaiToAnthropic → Option Fields → OaiToAnthropic
counted t none = t
counted t (some usage) = record t {
  prompt_tok = json_num (get_any usage "prompt_tokens");
  output_tok = json_num (get_any usage "completion_tokens");
}

unfoldable pub count_usage : OaiToAnthropic → Fields → OaiToAnthropic
count_usage t m = counted t (as_object (get_any m "usage"))

abbrev model_or : String → Option String → String
model_or model none = model
model_or model (some m) = m

unfoldable pub message_start : OaiToAnthropic → Fields → SseEvent
message_start t m = record {
  event = "message_start";
  payload = field "type" (str "message_start") (
      field "message"
        (obj (
          field "id" (str t.msg_id) (
            field "type" (str "message") (
              field "role" (str "assistant") (
                field "model" (str (model_or t.model (as_string (get_any m "model")))) (
                  field "content" (array []) (
                    field "usage"
                      (obj (
                        field "input_tokens" (int_json t.prompt_tok)
                          (field "output_tokens" (int_json (pos 0)) no_fields)))
                      no_fields)))))))
        no_fields);
}

unfoldable pub begin_message : OaiToAnthropic → Fields → OaiToAnthropic × List SseEvent
begin_message t m =
    if t.started then (t, []) else (record t { started = true }, message_start t m ∷ [])

abbrev first_of : Option (List Json) → Option Fields
first_of (some (c ∷ cs)) = as_object c
first_of _ = none

abbrev delta_of : Option Fields → Option Fields
delta_of none = none
delta_of (some choice) = as_object (get_any choice "delta")

abbrev text_of : Option Fields → Option String
text_of none = none
text_of (some delta) = as_string (get_any delta "content")

-- `chunk.choices[0].delta.content`, if all of it is there and is a text.
unfoldable pub delta_content : Fields → Option String
delta_content m = text_of (delta_of (first_of (as_array (get_any m "choices"))))

unfoldable pub content_block_start : ℤ → SseEvent
content_block_start index = record {
  event = "content_block_start";
  payload =
      field "type" (str "content_block_start")
        (field "index" (int_json index) (field "content_block" (text_block "") no_fields));
}

unfoldable pub content_block_delta : ℤ → String → SseEvent
content_block_delta index text = record {
  event = "content_block_delta";
  payload = field "type" (str "content_block_delta") (
      field "index" (int_json index) (
        field "delta" (obj (field "type" (str "text_delta") (field "text" (str text) no_fields)))
          no_fields));
}

-- The content block is opened by the first text, also an empty one; an empty text has no delta.
unfoldable pub emit_content : OaiToAnthropic → Option String → OaiToAnthropic × List SseEvent
emit_content t none = (t, [])
emit_content t (some text) = (
  record t { block_started = true },
  (if t.block_started then [] else content_block_start t.block_index ∷ [])
      ++ (if text == "" then [] else content_block_delta t.block_index text ∷ []),
)

unfoldable pub oai_step : OaiToAnthropic → Upstream → OaiToAnthropic × List SseEvent
oai_step t skipped = (t, [])
oai_step t end_mark = (record t { done = true }, [])
oai_step t (chunk m) =
    let begun = begin_message (count_usage t m) m in
    let emitted = emit_content begun.0 (delta_content m) in (emitted.0, begun.1 ++ emitted.1)

-- `ProcessLine`
unfoldable pub oai_process_line :
    LineLib → JsonLib → OaiToAnthropic → String → OaiToAnthropic × List SseEvent
oai_process_line lines lib t line = oai_step t (read_upstream lines lib line)

unfoldable pub content_block_stop : ℤ → SseEvent
content_block_stop index = record {
  event = "content_block_stop";
  payload = field "type" (str "content_block_stop") (field "index" (int_json index) no_fields);
}

unfoldable pub message_delta : ℤ → SseEvent
message_delta output_tok = record {
  event = "message_delta";
  payload = field "type" (str "message_delta") (
      field "delta" (obj (field "stop_reason" (str "end_turn") no_fields))
        (field "usage" (obj (field "output_tokens" (int_json output_tok) no_fields)) no_fields));
}

unfoldable pub message_stop : SseEvent
message_stop = record {
  event = "message_stop";
  payload = field "type" (str "message_stop") no_fields;
}

-- `Finish`
unfoldable pub oai_finish : OaiToAnthropic → List SseEvent
oai_finish t =
    (if t.block_started then content_block_stop t.block_index ∷ [] else [])
    ++ (message_delta t.output_tok ∷ message_stop ∷ [])
