-- ===== src/Api/Translate/Response.antt =====
-- internal/api/translate/response.go: an answer of one protocol as an answer of the other. `randomID` is
-- a parameter: the ID that it returns.
pub mod Answers
use proxy_lm_go.Common.{ℤ, pos, ◌+ℤ◌, String, ◌==◌, Option, none, some, List, [], ◌∷◌, ◌++◌}
use proxy_lm_go.Api.Json.{
  Json, null, str, obj, Fields, no_fields, field, field_if, get_any, get_string, as_string,
  as_array, as_object, array, JsonLib,
}
use proxy_lm_go.Api.Translate.{
  map_oai_finish_reason, map_anthropic_stop_reason, json_num, int_json, parse_map, text_block,
  join_lines,
}
use proxy_lm_go.Api.Translate.Request.{text_blocks, tool_call_blocks}
use proxy_lm_go.Api.Translate.Request.Blocks.{
  Parts, text, call, result, skipped, Block, read_block, read_blocks,
}
use proxy_lm_go.Api.Translate.Request.Bodies.{printed}

-- One empty text block.
abbrev pub no_content : List Json
no_content = text_block "" ∷ []

abbrev pub or_no_content : List Json → List Json
or_no_content [] = no_content
or_no_content (b ∷ bs) = b ∷ bs

abbrev message_content : JsonLib → Option Fields → List Json
message_content lib none = no_content
message_content lib (some message) = or_no_content (
    text_blocks (as_string (get_any message "content"))
    ++ tool_call_blocks lib (as_array (get_any message "tool_calls")))

abbrev choice_parts : JsonLib → Option Fields → List Json × String
choice_parts lib none = (no_content, "")
choice_parts lib (some choice) =
    (message_content lib (as_object (get_any choice "message")), get_string choice "finish_reason")

abbrev pub first_choice : Option (List Json) → Option Fields
first_choice (some (c ∷ cs)) = as_object c
first_choice _ = none

-- `extractOAIChoice`
unfoldable pub extract_oai_choice : JsonLib → Fields → List Json × String
extract_oai_choice lib oai = choice_parts lib (first_choice (as_array (get_any oai "choices")))

abbrev model_or : String → Option String → String
model_or model none = model
model_or model (some m) = m

abbrev pub anthropic_usage : Option Fields → Option Json
anthropic_usage none = none
anthropic_usage (some usage) = some (
    obj (
      field "input_tokens" (int_json (json_num (get_any usage "prompt_tokens"))) (
        field "output_tokens" (int_json (json_num (get_any usage "completion_tokens"))) no_fields)))

-- The map that `OpenAIChatResponseToAnthropicMessage` makes.
unfoldable pub message_body : JsonLib → String → String → Fields → Fields
message_body lib id model oai =
    let choice = extract_oai_choice lib oai in
    field "id" (str id) (
      field "type" (str "message") (
        field "role" (str "assistant") (
          field "model" (str (model_or model (as_string (get_any oai "model")))) (
            field "content" (array choice.0) (
              field "stop_reason" (str (map_oai_finish_reason choice.1)) (
                field "stop_sequence" null (
                  field_if "usage" (anthropic_usage (as_object (get_any oai "usage")))
                    no_fields)))))))

-- `OpenAIChatResponseToAnthropicMessage`; none is the error of the decoder.
unfoldable pub openai_chat_response_to_anthropic_message :
    JsonLib → String → String → String → Option String
openai_chat_response_to_anthropic_message lib id body model =
    printed lib (message_body lib id model) (parse_map lib body)

abbrev content_parts : JsonLib → Option (List Json) → String × List Json
content_parts lib none = ("", [])
content_parts lib (some blocks) =
    let parts = read_blocks lib blocks in (join_lines parts.text_parts, parts.tool_calls)

-- `extractAnthropicContent`: its loop handles texts and calls as the one of requests does, and passes
-- over the results.
unfoldable pub extract_anthropic_content : JsonLib → Fields → String × List Json
extract_anthropic_content lib ant = content_parts lib (as_array (get_any ant "content"))

abbrev pub calls_field : List Json → Fields → Fields
calls_field [] rest = rest
calls_field (c ∷ cs) rest = field "tool_calls" (array (c ∷ cs)) rest

abbrev pub openai_usage : Option Fields → Option Json
openai_usage none = none
openai_usage (some usage) =
    let prompt = json_num (get_any usage "input_tokens") in
    let output = json_num (get_any usage "output_tokens") in
    some (
      obj (
        field "prompt_tokens" (int_json prompt) (
          field "completion_tokens" (int_json output)
            (field "total_tokens" (int_json (prompt +ℤ output)) no_fields))))

abbrev string_json : Option String → Option Json
string_json none = none
string_json (some s) = some (str s)

-- The map that `AnthropicMessageToOpenAIChatResponse` makes.
unfoldable pub chat_response : JsonLib → String → Fields → Fields
chat_response lib id ant =
    let content = extract_anthropic_content lib ant in
    field "id" (str id) (
      field "object" (str "chat.completion") (
        field "created" (int_json (pos 0)) (
          field_if "model" (string_json (as_string (get_any ant "model"))) (
            field "choices"
              (array (
                obj (
                  field "index" (int_json (pos 0)) (
                    field "message"
                      (obj (
                        field "role" (str "assistant")
                          (field "content" (str content.0) (calls_field content.1 no_fields))))
                      (field "finish_reason"
                        (str (map_anthropic_stop_reason (get_string ant "stop_reason")))
                        no_fields)))
                ∷ []))
              (field_if "usage" (openai_usage (as_object (get_any ant "usage"))) no_fields)))))

-- `AnthropicMessageToOpenAIChatResponse`
unfoldable pub anthropic_message_to_openai_chat_response : JsonLib → String → String → Option String
anthropic_message_to_openai_chat_response lib id body =
    printed lib (chat_response lib id) (parse_map lib body)
