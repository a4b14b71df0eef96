-- ===== src/Api/Translate/Request/Bodies.antt =====
-- internal/api/translate/request.go: the two functions that translate the body of a request.
use proxy_lm_go.Common.{
  String, ◌==◌, Option, none, some, List, [], ◌∷◌, ◌++◌, filter_map, if◌then◌else◌, or_else,
}
use proxy_lm_go.Api.Json.{
  Json, str, arr, obj, Fields, no_fields, field, to_list, get, get_any, as_string, array, field_if,
  JsonLib,
}
use proxy_lm_go.Api.Translate.{default_max_tokens, int_json, parse_map, join_lines}
use proxy_lm_go.Api.Translate.Request.{
  message_json, convert_oai_messages_to_anthropic, extract_system_messages,
  normalize_stop_sequences, convert_oai_tools_to_anthropic, convert_anthropic_tools_to_oai,
}
use proxy_lm_go.Api.Translate.Request.Blocks.{convert_anthropic_messages_to_oai}

abbrev or_default : Option Json → Json
or_default none = int_json default_max_tokens
or_default (some v) = v

unfoldable pub max_tokens : Fields → Json
max_tokens oai = or_default (or_else (get oai "max_tokens") (get oai "max_completion_tokens"))

abbrev pub mapped : (Json → Json) → Option Json → Option Json
mapped f none = none
mapped f (some v) = some (f v)

abbrev system_field : String → Fields → Fields
system_field system rest = if system == "" then rest else field "system" (str system) rest

abbrev pub anthropic_messages_field : JsonLib → Option Json → Fields → Fields
anthropic_messages_field lib none rest = rest
anthropic_messages_field lib (some msgs) rest =
    let extracted = extract_system_messages msgs in
    system_field extracted.0
      (field "messages" (array (convert_oai_messages_to_anthropic lib extracted.1)) rest)

abbrev user_metadata : Json → Json
user_metadata v = obj (field "user_id" v no_fields)

-- The map that `OpenAIChatToAnthropicMessages` makes.
unfoldable pub messages_body : JsonLib → Fields → Fields
messages_body lib oai = field_if "model" (get oai "model") (
    field "max_tokens" (max_tokens oai) (
      field_if "stream" (get oai "stream") (
        field_if "temperature" (get oai "temperature") (
          field_if "top_p" (get oai "top_p") (
            field_if "stop_sequences" (mapped normalize_stop_sequences (get oai "stop")) (
              anthropic_messages_field lib (get oai "messages") (
                field_if "tools" (mapped convert_oai_tools_to_anthropic (get oai "tools"))
                  (field_if "metadata" (mapped user_metadata (get oai "user")) no_fields))))))))

abbrev pub printed : JsonLib → (Fields → Fields) → Option Fields → Option String
printed lib translate none = none
printed lib translate (some m) = some (lib.print (obj (translate m)))

-- `OpenAIChatToAnthropicMessages`; none is the error of the decoder. The map has an encoding.
unfoldable pub openai_chat_to_anthropic_messages : JsonLib → String → Option String
openai_chat_to_anthropic_messages lib body = printed lib (messages_body lib) (parse_map lib body)

abbrev text_field : Json → Option String
text_field (obj m) = as_string (get_any m "text")
text_field _ = none

-- `flattenSystem`; `sprint` is `fmt.Sprintf("%v", …)`, which is a parameter.
unfoldable pub flatten_system : (Json → String) → Json → String
flatten_system sprint (str s) = s
flatten_system sprint (arr blocks) = join_lines (filter_map text_field (to_list blocks))
flatten_system sprint sys = sprint sys

abbrev pub system_message : String → List Json
system_message text = if text == "" then [] else message_json "system" (str text) ∷ []

abbrev pub system_messages : (Json → String) → Option Json → List Json
system_messages sprint none = []
system_messages sprint (some sys) = system_message (flatten_system sprint sys)

abbrev openai_messages_field : JsonLib → Option Json → List Json
openai_messages_field lib none = []
openai_messages_field lib (some msgs) = convert_anthropic_messages_to_oai lib msgs

-- The map that `AnthropicMessagesToOpenAIChat` makes.
unfoldable pub chat_body : (Json → String) → JsonLib → Fields → Fields
chat_body sprint lib ant = field_if "model" (get ant "model") (
    field_if "max_tokens" (get ant "max_tokens") (
      field_if "stream" (get ant "stream") (
        field_if "temperature" (get ant "temperature") (
          field_if "top_p" (get ant "top_p") (
            field_if "stop" (get ant "stop_sequences") (
              field "messages"
                (array (
                  system_messages sprint (get ant "system")
                  ++ openai_messages_field lib (get ant "messages")))
                (field_if "tools" (mapped convert_anthropic_tools_to_oai (get ant "tools"))
                  no_fields)))))))

-- `AnthropicMessagesToOpenAIChat`
unfoldable pub anthropic_messages_to_openai_chat :
    (Json → String) → JsonLib → String → Option String
anthropic_messages_to_openai_chat sprint lib body =
    printed lib (chat_body sprint lib) (parse_map lib body)
