-- ===== src/Api/Translate/Request.antt =====
-- internal/api/translate/request.go: a request of one protocol as a request of the other. Maps are lists
-- of entries with different keys, in the order in which the code writes them.
pub mod Blocks
pub mod Bodies
pub mod Tools
pub mod Roles
pub mod Conversation
pub mod RoundTrip
pub mod Settings
use proxy_lm_go.Common.{
  String, ◌==◌, Bool, true, false, ◌||◌, Option, none, some, List, [], ◌∷◌, ◌++◌, map, filter_map,
  if◌then◌else◌, or_else,
}
use proxy_lm_go.Api.Json.{
  Json, null, bool, num, str, arr, obj, Fields, no_fields, field, get, get_any, get_string,
  as_string, as_array, as_object, or_empty, array, field_if, JsonLib,
}
use proxy_lm_go.Api.Translate.{
  default_max_tokens, int_json, parse_map, text_block, join_lines, append_line,
}

-- `json.Unmarshal` of the arguments, `{}` if they are no JSON.
abbrev pub or_no_input : Option Json → Json
or_no_input none = obj no_fields
or_no_input (some input) = input

abbrev pub tool_use : String → String → Json → Json
tool_use id name input = obj (
    field "type" (str "tool_use")
      (field "id" (str id) (field "name" (str name) (field "input" input no_fields))))

abbrev call_block : JsonLib → Fields → Option Fields → Option Json
call_block lib call none = none
call_block lib call (some fn) = some (
    tool_use (get_string call "id") (get_string fn "name")
      (or_no_input (lib.parse (get_string fn "arguments"))))

abbrev function_block : JsonLib → Option Fields → Option Json
function_block lib none = none
function_block lib (some call) = call_block lib call (as_object (get_any call "function"))

-- One tool call; what is no function call is passed over.
unfoldable pub tool_call_block : JsonLib → Json → Option Json
tool_call_block lib call = function_block lib (as_object call)

-- The `for` loop over the tool calls.
unfoldable pub tool_call_blocks : JsonLib → Option (List Json) → List Json
tool_call_blocks lib none = []
tool_call_blocks lib (some calls) = filter_map (tool_call_block lib) calls

-- A text that is there and not empty is one block.
abbrev pub text_blocks : Option String → List Json
text_blocks none = []
text_blocks (some text) = if text == "" then [] else text_block text ∷ []

-- `convertToolCallsToAnthropicBlocks`
unfoldable pub convert_tool_calls_to_anthropic_blocks : JsonLib → Fields → Json → List Json
convert_tool_calls_to_anthropic_blocks lib msg calls =
    text_blocks (as_string (get_any msg "content")) ++ tool_call_blocks lib (as_array calls)

-- `convertToolResultToAnthropic`
unfoldable pub convert_tool_result_to_anthropic : Fields → List Json
convert_tool_result_to_anthropic msg =
    obj (
      field "type" (str "tool_result") (
        field "tool_use_id" (str (get_string msg "tool_call_id"))
          (field "content" (str (get_string msg "content")) no_fields)))
    ∷ []

abbrev plain_content : Json → Json
plain_content null = array (text_block "" ∷ [])
plain_content content = content

abbrev content_of : JsonLib → Fields → Option Json → Json
content_of lib msg (some calls) = array (convert_tool_calls_to_anthropic_blocks lib msg calls)
content_of lib msg none = plain_content (get_any msg "content")

-- `convertOAIContentToAnthropic`
unfoldable pub convert_oai_content_to_anthropic : JsonLib → Fields → Json
convert_oai_content_to_anthropic lib msg = content_of lib msg (get msg "tool_calls")

abbrev pub message_json : String → Json → Json
message_json role content = obj (field "role" (str role) (field "content" content no_fields))

abbrev anthropic_message_of : JsonLib → Fields → String → Json
anthropic_message_of lib msg role =
    if role == "function" || role == "tool"
    then message_json "user" (array (convert_tool_result_to_anthropic msg))
    else message_json role (convert_oai_content_to_anthropic lib msg)

unfoldable pub anthropic_message : JsonLib → Json → Json
anthropic_message lib (obj msg) = anthropic_message_of lib msg (get_string msg "role")
anthropic_message lib m = m

-- `convertOAIMessagesToAnthropic`
unfoldable pub convert_oai_messages_to_anthropic : JsonLib → List Json → List Json
convert_oai_messages_to_anthropic lib = map (anthropic_message lib)

abbrev pub is_system : Json → Bool
is_system (obj msg) = get_string msg "role" == "system"
is_system _ = false

abbrev pub content_text : Json → String
content_text (obj msg) = get_string msg "content"
content_text _ = ""

-- The loop of `extractSystemMessages`: the text so far, and the messages that are left.
unfoldable pub split_system : String → List Json → String × List Json
split_system system [] = (system, [])
split_system system (m ∷ ms) =
    let extracted = split_system (append_line system (content_text m)) ms in
    let kept = split_system system ms in if is_system m then extracted else (kept.0, m ∷ kept.1)

abbrev pub extracted_of : Option (List Json) → String × List Json
extracted_of none = ("", [])
extracted_of (some ms) = split_system "" ms

-- `extractSystemMessages`
unfoldable pub extract_system_messages : Json → String × List Json
extract_system_messages msgs = extracted_of (as_array msgs)

-- `normalizeStopSequences`; nil is encoded as null.
unfoldable pub normalize_stop_sequences : Json → Json
normalize_stop_sequences (str s) = array (str s ∷ [])
normalize_stop_sequences (arr items) = arr items
normalize_stop_sequences _ = null

abbrev pub nonempty_field : String → String → Fields → Fields
nonempty_field name text rest = if text == "" then rest else field name (str text) rest

abbrev anthropic_function : Option Fields → Option Json
anthropic_function none = none
anthropic_function (some fn) = some (
    obj (
      field "name" (str (get_string fn "name")) (
        field "input_schema" (get_any fn "parameters")
          (nonempty_field "description" (get_string fn "description") no_fields))))

abbrev tool_function : Option Fields → Option Fields
tool_function none = none
tool_function (some tool) = as_object (get_any tool "function")

unfoldable pub anthropic_tool : Json → Option Json
anthropic_tool tool = anthropic_function (tool_function (as_object tool))

abbrev tools_json : (Json → Option Json) → Option (List Json) → Json
tools_json convert none = null
tools_json convert (some tools) = array (filter_map convert tools)

-- `convertOAIToolsToAnthropic`; nil is encoded as null.
unfoldable pub convert_oai_tools_to_anthropic : Json → Json
convert_oai_tools_to_anthropic tools = tools_json anthropic_tool (as_array tools)

abbrev schema_field : Json → Fields
schema_field null = no_fields
schema_field schema = field "parameters" schema no_fields

abbrev function_json : Fields → Json
function_json tool = obj (
    field "type" (str "function") (
      field "function"
        (obj (
          field "name" (str (get_string tool "name")) (
            nonempty_field "description" (get_string tool "description")
              (schema_field (get_any tool "input_schema")))))
        no_fields))

unfoldable pub openai_tool : Json → Option Json
openai_tool (obj tool) = some (function_json tool)
openai_tool _ = none

-- `convertAnthropicToolsToOAI`
unfoldable pub convert_anthropic_tools_to_oai : Json → Json
convert_anthropic_tools_to_oai tools = tools_json openai_tool (as_array tools)
