-- ===== src/Api/Translate/Request/Blocks.antt =====
-- internal/api/translate/request.go: the content blocks of an Anthropic message as OpenAI messages.
use proxy_lm_go.Common.{String, ◌==◌, Option, none, some, List, [], ◌∷◌, ◌++◌, if◌then◌else◌}
use proxy_lm_go.Api.Json.{
  Json, str, arr, obj, Fields, no_fields, field, to_list, get_any, get_string, as_array, array,
  JsonLib,
}
use proxy_lm_go.Api.Translate.{join_lines}
use proxy_lm_go.Api.Translate.Request.{message_json}

abbrev pub tool_call : String → String → String → Json
tool_call id name arguments = obj (
    field "id" (str id) (
      field "type" (str "function") (
        field "function"
          (obj (field "name" (str name) (field "arguments" (str arguments) no_fields))) no_fields)))

abbrev pub tool_message : String → String → Json
tool_message id content = obj (
    field "role" (str "tool")
      (field "tool_call_id" (str id) (field "content" (str content) no_fields)))

-- What the loop appends for a block, and to which list.
pub data Block : Type 0 where
  text : String → Block
  call : Json → Block
  result : Json → Block
  skipped : Block

abbrev block_of : JsonLib → Fields → String → Block
block_of lib block btype =
    if btype == "text"
    then text (get_string block "text")
    else if btype == "tool_use"
    then call (
        tool_call (get_string block "id") (get_string block "name")
          (lib.print (get_any block "input")))
    else if btype == "tool_result"
    then result (tool_message (get_string block "tool_use_id") (get_string block "content"))
    else skipped

unfoldable pub read_block : JsonLib → Json → Block
read_block lib (obj block) = block_of lib block (get_string block "type")
read_block lib _ = skipped

-- `textParts`, `toolCalls` and `toolResults`
pub record Parts : Type 0 where
  pub text_parts : List String
  pub tool_calls : List Json
  pub tool_results : List Json

abbrev pub no_parts : Parts
no_parts = record { text_parts = []; tool_calls = []; tool_results = [] }

abbrev pub add_block : Block → Parts → Parts
add_block (text s) p = record p { text_parts = s ∷ p.text_parts }
add_block (call c) p = record p { tool_calls = c ∷ p.tool_calls }
add_block (result r) p = record p { tool_results = r ∷ p.tool_results }
add_block skipped p = p

-- The loop over the blocks; what it appends stands in front of what the later blocks append.
unfoldable pub read_blocks : JsonLib → List Json → Parts
read_blocks lib [] = no_parts
read_blocks lib (b ∷ bs) = add_block (read_block lib b) (read_blocks lib bs)

abbrev content_field : List String → Fields → Fields
content_field [] rest = rest
content_field (p ∷ ps) rest = field "content" (str (join_lines (p ∷ ps))) rest

abbrev text_message : String → List String → List Json
text_message role [] = []
text_message role (p ∷ ps) = message_json role (str (join_lines (p ∷ ps))) ∷ []

abbrev pub first_message : String → List String → List Json → List Json
first_message role texts [] = text_message role texts
first_message role texts (c ∷ cs) =
    obj (
      field "role" (str role) (content_field texts (field "tool_calls" (array (c ∷ cs)) no_fields)))
    ∷ []

-- `convertAnthropicBlocksToOAI`
unfoldable pub convert_anthropic_blocks_to_oai : JsonLib → String → List Json → List Json
convert_anthropic_blocks_to_oai lib role blocks =
    let parts = read_blocks lib blocks in
    first_message role parts.text_parts parts.tool_calls ++ parts.tool_results

abbrev openai_messages_of : JsonLib → String → Json → List Json
openai_messages_of lib role (arr blocks) = convert_anthropic_blocks_to_oai lib role (to_list blocks)
openai_messages_of lib role content = message_json role content ∷ []

unfoldable pub openai_messages : JsonLib → Json → List Json
openai_messages lib (obj msg) =
    openai_messages_of lib (get_string msg "role") (get_any msg "content")
openai_messages lib m = m ∷ []

unfoldable pub convert_all : JsonLib → List Json → List Json
convert_all lib [] = []
convert_all lib (m ∷ ms) = openai_messages lib m ++ convert_all lib ms

abbrev converted_of : JsonLib → Option (List Json) → List Json
converted_of lib none = []
converted_of lib (some ms) = convert_all lib ms

-- `convertAnthropicMessagesToOAI`
unfoldable pub convert_anthropic_messages_to_oai : JsonLib → Json → List Json
convert_anthropic_messages_to_oai lib msgs = converted_of lib (as_array msgs)
