-- ===== src/Api/Translate.antt =====
-- internal/api/translate: between the OpenAI chat completions and the Anthropic messages. This file has
-- the parts that requests, responses and streams share.
pub mod Request
pub mod Response
pub mod Stream
use Prim.Native.String
use proxy_lm_go.Common.{
  ℤ, pos, String, ◌==◌, Bool, true, false, Option, none, some, List, [], ◌∷◌, ◌++◌, if◌then◌else◌,
}
use proxy_lm_go.Api.Json.{
  Json, null, num, str, obj, Number, float, int, Fields, no_fields, field, JsonLib,
}

-- `defaultMaxTokens`
abbrev pub default_max_tokens : ℤ
default_max_tokens = pos 4096

unfoldable pub map_oai_finish_reason : String → String
map_oai_finish_reason reason =
    if reason == "stop"
    then "end_turn"
    else if reason == "length"
    then "max_tokens"
    else if reason == "tool_calls"
    then "tool_use"
    else if reason == "content_filter"
    then "end_turn"
    else "end_turn"

unfoldable pub map_anthropic_stop_reason : String → String
map_anthropic_stop_reason reason =
    if reason == "end_turn"
    then "stop"
    else if reason == "max_tokens"
    then "length"
    else if reason == "tool_use"
    then "tool_calls"
    else if reason == "stop_sequence"
    then "stop"
    else "stop"

abbrev int_of : Number → ℤ
int_of (float text n) = n
int_of (int n) = n

-- `jsonNum`: no number is zero.
unfoldable pub json_num : Json → ℤ
json_num (num n) = int_of n
json_num _ = pos 0

abbrev pub int_json : ℤ → Json
int_json n = num (int n)

-- `json.Unmarshal` into a map: `null` leaves the map empty, other values are errors.
abbrev map_of : Option Json → Option Fields
map_of (some (obj m)) = some m
map_of (some null) = some no_fields
map_of _ = none

unfoldable pub parse_map : JsonLib → String → Option Fields
parse_map lib body = map_of (lib.parse body)

-- `{"type": "text", "text": …}`
abbrev pub text_block : String → Json
text_block text = obj (field "type" (str "text") (field "text" (str text) no_fields))

abbrev line_end : String
line_end = "\n"

-- `if s != "" { s += "\n" }; s += part`
abbrev pub append_line : String → String → String
append_line s part = if s == "" then part else String.◌++◌ (String.◌++◌ s line_end) part

abbrev joined : String → List String → String
joined s [] = s
joined s (p ∷ ps) = joined (String.◌++◌ (String.◌++◌ s line_end) p) ps

-- The loop that joins the parts by line ends.
unfoldable pub join_lines : List String → String
join_lines [] = ""
join_lines (p ∷ ps) = joined p ps
