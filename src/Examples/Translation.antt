-- ===== src/Examples/Translation.antt =====
-- A request, an answer and two streams, through the translation of the protocols.
use proxy_lm_go.Common.{
  pos, String, ◌==◌, ◌≡◌, refl, Option, none, some, List, [], ◌∷◌, All, if◌then◌else◌,
}
use proxy_lm_go.Api.Json.{Json, str, obj, float, num, Fields, no_fields, field, get, array, JsonLib}
use proxy_lm_go.Api.Translate.Stream.{LineLib}
use proxy_lm_go.Api.Translate.Stream.ToAnthropic.{new_oai_to_anthropic}
use proxy_lm_go.Api.Translate.Stream.ToOpenai.{new_anthropic_to_oai}
use proxy_lm_go.Api.Translate.Stream.Events.{oai_feed}
use proxy_lm_go.Api.Translate.Stream.Texts.{upstream_texts, line_texts, relay, relay-oai_feed}
use proxy_lm_go.Api.Translate.Stream.Spoken.{spoken_texts, anthropic_feed, anthropic_feed-texts}
use proxy_lm_go.Api.Translate.Request.{extract_system_messages, convert_oai_messages_to_anthropic}
use proxy_lm_go.Api.Translate.Request.Bodies.{messages_body, chat_body}
use proxy_lm_go.Api.Translate.Request.Roles.{Native, convert_messages-Native}
use proxy_lm_go.Api.Translate.Request.Conversation.{Call, Turn, user, calling, answered}
use proxy_lm_go.Api.Translate.Request.RoundTrip.{openai_messages_json, chat_body-messages}
use proxy_lm_go.Api.Translate.Request.Tools.{Tool, openai_form}
use proxy_lm_go.Api.Translate.Request.Settings.{
  TokenLimit, StopForm, Functions, functions, chat_body-fields,
}
use proxy_lm_go.Api.Translate.Response.{or_no_content, message_body, chat_response}
use proxy_lm_go.Api.Translate.Response.Answers.{
  answer, tool_use, counts, message_body-chat_response,
}

-- A chunk with a text, and an event with the same text.
abbrev hello_chunk : Json
hello_chunk = obj (
    field "choices"
      (array (obj (field "delta" (obj (field "content" (str "Hello") no_fields)) no_fields) ∷ []))
      no_fields)

abbrev hello_event : Json
hello_event = obj (
    field "delta" (obj (field "type" (str "text_delta") (field "text" (str "Hello") no_fields)))
      no_fields)

-- An encoder and a decoder for the few values of the examples.
abbrev pub table_json : JsonLib
table_json = record {
  parse = λ s.
      if s == "chunk"
      then some hello_chunk
      else if s == "event"
      then some hello_event
      else if s == "{}"
      then some (obj no_fields)
      else none;
  print = λ j. "{}";
}

abbrev prefixes : String → String → Option String
prefixes p s =
    if p == "data:"
    then if s == "data:chunk"
      then some "chunk"
      else if s == "data:event"
      then some "event"
      else if s == "data:[DONE]"
      then some "[DONE]"
      else none
    else if p == "event:"
    then if s == "event:content_block_delta" then some "content_block_delta" else none
    else none

abbrev pub table_lines : LineLib
table_lines = record { trim_space = λ s. s; cut_prefix = prefixes }

abbrev pub chunk_lines : List String
chunk_lines = "data:chunk" ∷ "" ∷ "data:[DONE]" ∷ []

abbrev pub event_lines : List String
event_lines = "event:content_block_delta" ∷ "data:event" ∷ []

relay-oai_feed_example :
    line_texts
      (relay
        (new_anthropic_to_oai "chat")
        (oai_feed table_lines table_json (new_oai_to_anthropic "m" "msg") chunk_lines).1).1
    ≡ upstream_texts table_lines table_json chunk_lines
relay-oai_feed_example =
    relay-oai_feed table_lines table_json (new_anthropic_to_oai "chat")
      (new_oai_to_anthropic "m" "msg") chunk_lines

anthropic_feed-texts_example :
    line_texts (anthropic_feed table_lines table_json (new_anthropic_to_oai "chat") event_lines).1
    ≡ spoken_texts table_lines table_json (new_anthropic_to_oai "chat").pending_event event_lines
anthropic_feed-texts_example =
    anthropic_feed-texts table_lines table_json (new_anthropic_to_oai "chat") event_lines

abbrev a_call : Call
a_call = record { id = "call1"; name = "now"; input = obj no_fields }

abbrev turns : List Turn
turns = user "What time is it?" ∷ calling "" a_call [] ∷ answered "call1" "noon" ∷ []

abbrev a_request : Fields
a_request =
    field "model" (str "m")
      (field "messages" (openai_messages_json table_json "Be brief." turns) no_fields)

abbrev no_text : Json → String
no_text j = ""

same_messages : get a_request "messages" ≡ some (openai_messages_json table_json "Be brief." turns)
unfolding get
same_messages = refl

chat_body-messages_example :
    get (chat_body no_text table_json (messages_body table_json a_request)) "messages"
    ≡ get a_request "messages"
chat_body-messages_example =
    chat_body-messages no_text table_json a_request "Be brief." turns same_messages
      (tt, ((refl, tt), (tt, tt)))

abbrev clock_tool : Tool
clock_tool = record { name = "now"; description = "The time"; parameters = no_fields }

abbrev with_settings : Fields
with_settings = field "model" (str "m") (
    field "max_completion_tokens" (num (float "64" (pos 64)))
      (field "stop" (str "END") (field "tools" (array (openai_form clock_tool ∷ [])) no_fields)))

one_tool : Functions (get with_settings "tools")
unfolding get
one_tool = functions (clock_tool ∷ [])

chat_body-fields_example :
    let back = chat_body no_text table_json (messages_body table_json with_settings) in
    (get back "model" ≡ get with_settings "model")
    × (get back "stream" ≡ get with_settings "stream")
    × (get back "temperature" ≡ get with_settings "temperature")
    × (get back "top_p" ≡ get with_settings "top_p")
    × TokenLimit with_settings (get back "max_tokens")
    × StopForm (get with_settings "stop") (get back "stop")
    × (get back "tools" ≡ get with_settings "tools")
chat_body-fields_example = chat_body-fields no_text table_json with_settings one_tool

convert_messages-Native_example : All Native (
    convert_oai_messages_to_anthropic table_json
      (extract_system_messages (openai_messages_json table_json "Be brief." turns)).1)
convert_messages-Native_example =
    convert_messages-Native table_json (openai_messages_json table_json "Be brief." turns)

abbrev some_usage : Fields
some_usage =
    field "input_tokens" (num (float "7" (pos 7)))
      (field "output_tokens" (num (float "2" (pos 2))) no_fields)

abbrev an_answer : Fields
an_answer =
    field "content" (array (answer "Let me look." (a_call ∷ [])))
      (field "stop_reason" (str "tool_use") (field "usage" (obj some_usage) no_fields))

answer_content : get an_answer "content" ≡ some (array (answer "Let me look." (a_call ∷ [])))
unfolding get
answer_content = refl

answer_reason : get an_answer "stop_reason" ≡ some (str "tool_use")
unfolding get
answer_reason = refl

answer_usage : get an_answer "usage" ≡ some (obj some_usage)
unfolding get
answer_usage = refl

message_body-chat_response_example :
    let back = message_body table_json "msg" "m" (chat_response table_json "chat" an_answer) in
    (get back "content" ≡ some (array (or_no_content (answer "Let me look." (a_call ∷ [])))))
    × (get back "stop_reason" ≡ some (str "tool_use"))
    × (get back "usage" ≡ some (counts some_usage))
message_body-chat_response_example =
    message_body-chat_response table_json "chat" "msg" "m" an_answer some_usage "Let me look."
      "tool_use" (a_call ∷ []) answer_content answer_reason answer_usage tool_use (refl, tt)
