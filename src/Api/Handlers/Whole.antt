-- ===== src/Api/Handlers/Whole.antt =====
-- internal/api/routes_openai.go and routes_anthropic.go, `runNonStream`: one request to a backend whose
-- answer is copied as a whole. Logging is left out.
use proxy_lm_go.Common.{ℕ, ℤ, length, String, ◌==◌, true, Option, none, some, if◌then◌else◌}
use proxy_lm_go.Core.Models.{Err, message, wrapped, ServerInfo, current_model_string}
use proxy_lm_go.Api.Json.{Json, JsonLib}
use proxy_lm_go.Api.Translate.Request.Bodies.{
  openai_chat_to_anthropic_messages, anthropic_messages_to_openai_chat,
}
use proxy_lm_go.Api.Translate.Response.{
  openai_chat_response_to_anthropic_message, anthropic_message_to_openai_chat_response,
}
use proxy_lm_go.Api.Handlers.{
  Header, Client, write_header, put, World, Response, Reply, refused, response, Format, is_2xx,
  failed_with, failed_status, Usage, stream_result, set_header, is_openai_protocol, Run,
}
use proxy_lm_go.Api.Handlers.Headers.{copy_headers}

-- What the handlers use of other packages: `encoding/json`, `fmt`, the canonical keys of net/http, the
-- usage that `peekUsage` and `PeekAnthropicUsage` decode, and the ID that `randomID` returns.
pub record Libs : Type 0 where
  pub json : JsonLib
  pub sprint : Json → String
  pub format : Format
  pub canonical : String → String
  pub peek_usage : String → Usage
  pub peek_anthropic_usage : String → Usage
  pub random_id : String

-- The backend client of a server: its answer to a path and a body.
abbrev pub Backend : Type 0
Backend = String → String → Reply

-- A request that is ready for the backend, or the error before it is sent.
pub data Prepared : Type 0 where
  unsendable : Err → Prepared
  ready : String → String → Prepared

abbrev translated_request : String → Option String → Prepared
translated_request path none =
    unsendable (wrapped "translate request" (message "translate: invalid JSON"))
translated_request path (some body) = ready path body

-- The part of the OpenAI handler before `Forward`.
unfoldable pub prepare_openai : Libs → String → ServerInfo → String → Prepared
prepare_openai libs endpoint srv body =
    if is_openai_protocol srv
    then ready endpoint body
    else if endpoint == "/v1/chat/completions"
    then translated_request "/v1/messages" (openai_chat_to_anthropic_messages libs.json body)
    else unsendable (message (libs.format.unsupported_endpoint endpoint srv.name))

-- The part of the Anthropic handler before `Forward`.
unfoldable pub prepare_anthropic : Libs → ServerInfo → String → Prepared
prepare_anthropic libs srv body =
    if is_openai_protocol srv
    then translated_request "/v1/chat/completions"
        (anthropic_messages_to_openai_chat libs.sprint libs.json body)
    else ready "/v1/messages" body

-- The body for the client, and its usage; none is an error of the translation.
unfoldable pub openai_answer : Libs → ServerInfo → String → Usage × Option String
openai_answer libs srv body =
    if is_openai_protocol srv then (libs.peek_usage body, some body) else (
      libs.peek_anthropic_usage body,
      anthropic_message_to_openai_chat_response libs.json libs.random_id body,
    )

unfoldable pub anthropic_answer : Libs → ServerInfo → String → Usage × Option String
anthropic_answer libs srv body =
    if is_openai_protocol srv
    then (
      libs.peek_usage body,
      openai_chat_response_to_anthropic_message libs.json libs.random_id body
          (current_model_string srv),
    )
    else (libs.peek_anthropic_usage body, some body)

-- The headers of the two handlers.
unfoldable pub openai_header : Libs → Header → Response → Header
openai_header libs h resp = copy_headers libs.canonical h resp.header

unfoldable pub anthropic_header : Libs → Header → Response → Header
anthropic_header libs h resp = set_header h "Content-Type" "application/json"

-- The write of the answer; `n` is the number of the writes before it.
abbrev pub write_answer : Client → ℕ → Usage → String → Option Err → Run
write_answer w status usage body none = record {
  client = put w body;
  result = stream_result none status true usage (ℤ.pos 0);
}
write_answer w status usage body (some e) = record {
  client = w;
  result = stream_result (some (wrapped "write to client" e)) status true usage (ℤ.pos 0);
}

abbrev pub give_answer :
    World → (Header → Response → Header) → Client → Response → Usage × Option String → Run
give_answer world header w resp (usage, none) = record {
  client = w;
  result =
      failed_status (wrapped "translate response" (message "translate response: invalid JSON"))
        resp.status;
}
give_answer world header w resp (usage, some body) =
    write_answer (write_header (record w { header = header w.header resp }) resp.status) resp.status
      usage body (world.write_error (length w.written))

abbrev pub read_answer :
    World
    → (Header → Response → Header)
    → (String → Usage × Option String)
    → Format
    → String
    → Client
    → Response
    → Option Err
    → Run
read_answer world header answer format name w resp (some e) = record {
  client = w;
  result = failed_status (wrapped "read upstream body" e) resp.status;
}
read_answer world header answer format name w resp none =
    if is_2xx resp.status then give_answer world header w resp (answer resp.body) else record {
      client = w;
      result = failed_status (message (format.upstream_status name resp.status)) resp.status;
    }

abbrev pub on_reply :
    World
    → (Header → Response → Header)
    → (String → Usage × Option String)
    → Format
    → String
    → Client
    → Reply
    → Run
on_reply world header answer format name w (refused e) = record {
  client = w;
  result = failed_with e;
}
on_reply world header answer format name w (response resp) =
    read_answer world header answer format name w resp resp.read_error

abbrev pub forward_whole :
    World
    → (Header → Response → Header)
    → (String → Usage × Option String)
    → Format
    → String
    → Client
    → Backend
    → Prepared
    → Run
forward_whole world header answer format name w backend (unsendable e) = record {
  client = w;
  result = failed_with e;
}
forward_whole world header answer format name w backend (ready path body) =
    on_reply world header answer format name w (backend path body)

-- No backend is registered under the server's name.
abbrev pub unregistered : Libs → ServerInfo → Client → Run
unregistered libs srv w = record {
  client = w;
  result = failed_with (message (libs.format.no_backend srv.name));
}

-- `proxyHandler.runNonStream`
unfoldable pub run_non_stream_openai :
    Libs → World → String → Option Backend → ServerInfo → String → Client → Run
run_non_stream_openai libs world endpoint none srv body w = unregistered libs srv w
run_non_stream_openai libs world endpoint (some backend) srv body w =
    forward_whole world (openai_header libs) (openai_answer libs srv) libs.format srv.name w backend
      (prepare_openai libs endpoint srv body)

-- `anthropicHandler.runNonStream`
unfoldable pub run_non_stream_anthropic :
    Libs → World → Option Backend → ServerInfo → String → Client → Run
run_non_stream_anthropic libs world none srv body w = unregistered libs srv w
run_non_stream_anthropic libs world (some backend) srv body w =
    forward_whole world (anthropic_header libs) (anthropic_answer libs srv) libs.format srv.name w
      backend (prepare_anthropic libs srv body)
