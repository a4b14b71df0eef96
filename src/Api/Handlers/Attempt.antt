-- ===== src/Api/Handlers/Attempt.antt =====
-- internal/api/streaming.go, streaming_translate.go and routes_anthropic.go, `runStream`: one streaming
-- attempt, with either protocol on both sides, and one attempt of a handler.
pub mod Started
pub mod Untouched
pub mod Sent
use proxy_lm_go.Common.{
  ℕ, ℤ, String, ◌==◌, Bool, true, false, Option, none, some, List, [], ◌∷◌, if◌then◌else◌,
}
use proxy_lm_go.Core.Models.{Err, message, wrapped, JobResult, ServerInfo, current_model_string}
use proxy_lm_go.Core.LiveTail.{LiveTail, delete}
use proxy_lm_go.Api.Translate.Stream.{LineLib}
use proxy_lm_go.Api.Translate.Stream.ToAnthropic.{new_oai_to_anthropic}
use proxy_lm_go.Api.Translate.Stream.ToOpenai.{new_anthropic_to_oai}
use proxy_lm_go.Api.Handlers.{
  Header, Client, write_header, World, Response, Reply, refused, response, is_2xx, failed_with,
  failed_status, Ended, returned, broken, exhausted, scan, get_header, set_header,
  is_openai_protocol, Run,
}
use proxy_lm_go.Api.Handlers.Headers.{copy_headers}
use proxy_lm_go.Api.Handlers.Passthrough.{
  ChunkLib, PassState, pass_start, Reaction, react_openai, react_anthropic, pass_step, pass_result,
  after_stream, final_usage,
}
use proxy_lm_go.Api.Handlers.Translated.{to_openai, to_anthropic, translate_stream}
use proxy_lm_go.Api.Handlers.Whole.{
  Libs, Backend, Prepared, unsendable, ready, prepare_openai, prepare_anthropic, unregistered,
  run_non_stream_openai, run_non_stream_anthropic,
}

-- A streaming attempt also changes the tail of the answer.
pub record StreamRun : Type 0 where
  pub run : Run
  pub tail : LiveTail

abbrev kept : LiveTail → Run → StreamRun
kept tail r = record { run = r; tail = tail }

abbrev failing : Client → LiveTail → JobResult → StreamRun
failing w tail r = kept tail (record { client = w; result = r })

abbrev stream_headers : Header → Header
stream_headers h = set_header (set_header h "Cache-Control" "no-cache") "Connection" "keep-alive"

-- The headers for an OpenAI client: those of the backend, and those of a stream.
unfoldable pub openai_stream_header : Libs → Header → Response → Header
openai_stream_header libs h resp = stream_headers (
    copy_headers libs.canonical
      (if get_header resp.header "Content-Type" == ""
        then set_header h "Content-Type" "text/event-stream"
        else h)
      resp.header)

-- The headers for a client of the Messages API.
unfoldable pub anthropic_stream_header : Header → Response → Header
anthropic_stream_header h resp = stream_headers (set_header h "Content-Type" "text/event-stream")

-- `Forward`, and the checks before the first line; `go` is the rest of the function.
abbrev pub opened :
    World → String → Client → LiveTail → Response → (Response → StreamRun) → StreamRun
opened world upstream_error w tail resp go =
    if is_2xx resp.status
    then if world.can_flush
      then go resp
      else failing w tail (failed_with (message "ResponseWriter does not support Flush"))
    else failing w tail (failed_status (message upstream_error) resp.status)

abbrev pub open_stream :
    Libs → World → ServerInfo → Client → LiveTail → Reply → (Response → StreamRun) → StreamRun
open_stream libs world srv w tail (refused e) go = failing w tail (failed_with e)
open_stream libs world srv w tail (response resp) go =
    opened world (libs.format.upstream_status srv.name resp.status) w tail resp go

-- `WriteHeader`
abbrev pub started_client : Header → Client → Response → Client
started_client h w resp = write_header (record w { header = h }) resp.status

-- After the loop of a passthrough: `scanner.Err()` is that of the last read.
abbrev pub pass_end : (PassState → PassState) → Response → PassState × Ended → StreamRun
pass_end final resp (s, returned r) = failing s.client s.tail r
pass_end final resp (s, broken) = failing s.client s.tail (after_stream final resp.status none s)
pass_end final resp (s, exhausted) =
    failing s.client s.tail (after_stream final resp.status resp.read_error s)

abbrev pub pass_stream :
    Reaction → (PassState → PassState) → LineLib → World → Client → LiveTail → Response → StreamRun
pass_stream react final lines world w tail resp =
    pass_end final resp
      (scan (pass_step react lines world resp.status) 0 (pass_start w tail) resp.lines)

abbrev pub translated : LiveTail → Client × JobResult → StreamRun
translated tail (w, r) = failing w tail r

-- `runStreamFromAnthropicBackend`
unfoldable pub run_stream_from_anthropic_backend :
    Libs → LineLib → World → Backend → ServerInfo → String → Client → LiveTail → StreamRun
run_stream_from_anthropic_backend libs lines world backend srv body w tail =
    open_stream libs world srv w tail (backend "/v1/messages" body) (λ resp. translated tail (
      translate_stream (to_openai lines libs.json) world resp.status
        (started_client (openai_stream_header libs w.header resp) w resp)
        (new_anthropic_to_oai libs.random_id) resp.lines))

-- `runStreamWithTranslator`
unfoldable pub run_stream_with_translator :
    Libs
    → LineLib
    → ChunkLib
    → World
    → Backend
    → ServerInfo
    → String
    → String
    → Bool
    → Client
    → LiveTail
    → StreamRun
run_stream_with_translator libs lines chunks world backend srv path body need_translate w tail =
    open_stream libs world srv w tail (backend path body) (λ resp.
      let w' = started_client (anthropic_stream_header w.header resp) w resp in
      if need_translate
      then translated tail (
          translate_stream (to_anthropic lines libs.json) world resp.status w'
            (new_oai_to_anthropic (current_model_string srv) libs.random_id) resp.lines)
      else pass_stream (react_anthropic chunks) (λ s. s) lines world w' tail resp)

-- A response that passes from an OpenAI backend to an OpenAI client.
abbrev pub stream_of :
    Libs
    → LineLib
    → ChunkLib
    → World
    → ServerInfo
    → String
    → Client
    → LiveTail
    → Response
    → StreamRun
stream_of libs lines chunks world srv id w tail resp =
    pass_stream (react_openai lines chunks id) (final_usage chunks) lines world
      (started_client (openai_stream_header libs w.header resp) w resp) tail resp

-- The rest of `runStream` when both sides speak the OpenAI protocol.
unfoldable pub pass_openai :
    Libs
    → LineLib
    → ChunkLib
    → World
    → Backend
    → ServerInfo
    → String
    → String
    → String
    → Client
    → LiveTail
    → StreamRun
pass_openai libs lines chunks world backend srv id path body w tail =
    open_stream libs world srv w tail (backend path body)
      (stream_of libs lines chunks world srv id w tail)

abbrev pub send_openai :
    Libs
    → LineLib
    → ChunkLib
    → World
    → Backend
    → ServerInfo
    → String
    → Client
    → LiveTail
    → Prepared
    → StreamRun
send_openai libs lines chunks world backend srv id w tail (unsendable e) =
    failing w tail (failed_with e)
send_openai libs lines chunks world backend srv id w tail (ready path body) =
    if is_openai_protocol srv
    then pass_openai libs lines chunks world backend srv id path body w tail
    else run_stream_from_anthropic_backend libs lines world backend srv body w tail

-- `defer h.liveTail.Delete(reqID)`
abbrev pub forgets : String → StreamRun → StreamRun
forgets id r = record r { tail = delete r.tail id }

-- `proxyHandler.runStream`
unfoldable pub run_stream_openai :
    Libs
    → LineLib
    → ChunkLib
    → World
    → String
    → Option Backend
    → ServerInfo
    → String
    → String
    → Client
    → LiveTail
    → StreamRun
run_stream_openai libs lines chunks world endpoint none srv id body w tail =
    kept tail (unregistered libs srv w)
run_stream_openai libs lines chunks world endpoint (some backend) srv id body w tail = forgets id (
    send_openai libs lines chunks world backend srv id w tail
      (prepare_openai libs endpoint srv body))

abbrev pub send_anthropic :
    Libs
    → LineLib
    → ChunkLib
    → World
    → Backend
    → ServerInfo
    → Client
    → LiveTail
    → Prepared
    → StreamRun
send_anthropic libs lines chunks world backend srv w tail (unsendable e) =
    failing w tail (failed_with e)
send_anthropic libs lines chunks world backend srv w tail (ready path body) =
    run_stream_with_translator libs lines chunks world backend srv path body
      (is_openai_protocol srv) w tail

-- `anthropicHandler.runStream`
unfoldable pub run_stream_anthropic :
    Libs
    → LineLib
    → ChunkLib
    → World
    → Option Backend
    → ServerInfo
    → String
    → Client
    → LiveTail
    → StreamRun
run_stream_anthropic libs lines chunks world none srv body w tail =
    kept tail (unregistered libs srv w)
run_stream_anthropic libs lines chunks world (some backend) srv body w tail =
    send_anthropic libs lines chunks world backend srv w tail (prepare_anthropic libs srv body)

-- The handler that a request came to: the endpoint of an OpenAI handler, or the one of the Messages API.
pub data Handler : Type 0 where
  openai : String → Handler
  messages : Handler

-- What one attempt does in the closure `Run`: `runStream` or `runNonStream`.
unfoldable pub run_attempt :
    Libs
    → LineLib
    → ChunkLib
    → Handler
    → Bool
    → String
    → String
    → World
    → Option Backend
    → ServerInfo
    → Client
    → LiveTail
    → StreamRun
run_attempt libs lines chunks (openai endpoint) true id body world backend srv w tail =
    run_stream_openai libs lines chunks world endpoint backend srv id body w tail
run_attempt libs lines chunks (openai endpoint) false id body world backend srv w tail =
    kept tail (run_non_stream_openai libs world endpoint backend srv body w)
run_attempt libs lines chunks messages true id body world backend srv w tail =
    run_stream_anthropic libs lines chunks world backend srv body w tail
run_attempt libs lines chunks messages false id body world backend srv w tail =
    kept tail (run_non_stream_anthropic libs world backend srv body w)
