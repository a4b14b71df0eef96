-- ===== src/Api/Handlers/Serve.antt =====
-- internal/api/routes_openai.go and routes_anthropic.go, `ServeHTTP` from the record of the request on;
-- internal/api/errors.go; `RequestRecord` and `Status` of internal/core/models.go. What `Submit` decides
-- is given by the attempts that it makes and its answer. An error of the history is only logged.
pub mod Attempts
pub mod Story
use Prim.Native.String
use proxy_lm_go.Common.{
  ℕ, ℤ, pos, String, ◌==◌, Bool, true, false, ◌&&◌, Option, none, some, List, [], ◌∷◌, ◌++◌, length,
  ltb, leb, if◌then◌else◌,
}
use proxy_lm_go.Core.Models.{Err, JobResult, zero_result, ServerInfo}
use proxy_lm_go.Core.LiveTail.{LiveTail}
use proxy_lm_go.Core.Submit.{Tried}
use proxy_lm_go.Api.Json.{Json, str, obj, Fields, no_fields, field, JsonLib}
use proxy_lm_go.Api.Translate.Stream.{LineLib}
use proxy_lm_go.Api.Handlers.{Header, Client, write_header, put, World, set_header, failed_with}
use proxy_lm_go.Api.Handlers.Passthrough.{ChunkLib}
use proxy_lm_go.Api.Handlers.Whole.{Libs, Backend}
use proxy_lm_go.Api.Handlers.Attempt.{StreamRun, Handler, openai, messages, run_attempt}

-- `Status`
pub data Status : Type 0 where
  pending : Status
  running : Status
  completed : Status
  failed : Status
  cancelled : Status

-- `RequestRecord`; a time is none while it is zero.
pub record RequestRecord : Type 0 where
  pub id : String
  pub client_name : String
  pub model : String
  pub endpoint : String
  pub stream : Bool
  pub server_name : String
  pub status : Status
  pub http_status : ℕ
  pub prompt_tokens : ℤ
  pub output_tokens : ℤ
  pub attempt : ℕ
  pub error_message : String
  pub model_reloaded : Bool
  pub last_failed_server : String
  pub run_ms : ℤ
  pub queue_ms : ℤ
  pub created_at : Option ℕ
  pub started_at : Option ℕ
  pub completed_at : Option ℕ

-- What the handlers use: the parameters of an attempt, the text of an error, `http.StatusText`.
pub record Server : Type 0 where
  pub libs : Libs
  pub lines : LineLib
  pub chunks : ChunkLib
  pub handler : Handler
  pub error_text : Err → String
  pub status_text : ℕ → String

-- The request as the handler has read it.
pub record Request : Type 0 where
  pub id : String
  pub client_name : String
  pub model : String
  pub stream : Bool
  pub body : String
  pub now : ℕ

abbrev endpoint_of : Handler → String
endpoint_of (openai endpoint) = endpoint
endpoint_of messages = "/v1/messages"

unfoldable pub new_record : Server → Request → RequestRecord
new_record s q = record {
  id = q.id;
  client_name = q.client_name;
  model = q.model;
  endpoint = endpoint_of s.handler;
  stream = q.stream;
  server_name = "";
  status = pending;
  http_status = 0;
  prompt_tokens = pos 0;
  output_tokens = pos 0;
  attempt = 0;
  error_message = "";
  model_reloaded = false;
  last_failed_server = "";
  run_ms = pos 0;
  queue_ms = pos 0;
  created_at = some q.now;
  started_at = none;
  completed_at = none;
}

-- The record, the client, the tails, and the records that were written to the history.
pub record Exchange : Type 0 where
  pub rec : RequestRecord
  pub client : Client
  pub tail : LiveTail
  pub saved : List RequestRecord

-- `persistRecord`
abbrev pub persist : Exchange → Exchange
persist x = record x { saved = x.saved ++ (x.rec ∷ []) }

-- The handler up to `Submit`.
unfoldable pub begin : Server → Request → Client → LiveTail → Exchange
begin s q w tail = persist (record { rec = new_record s q; client = w; tail = tail; saved = [] })

-- What one call of `Run` meets.
pub record Call : Type 0 where
  pub server : ServerInfo
  pub backend : Option Backend
  pub world : World
  pub now : ℕ

-- The closure before the attempt.
abbrev pub running_record : Call → RequestRecord → RequestRecord
running_record c r = record r {
  server_name = c.server.name;
  started_at = some c.now;
  status = running;
  error_message = "";
}

-- The attempt itself.
abbrev pub attempted : Server → Request → Call → Exchange → StreamRun
attempted s q c x =
    run_attempt s.libs s.lines s.chunks s.handler q.stream q.id q.body c.world c.backend c.server
      x.client x.tail

-- The closure after the attempt: an error before the response started is a retry.
abbrev pub after_attempt : Server → String → JobResult → Option Err → Exchange → Exchange
after_attempt s name r none x = x
after_attempt s name r (some e) x =
    if r.response_started
    then x
    else persist (record x {
      rec = record x.rec {
        status = pending;
        error_message = s.error_text e;
        last_failed_server = name;
      };
    })

-- `Run`
unfoldable pub run_closure : Server → Request → Call → Exchange → Exchange × JobResult
run_closure s q c x =
    let begun = persist (record x { rec = running_record c x.rec }) in
    let done = attempted s q c begun in
    let result = done.run.result in
    (
      after_attempt s c.server.name result result.err
          (record begun { client = done.run.client; tail = done.tail }),
      result,
    )

-- What `Submit` does with the job: a worker calls `Run`, or a cancellation ends the attempt in the
-- queue.
pub data Try : Type 0 where
  ran : Call → Try
  left_queue : ServerInfo → Err → Try

abbrev pub run_try : Server → Request → Try → Exchange → Exchange × JobResult
run_try s q (ran c) x = run_closure s q c x
run_try s q (left_queue server e) x = (x, failed_with e)

unfoldable pub run_tries : Server → Request → List Try → Exchange → Exchange × List JobResult
run_tries s q [] x = (x, [])
run_tries s q (t ∷ ts) x =
    let one = run_try s q t x in let rest = run_tries s q ts one.0 in (rest.0, one.1 ∷ rest.1)

-- `mapErrorStatus`
unfoldable pub map_error_status : ℕ → ℕ
map_error_status upstream =
    if leb 400 upstream && ltb upstream 500 then upstream else if leb 500 upstream then 502 else 502

-- The body of `writeJSONError` and of `writeAnthropicError`, which also has a type; `Encode` ends it with a line feed.
unfoldable pub error_body : Server → Handler → String → ℕ → String → String
error_body s (openai endpoint) kind status text =
    String.◌++◌
      (s.libs.json.print (
        obj (
          field "error"
            (obj (field "message" (str text) (field "type" (str (s.status_text status)) no_fields)))
            no_fields)))
      "\n"
error_body s messages kind status text =
    String.◌++◌
      (s.libs.json.print (
        obj (
          field "type" (str "error") (
            field "error" (obj (field "type" (str kind) (field "message" (str text) no_fields)))
              no_fields))))
      "\n"

unfoldable pub write_error : Server → String → ℕ → String → Client → Client
write_error s kind status text w =
    put
      (write_header
        (record w { header = set_header w.header "Content-Type" "application/json; charset=utf-8" })
        status)
      (error_body s s.handler kind status text)

abbrev pub result_record : ℕ → JobResult → RequestRecord → RequestRecord
result_record now r rec = record rec {
  completed_at = some now;
  http_status = r.http_status;
  prompt_tokens = r.prompt_tokens;
  output_tokens = r.output_tokens;
  attempt = r.attempt;
  model_reloaded = r.model_reloaded;
  run_ms = r.run_ms;
  queue_ms = r.queue_ms;
}

abbrev pub outcome : Server → JobResult → Option Err → Exchange → Exchange
outcome s r none x = record x { rec = record x.rec { status = completed } }
outcome s r (some e) x = record x {
  rec = record x.rec { status = failed; error_message = s.error_text e };
  client =
      if r.response_started
      then x.client
      else write_error s "api_error" (map_error_status r.http_status) (s.error_text e) x.client;
}

-- The handler after `Submit`, which returned `r` and `e`.
unfoldable pub finish : Server → ℕ → JobResult → Option Err → Exchange → Exchange
finish s now r e x = persist (outcome s r e (record x { rec = result_record now r x.rec }))

-- A request from its record to its end.
unfoldable pub serve :
    Server → Request → Client → LiveTail → List Try → ℕ → JobResult → Option Err → Exchange
serve s q w tail tries now r e = finish s now r e (run_tries s q tries (begin s q w tail)).0
