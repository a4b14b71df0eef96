-- ===== src/Examples/Handlers.antt =====
-- Attempts of a handler on small streams, a request that is retried, and the tail of an answer.
use proxy_lm_go.Common.{
  ℕ, zero, suc, ◌≤◌, ◌<◌, pos, ◌≡◌, refl, true, false, none, some, List, [], ◌∷◌, ◌++◌, map,
}
use proxy_lm_go.Core.Models.{message, JobResult, zero_result, ServerInfo, current_model_string}
use proxy_lm_go.Core.Submit.{
  PushRound, finished, Wait, submit_push, push_loop, push_step, choose, exclusion, attempt,
  after_wait, pause_ends, is_final, run_on_server,
}
use proxy_lm_go.Common.Sort.{stable_sort}
use proxy_lm_go.Core.Retry.{backoff}
use proxy_lm_go.Core.Scheduler.Errors.{is_context_error}
use proxy_lm_go.Core.Router.{
  model_affinity_least_busy, pick, candidates, is_candidate, server_has_model, pick_by,
  pick_model_affinity_least_busy, is_loaded, pick_least_busy, less_busy, load,
}
use proxy_lm_go.Api.Json as Json
use proxy_lm_go.Api.Json.{to_list, of_list}
use proxy_lm_go.Api.Translate.{parse_map}
use proxy_lm_go.Core.LiveTail as LiveTail
use proxy_lm_go.Core.LiveTail.{last_runes, new_live_tail}
use proxy_lm_go.Core.LiveTail.LastRunes.{Op, appended, deleted, replay, told_all, replay-get}
use proxy_lm_go.Api.Translate.Stream.{SseEvent, trim_sse_data}
use proxy_lm_go.Api.Translate.Stream.ToAnthropic.{
  new_oai_to_anthropic, oai_process_line, oai_step, read_upstream, emit_content, delta_content,
  begin_message, count_usage,
}
use proxy_lm_go.Api.Translate.Stream.ToOpenai.{OaiLine, new_anthropic_to_oai}
use proxy_lm_go.Api.Translate.Stream.Effects.{Closed}
use proxy_lm_go.Api.Translate.Stream.Events.{names, Message}
use proxy_lm_go.Api.Handlers.{
  Header, scan, Client, World, Response, response, refused, no_usage, ended,
}
use proxy_lm_go.Api.Handlers.Headers.{values, copy_headers, copy_headers-hop}
use proxy_lm_go.Api.Handlers.Passthrough.{
  ChunkLib, pass_step, react_openai, trim_data_prefix, after_stream,
}
use proxy_lm_go.Api.Handlers.Passthrough.Lines.{until, done_line}
use proxy_lm_go.Api.Handlers.Translated.{
  to_openai, to_anthropic, oai_text, sse_text, event_end, translate_stream,
}
use proxy_lm_go.Api.Handlers.Translated.Complete.{Quiet, fed_until}
use proxy_lm_go.Api.Handlers.Translated.Protocol.{openai_stream-Closed, anthropic_stream-Message}
use proxy_lm_go.Api.Handlers.Whole.{Libs, Backend, prepare_openai}
use proxy_lm_go.Api.Handlers.Attempt.{openai, pass_openai, run_stream_openai, run_attempt}
use proxy_lm_go.Api.Handlers.Attempt.Untouched.{run_attempt-untouched}
use proxy_lm_go.Api.Handlers.Attempt.Sent.{run_stream_openai-lines}
use proxy_lm_go.Api.Handlers.Serve.{
  Server, Request, Exchange, begin, Try, ran, run_tries, run_closure, serve, finish, error_body,
  Status, pending,
}
use proxy_lm_go.Api.Handlers.Serve.Attempts.{Sees, OneWriter, submit_push-OneWriter}
use proxy_lm_go.Api.Handlers.Serve.Story.{
  statuses, Rounds, final_status, serve-Rounds, finish-answers,
}
use proxy_lm_go.Core.Backends.{openai_headers, anthropic_headers}
use proxy_lm_go.Core.Backends.Credentials.{bearer, api_key, headers-credentials}
use proxy_lm_go.Examples.Data.{a_job, first_server, second_server, a_router, three_attempts}
use proxy_lm_go.Examples.Translation.{table_json, table_lines, chunk_lines, event_lines}

abbrev no_client : Client
no_client = record { header = []; status = none; written = [] }

abbrev quiet_world : World
quiet_world = record {
  write_error = λ n. none;
  context_error = λ n. none;
  elapsed = λ n. pos 0;
  can_flush = true;
}

world-Quiet : Quiet quiet_world
world-Quiet = record { writes = λ n. refl; context = λ n. refl }

openai_stream-Closed_example :
    (outs : List OaiLine) × Closed outs
    × ((translate_stream
          (to_openai table_lines table_json)
          quiet_world
          200
          no_client
          (new_anthropic_to_oai "chat")
          event_lines).0.written
        ≡ [] ++ map event_end (map (oai_text table_json) outs))
openai_stream-Closed_example =
    openai_stream-Closed table_lines table_json quiet_world 200 "chat" no_client event_lines
      world-Quiet

message_started :
    (fed_until
      (to_anthropic table_lines table_json)
      (new_oai_to_anthropic "m" "msg")
      chunk_lines).0.started
    ≡ true
unfolding oai_process_line oai_step read_upstream trim_sse_data parse_map emit_content delta_content
    Json.get to_list of_list begin_message count_usage new_oai_to_anthropic
message_started = refl

anthropic_stream-Message_example :
    (events : List SseEvent) × Message (names events)
    × ((translate_stream
          (to_anthropic table_lines table_json)
          quiet_world
          200
          no_client
          (new_oai_to_anthropic "m" "msg")
          chunk_lines).0.written
        ≡ [] ++ map event_end (map (sse_text table_json) events))
anthropic_stream-Message_example =
    anthropic_stream-Message table_lines table_json quiet_world 200 "msg" "m" no_client chunk_lines
      world-Quiet message_started

copy_headers-hop_example :
    values
      (copy_headers (λ k. k) [] (("Connection", "close" ∷ []) ∷ ("Date", "today" ∷ []) ∷ []))
      "Connection"
    ≡ values [] "Connection"
copy_headers-hop_example =
    copy_headers-hop (λ k. k) [] (("Connection", "close" ∷ []) ∷ ("Date", "today" ∷ []) ∷ [])
      "Connection" refl

abbrev some_libs : Libs
some_libs = record {
  json = table_json;
  sprint = λ j. "";
  format = record {
    upstream_status = λ name n. name;
    unsupported_endpoint = λ e name. name;
    no_backend = λ name. name;
  };
  canonical = λ k. k;
  peek_usage = λ b. no_usage;
  peek_anthropic_usage = λ b. no_usage;
  random_id = "id";
}

abbrev some_chunks : ChunkLib
some_chunks = record {
  openai_usage = λ b. none;
  anthropic_usage = λ b. none;
  choices = λ b. none;
  runes = λ s. 72 ∷ [];
}

abbrev a_stream : Response
a_stream = record { status = 200; header = []; body = ""; lines = chunk_lines; read_error = none }

abbrev streams : Backend
streams path body = response a_stream

abbrev refuses : Backend
refuses path body = refused (message "refused")

stream_ends_well :
    (run_stream_openai some_libs table_lines some_chunks quiet_world "/v1/chat/completions"
      (some streams)
      first_server
      "id1"
      "{}"
      no_client
      new_live_tail).run.result.err
    ≡ none
unfolding run_stream_openai prepare_openai pass_openai scan pass_step react_openai trim_data_prefix
    after_stream
stream_ends_well = refl

run_stream_openai-lines_example :
    (run_stream_openai some_libs table_lines some_chunks quiet_world "/v1/chat/completions"
      (some streams)
      first_server
      "id1"
      "{}"
      no_client
      new_live_tail).run.client.written
    ≡ [] ++ map ended (until (done_line table_lines) chunk_lines)
run_stream_openai-lines_example =
    run_stream_openai-lines some_libs table_lines some_chunks quiet_world "/v1/chat/completions"
      streams first_server "id1" "{}" no_client new_live_tail a_stream refl refl refl refl
      stream_ends_well

not_started :
    (run_attempt some_libs table_lines some_chunks
      (openai "/v1/chat/completions")
      true
      "id1"
      "{}"
      quiet_world
      (some refuses)
      first_server
      no_client
      new_live_tail).run.result.response_started
    ≡ false
unfolding run_attempt run_stream_openai prepare_openai pass_openai
not_started = refl

run_attempt-untouched_example :
    (run_attempt some_libs table_lines some_chunks
      (openai "/v1/chat/completions")
      true
      "id1"
      "{}"
      quiet_world
      (some refuses)
      first_server
      no_client
      new_live_tail).run.client.written
    ≡ []
run_attempt-untouched_example =
    run_attempt-untouched some_libs table_lines some_chunks (openai "/v1/chat/completions") true
      "id1" "{}" quiet_world (some refuses) first_server no_client new_live_tail not_started

abbrev a_handler : Server
a_handler = record {
  libs = some_libs;
  lines = table_lines;
  chunks = some_chunks;
  handler = openai "/v1/chat/completions";
  error_text = λ e. "error";
  status_text = λ n. "status";
}

abbrev request_m : Request
request_m = record {
  id = "id1";
  client_name = "alice";
  model = "m";
  stream = true;
  body = "{}";
  now = 1;
}

-- The first server refuses, and the second one streams.
abbrev two_tries : List Try
two_tries =
    ran (record { server = first_server; backend = some refuses; world = quiet_world; now = 2 })
    ∷ ran (record { server = second_server; backend = some streams; world = quiet_world; now = 3 })
    ∷ []

abbrev waits : ℕ → ServerInfo → Wait
waits zero s = finished (record zero_result { err = some (message "refused") })
waits (suc n) s = finished (record zero_result { http_status = 200; response_started = true })

abbrev push_waits : ℕ → PushRound
push_waits round = record {
  router = a_router model_affinity_least_busy;
  router_again = a_router model_affinity_least_busy;
  context_done = none;
  wait = waits round;
}

abbrev begun : Exchange
begun = begin a_handler request_m no_client new_live_tail

-- The loop of `Submit` sees what the two calls of `Run` returned.
submit-Sees :
    Sees
      (submit_push three_attempts (a_job "id1" "m") push_waits).0
      (run_tries a_handler request_m two_tries begun).1
unfolding submit_push push_loop push_step choose exclusion attempt after_wait pause_ends is_final
    run_on_server pick candidates is_candidate server_has_model pick_by
    pick_model_affinity_least_busy is_loaded current_model_string pick_least_busy stable_sort
    less_busy load backoff is_context_error begin run_tries run_closure run_attempt
    run_stream_openai prepare_openai pass_openai scan pass_step react_openai trim_data_prefix
    after_stream
submit-Sees = (refl, refl, (refl, refl, tt))

submit_push-OneWriter_example : OneWriter a_handler request_m two_tries begun
submit_push-OneWriter_example =
    submit_push-OneWriter three_attempts (a_job "id1" "m") push_waits a_handler request_m two_tries
      begun submit-Sees

serve-Rounds_example :
    (rounds : List Status) × Rounds two_tries
      (run_tries a_handler request_m two_tries
        (begin a_handler request_m no_client new_live_tail)).1
      rounds
    × (statuses
          (serve a_handler request_m no_client new_live_tail two_tries 9 zero_result none).saved
        ≡ pending ∷ (rounds ++ (final_status none ∷ [])))
serve-Rounds_example =
    serve-Rounds a_handler request_m no_client new_live_tail two_tries 9 zero_result none

abbrev refused_result : JobResult
refused_result = record zero_result { err = some (message "refused"); http_status = 404 }

begun_unsent : begun.client.status ≡ none
unfolding begin
begun_unsent = refl

finish-answers_example :
    (code : ℕ) × ((400 ≤ code) × (code < 600))
    × ((finish a_handler 9 refused_result (some (message "refused")) begun).client.status
        ≡ some code)
    × ((finish a_handler 9 refused_result (some (message "refused")) begun).client.written
        ≡ begun.client.written
          ++ (error_body a_handler a_handler.handler "api_error" code
                (a_handler.error_text (message "refused"))
              ∷ []))
finish-answers_example =
    finish-answers a_handler 9 refused_result (message "refused") begun refl begun_unsent

abbrev ops : List Op
ops = appended "id1" (72 ∷ 10 ∷ []) ∷ deleted "id2" ∷ appended "id1" (105 ∷ []) ∷ []

replay-get_example :
    LiveTail.get (replay new_live_tail ops) "id1" ≡ last_runes (told_all "id1" [] ops)
replay-get_example = replay-get ops "id1" refl

-- A client that sends its own key.
abbrev client_headers : Header
client_headers = ("Authorization", "Bearer mine" ∷ []) ∷ ("X-Api-Key", "mine" ∷ []) ∷ []

headers-credentials_example :
    (values (openai_headers (λ k. k) "theirs" client_headers) "Authorization" ≡ bearer "theirs")
    × (values (anthropic_headers (λ k. k) "v1" "theirs" client_headers) "Authorization" ≡ [])
    × (values (anthropic_headers (λ k. k) "v1" "theirs" client_headers) "X-Api-Key"
        ≡ api_key "theirs")
headers-credentials_example = headers-credentials (λ k. k) "v1" "theirs" client_headers
