-- ===== src/Api/Handlers/Attempt/Sent.antt =====
-- What an OpenAI client reads of a stream of a backend of its own protocol.
use proxy_lm_go.Common.{
  String, ◌≡◌, refl, sym, ap, subst, ◌∙◌, inl, inr, Bool, true, Bool-cases, none, some, List, [],
  ◌∷◌, ◌++◌, map,
}
use proxy_lm_go.Core.Models.{ServerInfo}
use proxy_lm_go.Core.LiveTail.{LiveTail}
use proxy_lm_go.Api.Translate.Stream.{LineLib}
use proxy_lm_go.Api.Handlers.{
  Client, write_header, World, Response, response, is_2xx, Ended, returned, broken, exhausted,
  ended, is_openai_protocol, Run,
}
use proxy_lm_go.Api.Handlers.Passthrough.{
  ChunkLib, PassState, pass_start, react_openai, final_usage,
}
use proxy_lm_go.Api.Handlers.Passthrough.Lines.{
  until, Passed, failed, ended_well, scan-Passed, done_line, react_openai-Follows,
}
use proxy_lm_go.Api.Handlers.Whole.{Libs, Backend, ready, prepare_openai}
use proxy_lm_go.Api.Handlers.Attempt.{
  StreamRun, stream_of, forgets, send_openai, started_client, openai_stream_header, pass_end,
  pass_openai, open_stream, run_stream_openai,
}

until-rest :
    (stops : String → Bool) (ls : List String)
    → (rest : List String) × (ls ≡ until stops ls ++ rest)
until-rest stops [] = ([], refl)
until-rest stops (l ∷ ls) =
    let more = until-rest stops ls in
    elim (Bool-cases (stops l)) [
      | inl e ↦ (ls, simp e)
      | inr e ↦ (more.0, simp e (ap (◌∷◌ l) more.1))
    ]

-- Lines of the backend in their order, all of them up to the one that stops if there was no error.
pub record Copied (stops : String → Bool) (before ls : List String) (r : Run) : Type 0 where
  pub sent : List String
  pub rest : List String
  pub in_order : ls ≡ sent ++ rest
  pub written : r.client.written ≡ before ++ map ended sent
  pub complete : r.result.err ≡ none → sent ≡ until stops ls

pass_end-Copied :
    (final : PassState → PassState) (resp : Response) (stops : String → Bool) (s : PassState)
    → {r : PassState × Ended} → Passed stops s resp.lines r
    → Copied stops s.client.written resp.lines (pass_end final resp r).run
pass_end-Copied final resp stops s (failed s' r e done rest all w err started) = record {
  sent = done;
  rest = rest;
  in_order = all;
  written = w;
  complete = λ n. absurd cc;
}
pass_end-Copied final resp stops s (ended_well s' (returned r) fin w started) = absurd fin
pass_end-Copied final resp stops s (ended_well s' broken fin w started) =
    let after = until-rest stops resp.lines in
    record {
      sent = until stops resp.lines;
      rest = after.0;
      in_order = after.1;
      written = w;
      complete = λ n. refl;
    }
pass_end-Copied final resp stops s (ended_well s' exhausted fin w started) =
    let after = until-rest stops resp.lines in
    record {
      sent = until stops resp.lines;
      rest = after.0;
      in_order = after.1;
      written = w;
      complete = λ n. refl;
    }

opened-go :
    (libs : Libs) (world : World) (srv : ServerInfo) (w : Client) (tail : LiveTail)
    (resp : Response) (go : Response → StreamRun)
    → is_2xx resp.status ≡ true
    → world.can_flush ≡ true
    → open_stream libs world srv w tail (response resp) go ≡ go resp
opened-go libs world srv w tail resp go s f = simp (s, f)

prepared :
    (libs : Libs) (endpoint : String) (srv : ServerInfo) (body : String)
    → is_openai_protocol srv ≡ true
    → prepare_openai libs endpoint srv body ≡ ready endpoint body
unfolding prepare_openai
prepared libs endpoint srv body o = simp o

run_stream_openai-Copied :
    (libs : Libs) (lines : LineLib) (chunks : ChunkLib) (world : World) (endpoint : String)
    (backend : Backend) (srv : ServerInfo) (id body : String) (w : Client) (tail : LiveTail)
    (resp : Response)
    → is_openai_protocol srv ≡ true
    → backend endpoint body ≡ response resp
    → is_2xx resp.status ≡ true
    → world.can_flush ≡ true
    → Copied
        (done_line lines)
        w.written
        resp.lines
        (run_stream_openai libs lines chunks world endpoint (some backend) srv id body w tail).run
unfolding run_stream_openai pass_openai pass_start write_header
run_stream_openai-Copied libs lines chunks world endpoint backend srv id body w tail resp o b s f =
    let start = pass_start (started_client (openai_stream_header libs w.header resp) w resp) tail in
    let send = send_openai libs lines chunks world backend srv id w tail in
    let passing = pass_openai libs lines chunks world backend srv id endpoint body w tail in
    let chosen : send (ready endpoint body) ≡ passing = simp o in
    let answered : passing ≡ stream_of libs lines chunks world srv id w tail resp =
      ap
        (λ r. open_stream libs world srv w tail r (stream_of libs lines chunks world srv id w tail))
        b
      ∙ opened-go libs world srv w tail resp (stream_of libs lines chunks world srv id w tail) s
          f in
    subst (λ (r : StreamRun). Copied (done_line lines) w.written resp.lines r.run)
      (sym (
        ap (λ p. forgets id (send p)) (prepared libs endpoint srv body o)
        ∙ ap (forgets id) (chosen ∙ answered)))
      (pass_end-Copied (final_usage chunks) resp (done_line lines) start (
        scan-Passed lines (done_line lines) (react_openai lines chunks id)
          (react_openai-Follows lines chunks id) world resp.status 0 start resp.lines))

-- When an OpenAI backend answers a stream with a 2xx status, the connection can be flushed and the
-- attempt has no error, the client gets exactly the backend's lines up to the first end mark, and that
-- one, each unchanged and with its line end.
pub run_stream_openai-lines :
    (libs : Libs) (lines : LineLib) (chunks : ChunkLib) (world : World) (endpoint : String)
    (backend : Backend) (srv : ServerInfo) (id body : String) (w : Client) (tail : LiveTail)
    (resp : Response)
    → is_openai_protocol srv ≡ true
    → backend endpoint body ≡ response resp
    → is_2xx resp.status ≡ true
    → world.can_flush ≡ true
    → (run_stream_openai libs lines chunks world endpoint
        (some backend)
        srv
        id
        body
        w
        tail).run.result.err
      ≡ none
    → (run_stream_openai libs lines chunks world endpoint
        (some backend)
        srv
        id
        body
        w
        tail).run.client.written
      ≡ w.written ++ map ended (until (done_line lines) resp.lines)
run_stream_openai-lines libs lines chunks world endpoint backend srv id body w tail resp o b s f
      no_error =
    let copied =
      run_stream_openai-Copied libs lines chunks world endpoint backend srv id body w tail resp o b
        s f in
    copied.written ∙ ap (λ l. w.written ++ map ended l) (copied.complete no_error)
