-- ===== src/Api/Handlers/Attempt/Untouched.antt =====
-- internal/api/streaming.go, streaming_translate.go, routes_openai.go and routes_anthropic.go: the parts
-- of a body that one attempt sends (INV-6).
use proxy_lm_go.Common.{
  ℕ, String, ◌≡◌, refl, sym, ap, ◌∙◌, inl, inr, ◌⊎◌, Bool, true, false, Bool-cases, true≢false,
  Option, none, some, List, [], ◌++◌, map, append-nil,
}
use proxy_lm_go.Core.Models.{Err, JobResult, ServerInfo}
use proxy_lm_go.Core.LiveTail.{LiveTail}
use proxy_lm_go.Api.Translate.Stream.{LineLib}
use proxy_lm_go.Api.Handlers.{
  Header, Client, write_header, World, Response, Reply, refused, response, is_2xx, Ended, returned,
  broken, exhausted, ended, is_openai_protocol, Run, Usage, Format,
}
use proxy_lm_go.Api.Handlers.Passthrough.{
  ChunkLib, PassState, pass_start, react_openai, react_anthropic, final_usage, after_stream,
}
use proxy_lm_go.Api.Handlers.Passthrough.Lines.{
  until, Passed, failed, ended_well, scan-Passed, done_line, never, react_openai-Follows,
  react_anthropic-Follows,
}
use proxy_lm_go.Api.Handlers.Translated.{to_openai, to_anthropic, translate_stream}
use proxy_lm_go.Api.Handlers.Whole.{
  Libs, Backend, Prepared, unsendable, ready, write_answer, give_answer, read_answer, on_reply,
  forward_whole, openai_header, anthropic_header, openai_answer, anthropic_answer, prepare_openai,
  prepare_anthropic, run_non_stream_openai, run_non_stream_anthropic,
}
use proxy_lm_go.Api.Handlers.Attempt.Started.{Started, translate_stream-Started}
use proxy_lm_go.Api.Handlers.Attempt.{
  StreamRun, translated, open_stream, pass_end, run_attempt, Handler, openai, messages,
  run_stream_openai, run_stream_anthropic, send_openai, send_anthropic, pass_openai,
  run_stream_with_translator, run_stream_from_anthropic_backend,
}

-- A response that has not started has sent no body.
abbrev pub Honest : Client → Run → Type 0
Honest w r = r.result.response_started ≡ false → r.client.written ≡ w.written

-- The end of a passthrough.
after-Honest :
    (final : PassState → PassState) (status : ℕ) (o : Option Err) (stops : String → Bool)
    (s s' : PassState) (ls : List String)
    → s'.client.written ≡ s.client.written ++ map ended (until stops ls)
    → (s'.started ≡ true) ⊎ ((ls ≡ []) × (s'.started ≡ s.started))
    → Honest s.client (record { client = s'.client; result = after_stream final status o s' })
unfolding after_stream
after-Honest final status none stops s s' ls w started f = absurd (true≢false f)
after-Honest final status (some e) stops s s' ls w (inl t) f = absurd (true≢false (sym t ∙ f))
after-Honest final status (some e) stops s s' ls w (inr q) f =
    w ∙ ap (λ l. s.client.written ++ map ended (until stops l)) q.0 ∙ append-nil s.client.written

pass_end-Honest :
    (final : PassState → PassState) (resp : Response) (stops : String → Bool) (s : PassState)
    → {r : PassState × Ended} → Passed stops s resp.lines r
    → Honest s.client (pass_end final resp r).run
pass_end-Honest final resp stops s (failed s' r e done rest all w err started) =
    λ f. absurd (true≢false (sym started ∙ f))
pass_end-Honest final resp stops s (ended_well s' (returned r) fin w started) = absurd fin
pass_end-Honest final resp stops s (ended_well s' broken fin w started) =
    after-Honest final resp.status none stops s s' resp.lines w started
pass_end-Honest final resp stops s (ended_well s' exhausted fin w started) =
    after-Honest final resp.status resp.read_error stops s s' resp.lines w started

module _ (libs : Libs) (lines : LineLib) (chunks : ChunkLib) (world : World) (srv : ServerInfo)
    (w : Client) (tail : LiveTail) where
  open-Honest :
      (r : Reply) (go : Response → StreamRun)
      → ((resp : Response) → Honest w (go resp).run)
      → Honest w (open_stream libs world srv w tail r go).run
  open-Honest (refused e) go h = λ f. refl
  open-Honest (response resp) go h = elim (Bool-cases (is_2xx resp.status)) [
    | inl e ↦ elim (Bool-cases world.can_flush) [
      | inl c ↦ rw (e, c) (h resp)
      | inr c ↦ rw (e, c) (λ f. refl)
    ]
    | inr e ↦ rw e (λ f. refl)
  ]

  pass_openai-Honest :
      (backend : Backend) (id path body : String)
      → Honest w (pass_openai libs lines chunks world backend srv id path body w tail).run
  unfolding pass_openai pass_start write_header
  pass_openai-Honest backend id path body = open-Honest (backend path body) _ (λ resp.
      pass_end-Honest (final_usage chunks) resp (done_line lines) _ (
        scan-Passed lines (done_line lines) (react_openai lines chunks id)
          (react_openai-Follows lines chunks id) world resp.status 0 _ resp.lines))

  translated-Honest : (x : Client × JobResult) → Started x.1 → Honest w (translated tail x).run
  translated-Honest x s = λ f. absurd (true≢false (sym s ∙ f))

  from_anthropic-Honest :
      (backend : Backend) (body : String)
      → Honest w (run_stream_from_anthropic_backend libs lines world backend srv body w tail).run
  unfolding run_stream_from_anthropic_backend
  from_anthropic-Honest backend body = open-Honest (backend "/v1/messages" body) _ (λ resp.
      translated-Honest
        (translate_stream (to_openai lines libs.json) world resp.status _ _ resp.lines)
        (translate_stream-Started (to_openai lines libs.json) world resp.status _ _ resp.lines))

  with_translator-Honest :
      (backend : Backend) (path body : String) (need : Bool)
      → Honest w
          (run_stream_with_translator libs lines chunks world backend srv path body need w tail).run
  unfolding run_stream_with_translator pass_start write_header
  with_translator-Honest backend path body true = open-Honest (backend path body) _ (λ resp.
      translated-Honest
        (translate_stream (to_anthropic lines libs.json) world resp.status _ _ resp.lines)
        (translate_stream-Started (to_anthropic lines libs.json) world resp.status _ _ resp.lines))
  with_translator-Honest backend path body false = open-Honest (backend path body) _ (λ resp.
      pass_end-Honest (λ s. s) resp never _
        (scan-Passed lines never (react_anthropic chunks) (react_anthropic-Follows lines chunks)
          world resp.status 0 _ resp.lines))

  send_openai-Honest :
      (backend : Backend) (id : String) (p : Prepared)
      → Honest w (send_openai libs lines chunks world backend srv id w tail p).run
  send_openai-Honest backend id (unsendable e) = λ f. refl
  send_openai-Honest backend id (ready path body) = elim (Bool-cases (is_openai_protocol srv)) [
    | inl e ↦ rw e (pass_openai-Honest backend id path body)
    | inr e ↦ rw e (from_anthropic-Honest backend body)
  ]

  send_anthropic-Honest :
      (backend : Backend) (p : Prepared)
      → Honest w (send_anthropic libs lines chunks world backend srv w tail p).run
  send_anthropic-Honest backend (unsendable e) = λ f. refl
  send_anthropic-Honest backend (ready path body) =
      with_translator-Honest backend path body (is_openai_protocol srv)

  stream_openai-Honest :
      (endpoint id body : String) (backend : Option Backend)
      → Honest w (run_stream_openai libs lines chunks world endpoint backend srv id body w tail).run
  unfolding run_stream_openai
  stream_openai-Honest endpoint id body none = λ f. refl
  stream_openai-Honest endpoint id body (some backend) =
      send_openai-Honest backend id (prepare_openai libs endpoint srv body)

  stream_anthropic-Honest :
      (body : String) (backend : Option Backend)
      → Honest w (run_stream_anthropic libs lines chunks world backend srv body w tail).run
  unfolding run_stream_anthropic
  stream_anthropic-Honest body none = λ f. refl
  stream_anthropic-Honest body (some backend) =
      send_anthropic-Honest backend (prepare_anthropic libs srv body)

module _ (world : World) (header : Header → Response → Header)
    (answer : String → Usage × Option String) (format : Format) (name : String) (w : Client) where
  write-Honest :
      (w' : Client) (status : ℕ) (usage : Usage) (body : String) (o : Option Err)
      → Honest w (write_answer w' status usage body o)
  write-Honest w' status usage body none = λ f. absurd (true≢false f)
  write-Honest w' status usage body (some e) = λ f. absurd (true≢false f)

  give-Honest :
      (resp : Response) (a : Usage × Option String) → Honest w (give_answer world header w resp a)
  give-Honest resp (usage, none) = λ f. refl
  give-Honest resp (usage, some body) = write-Honest _ resp.status usage body _

  read-Honest :
      (resp : Response) (o : Option Err)
      → Honest w (read_answer world header answer format name w resp o)
  read-Honest resp (some e) = λ f. refl
  read-Honest resp none = elim (Bool-cases (is_2xx resp.status)) [
    | inl e ↦ rw e (give-Honest resp (answer resp.body))
    | inr e ↦ rw e (λ f. refl)
  ]

  reply-Honest : (r : Reply) → Honest w (on_reply world header answer format name w r)
  reply-Honest (refused e) = λ f. refl
  reply-Honest (response resp) = read-Honest resp resp.read_error

  forward-Honest :
      (backend : Backend) (p : Prepared)
      → Honest w (forward_whole world header answer format name w backend p)
  forward-Honest backend (unsendable e) = λ f. refl
  forward-Honest backend (ready path body) = reply-Honest (backend path body)

pub run_attempt-Honest :
    (libs : Libs) (lines : LineLib) (chunks : ChunkLib) (h : Handler) (stream : Bool)
    (id body : String) (world : World) (backend : Option Backend) (srv : ServerInfo) (w : Client)
    (tail : LiveTail)
    → Honest w (run_attempt libs lines chunks h stream id body world backend srv w tail).run
unfolding run_attempt run_non_stream_openai run_non_stream_anthropic
run_attempt-Honest libs lines chunks (openai endpoint) true id body world backend srv w tail =
    stream_openai-Honest libs lines chunks world srv w tail endpoint id body backend
run_attempt-Honest libs lines chunks messages true id body world backend srv w tail =
    stream_anthropic-Honest libs lines chunks world srv w tail body backend
run_attempt-Honest libs lines chunks (openai endpoint) false id body world none srv w tail =
    λ f. refl
run_attempt-Honest libs lines chunks (openai endpoint) false id body world (some backend) srv w
      tail =
    forward-Honest world (openai_header libs) (openai_answer libs srv) libs.format srv.name w
      backend (prepare_openai libs endpoint srv body)
run_attempt-Honest libs lines chunks messages false id body world none srv w tail = λ f. refl
run_attempt-Honest libs lines chunks messages false id body world (some backend) srv w tail =
    forward-Honest world (anthropic_header libs) (anthropic_answer libs srv) libs.format srv.name w
      backend (prepare_anthropic libs srv body)

-- An attempt of either handler, streaming or not, whatever the backend answers and the client's
-- connection does: if its result says that the response has not started, nothing of a body was sent.
pub run_attempt-untouched :
    (libs : Libs) (lines : LineLib) (chunks : ChunkLib) (h : Handler) (stream : Bool)
    (id body : String) (world : World) (backend : Option Backend) (srv : ServerInfo) (w : Client)
    (tail : LiveTail)
    → (run_attempt libs lines chunks h stream id body world backend srv w
        tail).run.result.response_started
      ≡ false
    → (run_attempt libs lines chunks h stream id body world backend srv w tail).run.client.written
      ≡ w.written
run_attempt-untouched libs lines chunks h stream id body world backend srv w tail not_started =
    run_attempt-Honest libs lines chunks h stream id body world backend srv w tail not_started
