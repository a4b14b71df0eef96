-- ===== src/Api/Handlers/Translated/Protocol.antt =====
-- The streams that clients of both protocols get from backends of the other one.
use proxy_lm_go.Common.{
  ℕ, String, ◌≡◌, refl, sym, ap, append-nil, ◌∙◌, inl, inr, true, Bool-cases, List, [], ◌∷◌, ◌++◌,
  map,
}
use proxy_lm_go.Api.Json.{JsonLib}
use proxy_lm_go.Api.Translate.Stream.{LineLib, SseEvent}
use proxy_lm_go.Api.Translate.Stream.ToAnthropic.{
  OaiToAnthropic, new_oai_to_anthropic, oai_process_line, oai_finish,
}
use proxy_lm_go.Api.Translate.Stream.ToOpenai.{
  AnthropicToOai, OaiLine, new_anthropic_to_oai, anthropic_process_line, anthropic_finish,
}
use proxy_lm_go.Api.Translate.Stream.Effects.{anthropic_until, Closed, anthropic_until-Closed}
use proxy_lm_go.Api.Translate.Stream.Events.{oai_feed, names, Message, oai_feed-Message}
use proxy_lm_go.Api.Handlers.{Client, World}
use proxy_lm_go.Api.Handlers.Translated.{
  to_openai, to_anthropic, sse_text, oai_text, event_end, translate_stream,
}
use proxy_lm_go.Api.Handlers.Translated.Complete.{Quiet, fed_until, translate_stream_complete}

map-append : {A B : Type 0} (f : A → B) (xs ys : List A) → map f (xs ++ ys) ≡ map f xs ++ map f ys
map-append f [] ys = refl
map-append f (x ∷ xs) ys = ap (◌∷◌ (f x)) (map-append f xs ys)

fed-anthropic_until :
    (lines : LineLib) (lib : JsonLib) (t : AnthropicToOai) (ls : List String)
    → fed_until (to_openai lines lib) t ls
      ≡ ((anthropic_until lines lib t ls).0, map (oai_text lib) (anthropic_until lines lib t ls).1)
unfolding anthropic_until
fed-anthropic_until lines lib t [] = refl
fed-anthropic_until lines lib t (l ∷ ls) =
    let out = anthropic_process_line lines lib t l in
    let rest = anthropic_until lines lib out.0 ls in
    elim (Bool-cases out.0.done) [
      | inl e ↦ simp e
      | inr e ↦ simp e (
          ap (λ r. (r.0, map (oai_text lib) out.1 ++ r.1)) (fed-anthropic_until lines lib out.0 ls)
          ∙ ap (λ x. (rest.0, x)) (sym (map-append (oai_text lib) out.1 rest.1)))
    ]

-- If every write succeeds and the request is not cancelled, a client of the OpenAI protocol gets from
-- an Anthropic backend, whatever lines that sends, chunks and then one end mark, with nothing after it.
pub openai_stream-Closed :
    (lines : LineLib) (lib : JsonLib) (world : World) (status : ℕ) (id : String) (w : Client)
    (ls : List String)
    → Quiet world
    → (outs : List OaiLine) × Closed outs
      × ((translate_stream
            (to_openai lines lib)
            world
            status
            w
            (new_anthropic_to_oai id)
            ls).0.written
          ≡ w.written ++ map event_end (map (oai_text lib) outs))
unfolding new_anthropic_to_oai
openai_stream-Closed lines lib world status id w ls quiet =
    let t = new_anthropic_to_oai id in
    let made = anthropic_until lines lib t ls in
    (
      made.1 ++ anthropic_finish made.0,
      anthropic_until-Closed lines lib t ls refl,
      (translate_stream_complete (to_openai lines lib) world quiet status w t ls).0
          ∙ ap
              (λ fed.
                w.written ++ map event_end (fed.1 ++ map (oai_text lib) (anthropic_finish fed.0)))
              (fed-anthropic_until lines lib t ls)
          ∙ ap (λ x. w.written ++ map event_end x)
              (sym (map-append (oai_text lib) made.1 (anthropic_finish made.0))),
    )

-- Until it is done, the other translator reads some of the lines.
fed-oai_feed :
    (lines : LineLib) (lib : JsonLib) (t : OaiToAnthropic) (ls : List String)
    → (read : List String) × (fed_until (to_anthropic lines lib) t ls
        ≡ ((oai_feed lines lib t read).0, map (sse_text lib) (oai_feed lines lib t read).1))
unfolding oai_feed
fed-oai_feed lines lib t [] = ([], refl)
fed-oai_feed lines lib t (l ∷ ls) =
    let out = oai_process_line lines lib t l in
    let rest = fed-oai_feed lines lib out.0 ls in
    elim (Bool-cases out.0.done) [
      | inl e ↦ (l ∷ [], simp e (ap (λ x. (out.0, map (sse_text lib) x)) (sym (append-nil out.1))))
      | inr e ↦ (
        l ∷ rest.0,
        simp e (
            ap (λ r. (r.0, map (sse_text lib) out.1 ++ r.1)) rest.1
            ∙ ap (λ x. ((oai_feed lines lib out.0 rest.0).0, x))
                (sym (map-append (sse_text lib) out.1 (oai_feed lines lib out.0 rest.0).1))),
      )
    ]

-- If every write succeeds, the request is not cancelled and the lines of an OpenAI backend start a
-- message, a client of the Messages API gets one message: its start, at most one content block, opened,
-- filled and closed in order, and its two closing events.
pub anthropic_stream-Message :
    (lines : LineLib) (lib : JsonLib) (world : World) (status : ℕ) (id model : String) (w : Client)
    (ls : List String)
    → Quiet world
    → (fed_until (to_anthropic lines lib) (new_oai_to_anthropic model id) ls).0.started ≡ true
    → (events : List SseEvent) × Message (names events)
      × ((translate_stream
            (to_anthropic lines lib)
            world
            status
            w
            (new_oai_to_anthropic model id)
            ls).0.written
          ≡ w.written ++ map event_end (map (sse_text lib) events))
anthropic_stream-Message lines lib world status id model w ls quiet started =
    let t = new_oai_to_anthropic model id in
    let read = fed-oai_feed lines lib t ls in
    let made = oai_feed lines lib t read.0 in
    (
      made.1 ++ oai_finish made.0,
      oai_feed-Message lines lib model id read.0 (ap (λ fed. fed.0.started) (sym read.1) ∙ started),
      (translate_stream_complete (to_anthropic lines lib) world quiet status w t ls).0
          ∙ ap (λ fed. w.written ++ map event_end (fed.1 ++ map (sse_text lib) (oai_finish fed.0)))
              read.1
          ∙ ap (λ x. w.written ++ map event_end x)
              (sym (map-append (sse_text lib) made.1 (oai_finish made.0))),
    )
