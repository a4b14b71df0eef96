-- ===== src/Api/Translate/Stream/Spoken.antt =====
-- internal/api/translate/stream.go: the text in the lines of an Anthropic stream and in those for an OpenAI
-- client.
use proxy_lm_go.Common.{String, ◌≡◌, refl, ap, ◌∙◌, Option, none, some, List, [], ◌∷◌, ◌++◌}
use proxy_lm_go.Api.Json.{Fields, JsonLib}
use proxy_lm_go.Api.Translate.{parse_map}
use proxy_lm_go.Api.Translate.Stream.{LineLib}
use proxy_lm_go.Api.Translate.Stream.ToOpenai.{
  AnthropicToOai, OaiLine, AnthropicLine, ignored, named, payload_text, read_anthropic,
  anthropic_step, on_payload, anthropic_process_line, anthropic_event,
}
use proxy_lm_go.Api.Translate.Stream.Effects.{Effect-pending, anthropic_event-Effect}
use proxy_lm_go.Api.Translate.Stream.Texts.{event_text, line_texts, line_texts-append, event-texts}

-- What the lines of an Anthropic stream say, given the name that the last `event:` line announced.
abbrev heard : String → Option Fields → List String
heard event none = []
heard event (some p) = event_text (record { event = event; payload = p })

-- The name that is kept for the next data line.
abbrev pending_after : String → AnthropicLine → String
pending_after event ignored = event
pending_after event (named name) = name
pending_after event (payload_text text) = ""

abbrev heard_line : JsonLib → String → AnthropicLine → List String
heard_line lib event (payload_text text) = heard event (parse_map lib text)
heard_line lib event _ = []

unfoldable pub spoken_texts : LineLib → JsonLib → String → List String → List String
spoken_texts lines lib event [] = []
spoken_texts lines lib event (l ∷ ls) =
    heard_line lib event (read_anthropic lines l)
    ++ spoken_texts lines lib (pending_after event (read_anthropic lines l)) ls

-- `ProcessLine` on each line in turn.
unfoldable pub anthropic_feed :
    LineLib → JsonLib → AnthropicToOai → List String → AnthropicToOai × List OaiLine
anthropic_feed lines lib t [] = (t, [])
anthropic_feed lines lib t (line ∷ rest) =
    let stepped = anthropic_process_line lines lib t line in
    let fed = anthropic_feed lines lib stepped.0 rest in (fed.0, stepped.1 ++ fed.1)

anthropic_event-pending :
    (t : AnthropicToOai) (event : String) (p : Fields)
    → (anthropic_event t event p).0.pending_event ≡ t.pending_event
anthropic_event-pending t event p = Effect-pending (anthropic_event-Effect t event p)

on_payload-texts :
    (t : AnthropicToOai) (event : String) (o : Option Fields)
    → line_texts (on_payload t event o).1 ≡ heard event o
unfolding line_texts
on_payload-texts t event none = refl
on_payload-texts t event (some p) = event-texts t event p

on_payload-pending :
    (t : AnthropicToOai) (event : String) (o : Option Fields)
    → (on_payload t event o).0.pending_event ≡ t.pending_event
on_payload-pending t event none = refl
on_payload-pending t event (some p) = anthropic_event-pending t event p

anthropic_step-texts :
    (lib : JsonLib) (t : AnthropicToOai) (l : AnthropicLine)
    → line_texts (anthropic_step lib t l).1 ≡ heard_line lib t.pending_event l
unfolding anthropic_step line_texts
anthropic_step-texts lib t ignored = refl
anthropic_step-texts lib t (named name) = refl
anthropic_step-texts lib t (payload_text text) =
    on_payload-texts (record t { pending_event = "" }) t.pending_event (parse_map lib text)

anthropic_step-pending :
    (lib : JsonLib) (t : AnthropicToOai) (l : AnthropicLine)
    → (anthropic_step lib t l).0.pending_event ≡ pending_after t.pending_event l
unfolding anthropic_step
anthropic_step-pending lib t ignored = refl
anthropic_step-pending lib t (named name) = refl
anthropic_step-pending lib t (payload_text text) =
    on_payload-pending (record t { pending_event = "" }) t.pending_event (parse_map lib text)

-- From every state, the text in the lines for an OpenAI client is the text of the deltas that the
-- lines of the Anthropic stream announce and carry, part by part and in order.
pub anthropic_feed-texts :
    (lines : LineLib) (lib : JsonLib) (t : AnthropicToOai) (ls : List String)
    → line_texts (anthropic_feed lines lib t ls).1 ≡ spoken_texts lines lib t.pending_event ls
unfolding anthropic_feed spoken_texts line_texts anthropic_process_line
anthropic_feed-texts lines lib t [] = refl
anthropic_feed-texts lines lib t (l ∷ ls) =
    let read = read_anthropic lines l in
    let stepped = anthropic_step lib t read in
    let fed = anthropic_feed lines lib stepped.0 ls in
    line_texts-append stepped.1 fed.1
    ∙ ap (λ x. x ++ line_texts fed.1) (anthropic_step-texts lib t read)
    ∙ ap (λ x. heard_line lib t.pending_event read ++ x)
        (anthropic_feed-texts lines lib stepped.0 ls)
    ∙ ap (λ ev. heard_line lib t.pending_event read ++ spoken_texts lines lib ev ls)
        (anthropic_step-pending lib t read)
