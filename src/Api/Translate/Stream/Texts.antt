-- ===== src/Api/Translate/Stream/Texts.antt =====
-- internal/api/translate/stream.go: the text of an answer in the lines of both stream translators.
use proxy_lm_go.Common.{
  String, ◌==◌, ◌≡◌, refl, sym, ap, subst, ◌∙◌, eq_iff, inl, inr, true, Option, none, some, List,
  [], ◌∷◌, ◌++◌, append-nil, append_assoc, if◌then◌else◌, Bool-cases,
}
use proxy_lm_go.Api.Json.{
  obj, str, str, Fields, no_fields, field, of_list, to_list, get, get_any, as_string, as_object,
  JsonLib,
}
use proxy_lm_go.Api.Translate.Stream.{LineLib, SseEvent}
use proxy_lm_go.Api.Translate.Stream.ToAnthropic.{
  OaiToAnthropic, Upstream, skipped, end_mark, chunk, read_upstream, count_usage, message_start,
  begin_message, delta_content, content_block_start, content_block_delta, emit_content, oai_step,
  oai_process_line,
}
use proxy_lm_go.Api.Translate.Stream.ToOpenai.{
  AnthropicToOai, OaiFinish, OaiLine, chunk_line, delta_text, make_oai_chunk, anthropic_event,
  open_message, on_message_start, on_block_delta, on_message_delta,
}
use proxy_lm_go.Api.Translate.Stream.Events.{oai_feed}

abbrev pub nonempty : String → List String
nonempty s = if s == "" then [] else s ∷ []

abbrev pub text_part : Option String → List String
text_part none = []
text_part (some s) = nonempty s

abbrev pub upstream_text : Upstream → List String
upstream_text (chunk m) = text_part (delta_content m)
upstream_text _ = []

-- The parts of the text that an OpenAI backend sends.
unfoldable pub upstream_texts : LineLib → JsonLib → List String → List String
upstream_texts lines lib [] = []
upstream_texts lines lib (l ∷ ls) =
    upstream_text (read_upstream lines lib l) ++ upstream_texts lines lib ls

-- The parts of the text in events of the Messages API.
unfoldable pub event_text : SseEvent → List String
event_text e =
    if e.event == "content_block_delta"
    then nonempty (delta_text (as_object (get_any e.payload "delta")))
    else []

unfoldable pub event_texts : List SseEvent → List String
event_texts [] = []
event_texts (e ∷ es) = event_text e ++ event_texts es

event_texts-append :
    (xs ys : List SseEvent) → event_texts (xs ++ ys) ≡ event_texts xs ++ event_texts ys
unfolding event_texts
event_texts-append [] ys = refl
event_texts-append (x ∷ xs) ys =
    ap (λ l. event_text x ++ l) (event_texts-append xs ys)
    ∙ sym (append_assoc (event_text x) (event_texts xs) (event_texts ys))

begin-texts : (t : OaiToAnthropic) (m : Fields) → event_texts (begin_message t m).1 ≡ []
unfolding begin_message message_start event_texts event_text
begin-texts t m = elim (Bool-cases t.started) [ inl e ↦ simp e | inr e ↦ simp e ]

emit-texts :
    (t : OaiToAnthropic) (o : Option String) → event_texts (emit_content t o).1 ≡ text_part o
unfolding emit_content content_block_start content_block_delta event_texts event_text get
emit-texts t none = refl
emit-texts t (some text) = elim (Bool-cases t.block_started) [
  | inl b ↦ elim (Bool-cases (text == "")) [ inl e ↦ simp (b, e) | inr e ↦ simp (b, e) ]
  | inr b ↦ elim (Bool-cases (text == "")) [ inl e ↦ simp (b, e) | inr e ↦ simp (b, e) ]
]

step-texts : (t : OaiToAnthropic) (u : Upstream) → event_texts (oai_step t u).1 ≡ upstream_text u
unfolding oai_step event_texts
step-texts t skipped = refl
step-texts t end_mark = refl
step-texts t (chunk m) =
    let begun = begin_message (count_usage t m) m in
    event_texts-append begun.1 (emit_content begun.0 (delta_content m)).1
    ∙ ap (λ l. l ++ event_texts (emit_content begun.0 (delta_content m)).1)
        (begin-texts (count_usage t m) m)
    ∙ emit-texts begun.0 (delta_content m)

-- From every state, the text in the events that are sent is the text of the lines that came, part by
-- part and in order; parts that are empty are left out.
pub oai_feed-texts :
    (lines : LineLib) (lib : JsonLib) (t : OaiToAnthropic) (ls : List String)
    → event_texts (oai_feed lines lib t ls).1 ≡ upstream_texts lines lib ls
unfolding oai_feed upstream_texts oai_process_line event_texts
oai_feed-texts lines lib t [] = refl
oai_feed-texts lines lib t (l ∷ ls) =
    let stepped = oai_step t (read_upstream lines lib l) in
    event_texts-append stepped.1 (oai_feed lines lib stepped.0 ls).1
    ∙ ap (λ x. x ++ event_texts (oai_feed lines lib stepped.0 ls).1)
        (step-texts t (read_upstream lines lib l))
    ∙ ap (λ x. upstream_text (read_upstream lines lib l) ++ x)
        (oai_feed-texts lines lib stepped.0 ls)

-- What a client reads of a line of the OpenAI protocol.
abbrev pub line_text : OaiLine → List String
line_text (chunk_line (obj m)) = text_part (delta_content m)
line_text _ = []

unfoldable pub line_texts : List OaiLine → List String
line_texts [] = []
line_texts (l ∷ ls) = line_text l ++ line_texts ls

pub line_texts-append :
    (xs ys : List OaiLine) → line_texts (xs ++ ys) ≡ line_texts xs ++ line_texts ys
unfolding line_texts
line_texts-append [] ys = refl
line_texts-append (x ∷ xs) ys =
    ap (λ l. line_text x ++ l) (line_texts-append xs ys)
    ∙ sym (append_assoc (line_text x) (line_texts xs) (line_texts ys))

chunk-text :
    (t : AnthropicToOai) (delta : Fields) (finish : Option OaiFinish)
    → line_text (make_oai_chunk t delta finish) ≡ text_part (as_string (get_any delta "content"))
unfolding make_oai_chunk delta_content get to_list of_list
chunk-text t delta none = refl
chunk-text t delta (some f) = refl

chunk-texts :
    (t : AnthropicToOai) (delta : Fields) (finish : Option OaiFinish)
    → line_texts (make_oai_chunk t delta finish ∷ [])
      ≡ text_part (as_string (get_any delta "content"))
unfolding line_texts
chunk-texts t delta finish =
    append-nil (line_text (make_oai_chunk t delta finish)) ∙ chunk-text t delta finish

open-texts : (t : AnthropicToOai) → line_texts (open_message t).1 ≡ []
unfolding line_texts get
open-texts t = elim (Bool-cases t.started) [
  | inl e ↦ simp e
  | inr e ↦
      simp e
        (chunk-texts (record t { started = true }) (field "role" (str "assistant") no_fields) none)
]

delta-texts :
    (t : AnthropicToOai) (p : Fields)
    → line_texts (on_block_delta t p).1 ≡ nonempty (delta_text (as_object (get_any p "delta")))
unfolding on_block_delta line_texts get
delta-texts t p =
    let text = delta_text (as_object (get_any p "delta")) in
    elim (Bool-cases (text == "")) [
      | inl e ↦ simp e
      | inr e ↦ simp e (chunk-texts t (field "content" (str text) no_fields) none ∙ simp e)
    ]

message_delta-texts : (t : AnthropicToOai) (p : Fields) → line_texts (on_message_delta t p).1 ≡ []
unfolding on_message_delta get
message_delta-texts t p = chunk-texts (on_message_delta t p).0 no_fields (some _)

abbrev at_literal {ℓ} :
    (P : String → Type ℓ) (lit event : String) → event == lit ≡ true → P lit → P event
at_literal P lit event e x = subst P (sym ((eq_iff event lit).0 e)) x

pub event-texts :
    (t : AnthropicToOai) (event : String) (p : Fields)
    → line_texts (anthropic_event t event p).1 ≡ event_text (record { event = event; payload = p })
unfolding anthropic_event event_text line_texts on_message_start
event-texts t event p =
    let Same : String → Type 0 = λ name.
      line_texts (anthropic_event t name p).1 ≡ event_text (record { event = name; payload = p }) in
    elim (Bool-cases (event == "message_start")) [
      | inl e ↦ at_literal Same "message_start" event e (open-texts _)
      | inr e ↦ elim (Bool-cases (event == "content_block_delta")) [
        | inl f ↦ at_literal Same "content_block_delta" event f (delta-texts t p)
        | inr f ↦ elim (Bool-cases (event == "message_delta")) [
          | inl g ↦ at_literal Same "message_delta" event g (message_delta-texts t p)
          | inr g ↦ elim (Bool-cases (event == "message_stop")) [
            | inl h ↦ at_literal Same "message_stop" event h refl
            | inr h ↦ simp (e, f, g, h)
          ]
        ]
      ]
    ]

-- The events one after another through the other translator.
unfoldable pub relay : AnthropicToOai → List SseEvent → AnthropicToOai × List OaiLine
relay t [] = (t, [])
relay t (e ∷ es) =
    let stepped = anthropic_event t e.event e.payload in
    let rest = relay stepped.0 es in (rest.0, stepped.1 ++ rest.1)

relay-texts : (t : AnthropicToOai) (es : List SseEvent) → line_texts (relay t es).1 ≡ event_texts es
unfolding relay line_texts event_texts
relay-texts t [] = refl
relay-texts t (e ∷ es) =
    let stepped = anthropic_event t e.event e.payload in
    line_texts-append stepped.1 (relay stepped.0 es).1
    ∙ ap (λ x. x ++ line_texts (relay stepped.0 es).1) (event-texts t e.event e.payload)
    ∙ ap (λ x. event_text e ++ x) (relay-texts stepped.0 es)

-- The text survives both translators: what an OpenAI client reads, after a backend's OpenAI stream
-- has become events and the events have become OpenAI lines again, is the text of the backend's
-- lines, part by part and in order, without empty parts.
pub relay-oai_feed :
    (lines : LineLib) (lib : JsonLib) (back : AnthropicToOai) (t : OaiToAnthropic)
    (ls : List String)
    → line_texts (relay back (oai_feed lines lib t ls).1).1 ≡ upstream_texts lines lib ls
relay-oai_feed lines lib back t ls =
    relay-texts back (oai_feed lines lib t ls).1 ∙ oai_feed-texts lines lib t ls
