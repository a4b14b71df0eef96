-- ===== src/Api/Translate/Stream/Events.antt =====
-- The Anthropic event stream that the translator makes: the events in their order.
use proxy_lm_go.Common.{
  ℕ, zero, suc, String, ◌==◌, ◌≡◌, refl, ap, ◌∙◌, inl, inr, true, false, Option, none, some, List,
  [], ◌∷◌, ◌++◌, map, append-nil, append_assoc, Bool-cases, arith,
}
use proxy_lm_go.Api.Json.{Fields, JsonLib}
use proxy_lm_go.Api.Translate.Stream.{LineLib, SseEvent}
use proxy_lm_go.Api.Translate.Stream.ToAnthropic.{
  OaiToAnthropic, new_oai_to_anthropic, Upstream, skipped, end_mark, chunk, read_upstream,
  count_usage, message_start, begin_message, delta_content, content_block_start,
  content_block_delta, emit_content, oai_step, oai_process_line, content_block_stop, message_delta,
  message_stop, oai_finish,
}

-- `ProcessLine` on each line in turn.
unfoldable pub oai_feed :
    LineLib → JsonLib → OaiToAnthropic → List String → OaiToAnthropic × List SseEvent
oai_feed lines lib t [] = (t, [])
oai_feed lines lib t (line ∷ rest) =
    let stepped = oai_process_line lines lib t line in
    let fed = oai_feed lines lib stepped.0 rest in (fed.0, stepped.1 ++ fed.1)

abbrev pub names : List SseEvent → List String
names = map (λ e. e.event)

abbrev pub deltas : ℕ → List String
deltas zero = []
deltas (suc n) = "content_block_delta" ∷ deltas n

-- What a client may see between the start and the end of a message.
pub data Body : List String → Type 0 where
  no_block : Body []
  one_block : (n : ℕ) → Body ("content_block_start" ∷ (deltas n ++ ("content_block_stop" ∷ [])))

-- A stream of the Messages API: a message with at most one content block, opened, filled and closed.
pub data Message : List String → Type 0 where
  message :
      {body : List String}
      → Body body
      → Message ("message_start" ∷ (body ++ ("message_delta" ∷ "message_stop" ∷ [])))

-- What was sent so far, in each state of the translator.
data Sent (t : OaiToAnthropic) : List String → Type 0 where
  nothing : t.started ≡ false → t.block_started ≡ false → Sent t []
  opened : t.started ≡ true → t.block_started ≡ false → Sent t ("message_start" ∷ [])
  filled :
      (n : ℕ)
      → t.started ≡ true
      → t.block_started ≡ true
      → Sent t ("message_start" ∷ "content_block_start" ∷ deltas n)

names-append : (xs ys : List SseEvent) → names (xs ++ ys) ≡ names xs ++ names ys
names-append [] ys = refl
names-append (x ∷ xs) ys = ap (◌∷◌ x.event) (names-append xs ys)

deltas-suc : (n : ℕ) → deltas n ++ ("content_block_delta" ∷ []) ≡ deltas (suc n)
deltas-suc zero = refl
deltas-suc (suc n) = ap (◌∷◌ "content_block_delta") (deltas-suc n)

-- After a chunk the message is open.
begin-Sent :
    (t : OaiToAnthropic) (m : Fields) {sent : List String}
    → Sent t sent
    → Sent (begin_message t m).0 (sent ++ names (begin_message t m).1)
      × ((begin_message t m).0.started ≡ true)
unfolding begin_message message_start
begin-Sent t m (nothing s b) = simp s (opened refl b, refl)
begin-Sent t m (opened s b) = simp s (opened s b, refl)
begin-Sent t m (filled n s b) = simp (s, append-nil) (filled n s b, refl)

emit-Sent :
    (t : OaiToAnthropic) (o : Option String) {sent : List String}
    → Sent t sent
    → t.started ≡ true
    → Sent (emit_content t o).0 (sent ++ names (emit_content t o).1)
unfolding emit_content content_block_start content_block_delta
emit-Sent t none h s = rw append-nil h
emit-Sent t (some text) (nothing n b) s = cc
emit-Sent t (some text) (opened _ b) s = elim (Bool-cases (text == "")) [
  | inl e ↦ simp (b, e) (filled 0 s refl)
  | inr e ↦ simp (b, e) (filled 1 s refl)
]
emit-Sent t (some text) (filled n _ b) s = elim (Bool-cases (text == "")) [
  | inl e ↦ simp (b, e, append-nil) (filled n s refl)
  | inr e ↦ simp (b, e, deltas-suc) (filled (suc n) s refl)
]

-- Neither the usage nor the end mark changes what was sent.
same-Sent :
    (t t' : OaiToAnthropic) {sent : List String}
    → t'.started ≡ t.started
    → t'.block_started ≡ t.block_started
    → Sent t sent
    → Sent t' sent
same-Sent t t' p q (nothing s b) = nothing (p ∙ s) (q ∙ b)
same-Sent t t' p q (opened s b) = opened (p ∙ s) (q ∙ b)
same-Sent t t' p q (filled n s b) = filled n (p ∙ s) (q ∙ b)

count-Sent :
    (t : OaiToAnthropic) (m : Fields) {sent : List String}
    → Sent t sent
    → Sent (count_usage t m) sent
unfolding count_usage
count-Sent t m h = same-Sent t _ (ground arith) (ground arith) h

step-Sent :
    (t : OaiToAnthropic) (u : Upstream) {sent : List String}
    → Sent t sent
    → Sent (oai_step t u).0 (sent ++ names (oai_step t u).1)
unfolding oai_step
step-Sent t skipped h = rw append-nil h
step-Sent t end_mark h = rw append-nil (same-Sent t _ refl refl h)
step-Sent t (chunk m) {sent} h =
    let (b, s) = begin-Sent (count_usage t m) m (count-Sent t m h) in
    let begun = begin_message (count_usage t m) m in
    rw
      (
        names-append (begun.1) (emit_content (begun.0) (delta_content m)).1,
        ← append_assoc sent (names begun.1) (names (emit_content (begun.0) (delta_content m)).1),
      )
      (emit-Sent (begun.0) (delta_content m) b s)

feed-Sent :
    (lines : LineLib) (lib : JsonLib) (t : OaiToAnthropic) (ls : List String) {sent : List String}
    → Sent t sent
    → Sent (oai_feed lines lib t ls).0 (sent ++ names (oai_feed lines lib t ls).1)
unfolding oai_feed oai_process_line
feed-Sent lines lib t [] h = rw append-nil h
feed-Sent lines lib t (l ∷ ls) {sent} h =
    let stepped = oai_step t (read_upstream lines lib l) in
    rw
      (
        names-append (stepped.1) (oai_feed lines lib stepped.0 ls).1,
        ← append_assoc sent (names stepped.1) (names (oai_feed lines lib stepped.0 ls).1),
      )
      (feed-Sent lines lib stepped.0 ls (step-Sent t (read_upstream lines lib l) h))

finish-Message :
    (t : OaiToAnthropic) {sent : List String}
    → t.started ≡ true
    → Sent t sent
    → Message (sent ++ names (oai_finish t))
unfolding oai_finish content_block_stop message_delta message_stop
finish-Message t s (nothing n b) = cc
finish-Message t s (opened _ b) = simp b (message no_block)
finish-Message t s (filled n _ b) = simp b (
    rw
      (← append_assoc (deltas n) ("content_block_stop" ∷ [])
        ("message_delta" ∷ "message_stop" ∷ []))
      (message (one_block n)))

-- Whatever lines come from the upstream: if the translator has started a message, what it sent and what
-- `Finish` sends are one message with at most one content block, opened, filled and closed in order.
pub oai_feed-Message :
    (lines : LineLib) (lib : JsonLib) (model id : String) (ls : List String)
    → (oai_feed lines lib (new_oai_to_anthropic model id) ls).0.started ≡ true
    → (let fed = oai_feed lines lib (new_oai_to_anthropic model id) ls in
        Message (names (fed.1 ++ oai_finish fed.0)))
unfolding new_oai_to_anthropic
oai_feed-Message lines lib model id ls s =
    rw (names-append _ _)
      (finish-Message _ s (feed-Sent lines lib (new_oai_to_anthropic model id) ls (start model id)))
  where
    start : (model id : String) → Sent (new_oai_to_anthropic model id) []
    start model id = nothing refl refl
