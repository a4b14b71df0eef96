-- ===== src/Api/Translate/Stream/Effects.antt =====
-- What an event of an Anthropic stream does to the translator, and how a stream for an OpenAI client ends.
use proxy_lm_go.Common.{
  String, ◌==◌, ◌≡◌, refl, ◌∙◌, inl, inr, true, false, Option, none, some, List, [], ◌∷◌, ◌++◌, All,
  All-append, append_assoc, if◌then◌else◌, Bool-cases,
}
use proxy_lm_go.Api.Json.{Fields, get_any, as_string, as_object, JsonLib}
use proxy_lm_go.Api.Translate.{parse_map}
use proxy_lm_go.Api.Translate.Stream.{LineLib}
use proxy_lm_go.Api.Translate.Stream.ToOpenai.{
  AnthropicToOai, OaiLine, chunk_line, done_line, make_oai_chunk, AnthropicLine, ignored, named,
  payload_text, read_anthropic, anthropic_step, on_payload, anthropic_process_line,
  anthropic_finish, anthropic_event, with_model, with_prompt, read_message, with_output,
  open_message, delta_text, on_message_start, on_block_delta, on_message_delta,
}

abbrev pub IsChunk : OaiLine → Type 0
IsChunk (chunk_line j) = Unit
IsChunk done_line = ⊥

-- The fields that the reading of a payload leaves alone.
pub record Kept (t u : AnthropicToOai) : Type 0 where
  pub pending : u.pending_event ≡ t.pending_event
  pub done : u.done ≡ t.done

-- An event makes chunks, or it ends the stream.
pub data Effect (t : AnthropicToOai) : AnthropicToOai × List OaiLine → Type 0 where
  spoke :
      (u : AnthropicToOai) (outs : List OaiLine) → Kept t u → All IsChunk outs → Effect t (u, outs)
  stopped : Effect t (record t { done = true }, done_line ∷ [])

same : {t : AnthropicToOai} → Kept t t
same = record { pending = refl; done = refl }

with_prompt-Kept : (t : AnthropicToOai) (o : Option Fields) → Kept t (with_prompt t o)
with_prompt-Kept t none = same
with_prompt-Kept t (some u) = record { pending = refl; done = refl }

with_model-Kept : (t : AnthropicToOai) (o : Option String) → Kept t (with_model t o)
with_model-Kept t none = same
with_model-Kept t (some m) = record { pending = refl; done = refl }

with_output-Kept : (t : AnthropicToOai) (o : Option Fields) → Kept t (with_output t o)
with_output-Kept t none = same
with_output-Kept t (some u) = record { pending = refl; done = refl }

after : {t u v : AnthropicToOai} → Kept t u → Kept u v → Kept t v
after a b = record { pending = b.pending ∙ a.pending; done = b.done ∙ a.done }

read_message-Kept : (t : AnthropicToOai) (o : Option Fields) → Kept t (read_message t o)
read_message-Kept t none = same
read_message-Kept t (some m) =
    after (with_model-Kept t (as_string (get_any m "model")))
      (with_prompt-Kept _ (as_object (get_any m "usage")))

open-Effect : (t u : AnthropicToOai) → Kept t u → Effect t (open_message u)
unfolding make_oai_chunk
open-Effect t u k = elim (Bool-cases u.started) [
  | inl e ↦ simp e (spoke u [] k tt)
  | inr e ↦ simp e (spoke _ _ (record { pending = k.pending; done = k.done }) (tt, tt))
]

delta-Effect : (t : AnthropicToOai) (p : Fields) → Effect t (on_block_delta t p)
unfolding on_block_delta make_oai_chunk
delta-Effect t p = elim (Bool-cases (delta_text (as_object (get_any p "delta")) == "")) [
  | inl e ↦ rw e (spoke t [] same tt)
  | inr e ↦ rw e (spoke t _ same (tt, tt))
]

message_delta-Effect : (t : AnthropicToOai) (p : Fields) → Effect t (on_message_delta t p)
unfolding on_message_delta make_oai_chunk
message_delta-Effect t p = spoke _ _ (with_output-Kept t (as_object (get_any p "usage"))) (tt, tt)

pub anthropic_event-Effect :
    (t : AnthropicToOai) (event : String) (p : Fields) → Effect t (anthropic_event t event p)
unfolding anthropic_event on_message_start
anthropic_event-Effect t event p =
    let message = as_object (get_any p "message") in
    elim (Bool-cases (event == "message_start")) [
      | inl e ↦ rw e (open-Effect t (read_message t message) (read_message-Kept t message))
      | inr e ↦ elim (Bool-cases (event == "content_block_delta")) [
        | inl f ↦ rw (e, f) (delta-Effect t p)
        | inr f ↦ elim (Bool-cases (event == "message_delta")) [
          | inl g ↦ rw (e, f, g) (message_delta-Effect t p)
          | inr g ↦ elim (Bool-cases (event == "message_stop")) [
            | inl h ↦ rw (e, f, g, h) stopped
            | inr h ↦ rw (e, f, g, h) (spoke t [] same tt)
          ]
        ]
      ]
    ]

pub Effect-pending :
    {t : AnthropicToOai} {r : AnthropicToOai × List OaiLine}
    → Effect t r
    → r.0.pending_event ≡ t.pending_event
Effect-pending (spoke u outs k c) = k.pending
Effect-pending stopped = refl

-- What a line does to a translator that is not done.
pub data LineEffect : AnthropicToOai × List OaiLine → Type 0 where
  goes_on :
      (u : AnthropicToOai) (outs : List OaiLine)
      → u.done ≡ false
      → All IsChunk outs
      → LineEffect (u, outs)
  ends : (u : AnthropicToOai) → u.done ≡ true → LineEffect (u, done_line ∷ [])

payload-LineEffect :
    (t : AnthropicToOai) (event : String) (o : Option Fields)
    → t.done ≡ false
    → LineEffect (on_payload t event o)
payload-LineEffect t event none d = goes_on t [] d tt
payload-LineEffect t event (some p) d = from (anthropic_event-Effect t event p)
  where
    from : {r : AnthropicToOai × List OaiLine} → Effect t r → LineEffect r
    from (spoke u outs k c) = goes_on u outs (k.done ∙ d) c
    from stopped = ends _ refl

step-LineEffect :
    (lib : JsonLib) (t : AnthropicToOai) (l : AnthropicLine)
    → t.done ≡ false
    → LineEffect (anthropic_step lib t l)
unfolding anthropic_step
step-LineEffect lib t ignored d = goes_on t [] d tt
step-LineEffect lib t (named event) d = goes_on _ [] d tt
step-LineEffect lib t (payload_text text) d =
    payload-LineEffect (record t { pending_event = "" }) t.pending_event (parse_map lib text) d

-- `ProcessLine` on each line in turn, until the translator is done.
unfoldable pub anthropic_until :
    LineLib → JsonLib → AnthropicToOai → List String → AnthropicToOai × List OaiLine
anthropic_until lines lib t [] = (t, [])
anthropic_until lines lib t (line ∷ ls) =
    let out = anthropic_process_line lines lib t line in
    let rest = anthropic_until lines lib out.0 ls in
    if out.0.done then out else (rest.0, out.1 ++ rest.1)

-- A stream for an OpenAI client: chunks, and then one end mark.
pub data Closed : List OaiLine → Type 0 where
  closed : (chunks : List OaiLine) → All IsChunk chunks → Closed (chunks ++ (done_line ∷ []))

more-Closed :
    (outs : List OaiLine) → All IsChunk outs → {ls : List OaiLine} → Closed ls → Closed (outs ++ ls)
more-Closed outs c (closed chunks d) =
    rw (← append_assoc outs chunks (done_line ∷ []))
      (closed (outs ++ chunks) (All-append IsChunk outs chunks c d))

-- Whatever lines an Anthropic backend sends, a translator that is not done makes a stream of chunks
-- that is closed by one end mark, by `message_stop` or by `Finish`, and nothing follows it.
pub anthropic_until-Closed :
    (lines : LineLib) (lib : JsonLib) (t : AnthropicToOai) (ls : List String)
    → t.done ≡ false
    → (let made = anthropic_until lines lib t ls in Closed (made.1 ++ anthropic_finish made.0))
unfolding anthropic_until anthropic_finish anthropic_process_line
anthropic_until-Closed lines lib t [] d = simp d (closed [] tt)
anthropic_until-Closed lines lib t (l ∷ ls) d =
    from (step-LineEffect lib t (read_anthropic lines l) d)
      (λ u e. anthropic_until-Closed lines lib u ls e)
  where
    from :
        {r : AnthropicToOai × List OaiLine}
        → LineEffect r
        → ((u : AnthropicToOai)
            → u.done ≡ false
            → (let made = anthropic_until lines lib u ls in
                Closed (made.1 ++ anthropic_finish made.0)))
        → (let rest = anthropic_until lines lib r.0 ls in
            let made = (if r.0.done then r else (rest.0, r.1 ++ rest.1)) in
            Closed (made.1 ++ anthropic_finish made.0))
    from (goes_on u outs n c) rest =
        let made = anthropic_until lines lib u ls in
        simp n
          (rw (append_assoc outs made.1 (anthropic_finish made.0)) (more-Closed outs c (rest u n)))
    from (ends u e) rest = simp e (closed [] tt)
