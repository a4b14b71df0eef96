-- ===== src/Api/Handlers/Passthrough/Lines.antt =====
-- Which lines a stream that passes as it is sends to the client.
use proxy_lm_go.Common.{
  ℕ, suc, String, ◌==◌, ◌≡◌, refl, sym, ap, ◌∙◌, inl, inr, ◌⊎◌, Bool, true, false, not, Bool-cases,
  Option, none, some, List, [], ◌∷◌, ◌++◌, map, append-nil, append_assoc, arith, length,
  if◌then◌else◌,
}
use proxy_lm_go.Core.Models.{Err, JobResult}
use proxy_lm_go.Api.Translate.Stream.{LineLib}
use proxy_lm_go.Api.Handlers.{
  put, World, Next, returns, breaks, continues, Ended, returned, broken, exhausted, Finished, scan,
  ended,
}
use proxy_lm_go.Api.Handlers.Passthrough.{
  ChunkLib, trim_data_prefix, PassState, sent, Reaction, react_openai, react_anthropic,
  check_context, after_line, write_line, pass_step,
}

-- The lines up to the first that stops the loop, and that one.
abbrev pub until : (String → Bool) → List String → List String
until stops [] = []
until stops (l ∷ ls) = if stops l then l ∷ [] else l ∷ until stops ls

-- A reaction looks at the line only to decide whether the loop stops, and leaves the client alone.
pub record Follows (lines : LineLib) (stops : String → Bool) (react : Reaction) : Type 0 where
  pub decides :
      (s : PassState) (l : String) → (react s (trim_data_prefix lines l)).0 ≡ not (stops l)
  pub client : (s : PassState) (o : Option String) → (react s o).1.client ≡ s.client
  pub started : (s : PassState) (o : Option String) → (react s o).1.started ≡ s.started

-- What one round may do.
data Round (stops : String → Bool) (s : PassState) (l : String) : Next PassState → Type 0 where
  not_sent :
      (r : JobResult) (e : Err)
      → r.err ≡ some e
      → r.response_started ≡ true
      → Round stops s l (returns s r)
  cancelled :
      (s' : PassState) (r : JobResult) (e : Err)
      → s'.client.written ≡ s.client.written ++ (ended l ∷ [])
      → r.err ≡ some e
      → r.response_started ≡ true
      → Round stops s l (returns s' r)
  stopped :
      (s' : PassState)
      → s'.client.written ≡ s.client.written ++ (ended l ∷ [])
      → s'.started ≡ true
      → stops l ≡ true
      → Round stops s l (breaks s')
  passed :
      (s' : PassState)
      → s'.client.written ≡ s.client.written ++ (ended l ∷ [])
      → s'.started ≡ true
      → stops l ≡ false
      → Round stops s l (continues s')

-- What the loop may do: it returns an error after the response has started, with some of the lines
-- sent, or it ends with all of them sent that it should send.
pub data Passed (stops : String → Bool) (s : PassState) (ls : List String)
    : PassState × Ended → Type 0 where
  failed :
      (s' : PassState) (r : JobResult) (e : Err) (done rest : List String)
      → ls ≡ done ++ rest
      → s'.client.written ≡ s.client.written ++ map ended done
      → r.err ≡ some e
      → r.response_started ≡ true
      → Passed stops s ls (s', returned r)
  ended_well :
      (s' : PassState) (how : Ended)
      → Finished how
      → s'.client.written ≡ s.client.written ++ map ended (until stops ls)
      → (s'.started ≡ true) ⊎ ((ls ≡ []) × (s'.started ≡ s.started))
      → Passed stops s ls (s', how)

module _ (lines : LineLib) (stops : String → Bool) (react : Reaction)
    (f : Follows lines stops react) (world : World) (status : ℕ) where
  checked-Round :
      (s s' : PassState) (l : String)
      → s'.client.written ≡ s.client.written ++ (ended l ∷ [])
      → s'.started ≡ true
      → stops l ≡ false
      → (o : Option Err) → Round stops s l (check_context status s' o)
  checked-Round s s' l w t n none = passed s' w t n
  checked-Round s s' l w t n (some e) = cancelled s' _ e w refl refl

  after-Round :
      (s s' : PassState) (l : String) (o : Option Err) (go : Bool)
      → s'.client.written ≡ s.client.written ++ (ended l ∷ [])
      → s'.started ≡ true
      → go ≡ not (stops l)
      → Round stops s l (after_line status o (go, s'))
  after-Round s s' l o true w t g = checked-Round s s' l w t (ground (arith, g)) o
  after-Round s s' l o false w t g = stopped s' w t (ground (arith, g))

  written-Round :
      (n : ℕ) (s : PassState) (l : String) (o : Option Err)
      → Round stops s l (write_line react lines world status n s l o)
  unfolding put
  written-Round n s l none =
      let now = sent world s l in
      let reacted = react now (trim_data_prefix lines l) in
      after-Round s reacted.1 l (world.context_error n) reacted.0
        (ap (λ c. c.written) (f.client now (trim_data_prefix lines l)))
        (f.started now (trim_data_prefix lines l)) (f.decides now l)
  written-Round n s l (some e) = not_sent _ _ refl refl

  -- A line that was sent, in front of what the rest of the loop does.
  one_more :
      (s s' : PassState) (l : String) (ls : List String)
      → s'.client.written ≡ s.client.written ++ (ended l ∷ [])
      → s'.started ≡ true
      → stops l ≡ false
      → {r : PassState × Ended} → Passed stops s' ls r
      → Passed stops s (l ∷ ls) r
  one_more s s' l ls w t n (failed s'' r e done rest all sent_so err started) =
      failed s'' r e (l ∷ done) rest (ap (◌∷◌ l) all)
        (sent_so
          ∙ ap (λ x. x ++ map ended done) w
          ∙ append_assoc s.client.written (ended l ∷ []) (map ended done))
        err started
  one_more s s' l ls w t n (ended_well s'' how fin sent_so started) =
      ended_well s'' how fin
        (rw n (
          sent_so
          ∙ ap (λ x. x ++ map ended (until stops ls)) w
          ∙ append_assoc s.client.written (ended l ∷ []) (map ended (until stops ls))))
        (inl (elim started [ inl x ↦ x | inr x ↦ x.1 ∙ t ]))

  next-Passed :
      (n : ℕ) (s : PassState) (l : String) (ls : List String)
      → ((s' : PassState)
          → Passed stops s' ls (scan (pass_step react lines world status) (suc n) s' ls))
      → {x : Next PassState} → Round stops s l x
      → Passed stops s (l ∷ ls) (elim x [
        | returns s' r ↦ (s', returned r)
        | breaks s' ↦ (s', broken)
        | continues s' ↦ scan (pass_step react lines world status) (suc n) s' ls
      ])
  next-Passed n s l ls rest (not_sent r e err started) =
      failed s r e [] (l ∷ ls) refl (sym (append-nil s.client.written)) err started
  next-Passed n s l ls rest (cancelled s' r e w err started) =
      failed s' r e (l ∷ []) ls refl w err started
  next-Passed n s l ls rest (stopped s' w t st) = ended_well s' broken tt (rw st w) (inl t)
  next-Passed n s l ls rest (passed s' w t st) = one_more s s' l ls w t st (rest s')

  pub scan-Passed :
      (n : ℕ) (s : PassState) (ls : List String)
      → Passed stops s ls (scan (pass_step react lines world status) n s ls)
  unfolding scan pass_step
  scan-Passed n s [] =
      ended_well s exhausted tt (sym (append-nil s.client.written)) (inr (refl, refl))
  scan-Passed n s (l ∷ ls) =
      next-Passed n s l ls (λ s'. scan-Passed (suc n) s' ls)
        (written-Round n s l (world.write_error (length s.client.written)))

-- The end mark ends a stream for an OpenAI client.
abbrev is_done : LineLib → Option String → Bool
is_done lines none = false
is_done lines (some payload) = lines.trim_space payload == "[DONE]"

abbrev pub done_line : LineLib → String → Bool
done_line lines line = is_done lines (trim_data_prefix lines line)

react_openai-decides :
    (lines : LineLib) (lib : ChunkLib) (id : String) (s : PassState) (o : Option String)
    → ((react_openai lines lib id s o).0 ≡ not (is_done lines o))
      × ((react_openai lines lib id s o).1.client ≡ s.client)
      × ((react_openai lines lib id s o).1.started ≡ s.started)
unfolding react_openai
react_openai-decides lines lib id s none = (refl, refl, refl)
react_openai-decides lines lib id s (some payload) =
    elim (Bool-cases (lines.trim_space payload == "[DONE]")) [
      | inl e ↦ simp e (refl, refl, refl)
      | inr e ↦ simp e (refl, refl, refl)
    ]

pub react_openai-Follows :
    (lines : LineLib) (lib : ChunkLib) (id : String)
    → Follows lines (done_line lines) (react_openai lines lib id)
react_openai-Follows lines lib id = record {
  decides = λ s l. (react_openai-decides lines lib id s (trim_data_prefix lines l)).0;
  client = λ s o. (react_openai-decides lines lib id s o).1;
  started = λ s o. (react_openai-decides lines lib id s o).2;
}

-- Nothing ends the stream of an Anthropic backend but its end.
abbrev pub never : String → Bool
never line = false

react_anthropic-decides :
    (lib : ChunkLib) (s : PassState) (o : Option String)
    → ((react_anthropic lib s o).0 ≡ true)
      × ((react_anthropic lib s o).1.client ≡ s.client)
      × ((react_anthropic lib s o).1.started ≡ s.started)
unfolding react_anthropic
react_anthropic-decides lib s none = (refl, refl, refl)
react_anthropic-decides lib s (some payload) = (refl, refl, refl)

pub react_anthropic-Follows :
    (lines : LineLib) (lib : ChunkLib) → Follows lines never (react_anthropic lib)
react_anthropic-Follows lines lib = record {
  decides = λ s l. (react_anthropic-decides lib s (trim_data_prefix lines l)).0;
  client = λ s o. (react_anthropic-decides lib s o).1;
  started = λ s o. (react_anthropic-decides lib s o).2;
}
