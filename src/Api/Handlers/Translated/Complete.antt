-- ===== src/Api/Handlers/Translated/Complete.antt =====
-- internal/api/streaming_translate.go: the loop over a translated stream when every write succeeds.
use proxy_lm_go.Common.{
  ℕ, suc, String, ◌≡◌, refl, sym, ap, ◌∙◌, inl, inr, true, false, Bool-cases, Option, none, some,
  List, [], ◌∷◌, ◌++◌, map, append-nil, append_assoc, length, if◌then◌else◌,
}
use proxy_lm_go.Core.Models.{Err}
use proxy_lm_go.Api.Handlers.{
  Client, put, World, Next, returns, breaks, continues, Ended, returned, broken, exhausted,
  Finished, scan,
}
use proxy_lm_go.Api.Handlers.Translated.{
  StreamTranslator, event_end, TransState, trans_start, written_one, write_all, after_writes,
  trans_step, finish_all, ends_stream, translate_stream,
}

-- Every write succeeds and the request is not cancelled.
pub record Quiet (world : World) : Type 0 where
  pub writes : (n : ℕ) → world.write_error n ≡ none
  pub context : (n : ℕ) → world.context_error n ≡ none

-- What a translator makes of the lines until it is done.
abbrev pub fed_until : {T : Type 0} → StreamTranslator T → T → List String → T × List String
fed_until tr t [] = (t, [])
fed_until tr t (l ∷ ls) =
    let out = tr.process_line t l in
    let rest = fed_until tr out.0 ls in if tr.done out.0 then out else (rest.0, out.1 ++ rest.1)

append-map :
    (start xs ys : List String)
    → (start ++ map event_end xs) ++ map event_end ys ≡ start ++ map event_end (xs ++ ys)
append-map [] [] ys = refl
append-map [] (x ∷ xs) ys = ap (◌∷◌ (event_end x)) (append-map [] xs ys)
append-map (s ∷ start) xs ys = ap (◌∷◌ s) (append-map start xs ys)

module _ {T : Type 0} (tr : StreamTranslator T) (world : World) (quiet : Quiet world)
    (status : ℕ) where
  -- A state after some lines were written.
  pub record Wrote (s : TransState T) (outs : List String) (s' : TransState T) : Type 0 where
    pub sent : s'.client.written ≡ s.client.written ++ map event_end outs
    pub same : s'.translator ≡ s.translator

  -- A line that was written, in front of the others.
  one_more :
      (s : TransState T) (out : String) (outs : List String) {s' : TransState T}
      → Wrote (written_one tr world status s out) outs s'
      → Wrote s (out ∷ outs) s'
  unfolding put
  one_more s out outs w = record {
    sent = w.sent ∙ append_assoc s.client.written (event_end out ∷ []) (map event_end outs);
    same = w.same;
  }

  write_all-Wrote :
      (s : TransState T) (outs : List String)
      → ((write_all tr world status s outs).1 ≡ none)
        × Wrote s outs (write_all tr world status s outs).0
  unfolding write_all
  write_all-Wrote s [] = (refl, record { sent = sym (append-nil s.client.written); same = refl })
  write_all-Wrote s (out ∷ outs) =
      let rest = write_all-Wrote (written_one tr world status s out) outs in
      rw (write_all, quiet.writes (length s.client.written)) (rest.0, one_more s out outs rest.1)

  -- What a round does: it stops if the translator is done.
  data Round (s : TransState T) (out : T × List String) : Next (TransState T) → Type 0 where
    stopped :
        (s' : TransState T)
        → Wrote (record s { translator = out.0 }) out.1 s'
        → tr.done out.0 ≡ true
        → Round s out (breaks s')
    passed :
        (s' : TransState T)
        → Wrote (record s { translator = out.0 }) out.1 s'
        → tr.done out.0 ≡ false
        → Round s out (continues s')

  after-Round :
      (s s' : TransState T) (out : T × List String) (o e : Option Err)
      → o ≡ none
      → e ≡ none
      → Wrote (record s { translator = out.0 }) out.1 s'
      → Round s out (after_writes tr world status o (s', e))
  after-Round s s' out o none q r w = elim (Bool-cases (tr.done s'.translator)) [
    | inl d ↦ rw d (stopped s' w (ap tr.done (sym w.same) ∙ d))
    | inr d ↦ rw (d, q) (passed s' w (ap tr.done (sym w.same) ∙ d))
  ]
  after-Round s s' out o (some e) q r w = absurd cc

  step-Round :
      (n : ℕ) (s : TransState T) (l : String)
      → Round s (tr.process_line s.translator l) (trans_step tr world status n s l)
  unfolding trans_step
  step-Round n s l =
      let out = tr.process_line s.translator l in
      let wrote = write_all-Wrote (record s { translator = out.0 }) out.1 in
      after-Round s (write_all tr world status (record s { translator = out.0 }) out.1).0 out
        (world.context_error n) _ (quiet.context n) wrote.0 wrote.1

  -- The loop does not return, and writes what the translator makes.
  record Fed (s : TransState T) (ls : List String) (r : TransState T × Ended) : Type 0 where
    pub finished : Finished r.1
    pub sent :
        r.0.client.written ≡ s.client.written ++ map event_end (fed_until tr s.translator ls).1
    pub same : r.0.translator ≡ (fed_until tr s.translator ls).0

  next-Fed :
      (n : ℕ) (s : TransState T) (l : String) (ls : List String)
      → ((s' : TransState T) → Fed s' ls (scan (trans_step tr world status) (suc n) s' ls))
      → {x : Next (TransState T)} → Round s (tr.process_line s.translator l) x
      → Fed s (l ∷ ls) (elim x [
        | returns s' r ↦ (s', returned r)
        | breaks s' ↦ (s', broken)
        | continues s' ↦ scan (trans_step tr world status) (suc n) s' ls
      ])
  next-Fed n s l ls rest (stopped s' w d) = record {
    finished = tt;
    sent = rw d w.sent;
    same = rw d w.same;
  }
  next-Fed n s l ls rest (passed s' w d) = record {
    finished = (rest s').finished;
    sent =
        let out = tr.process_line s.translator l in
        rw d (
          (rest s').sent
          ∙ ap (λ x. x ++ map event_end (fed_until tr s'.translator ls).1) w.sent
          ∙ ap
              (λ t.
                (s.client.written ++ map event_end out.1) ++ map event_end (fed_until tr t ls).1)
              w.same
          ∙ append-map s.client.written out.1 (fed_until tr out.0 ls).1);
    same = rw d ((rest s').same ∙ ap (λ t. (fed_until tr t ls).0) w.same);
  }

  scan-Fed :
      (n : ℕ) (s : TransState T) (ls : List String)
      → Fed s ls (scan (trans_step tr world status) n s ls)
  unfolding scan
  scan-Fed n s [] = record { finished = tt; sent = sym (append-nil s.client.written); same = refl }
  scan-Fed n s (l ∷ ls) = next-Fed n s l ls (λ s'. scan-Fed (suc n) s' ls) (step-Round n s l)

  finish_all-sent :
      (s : TransState T) (outs : List String)
      → (finish_all tr world status s outs).client.written ≡ s.client.written ++ map event_end outs
  unfolding finish_all put
  finish_all-sent s [] = sym (append-nil s.client.written)
  finish_all-sent s (out ∷ outs) =
      rw (finish_all, quiet.writes (length s.client.written))
        (finish_all-sent (record s { client = put s.client (event_end out) }) outs
          ∙ append_assoc s.client.written (event_end out ∷ []) (map event_end outs))

  ends-none :
      (r : TransState T × Ended)
      → Finished r.1
      → ((ends_stream tr world status r).0.written
          ≡ (finish_all tr world status r.0 (tr.finish r.0.translator)).client.written)
        × ((ends_stream tr world status r).1.err ≡ none)
  ends-none (s, broken) q = (refl, refl)
  ends-none (s, exhausted) q = (refl, refl)
  ends-none (s, returned r) q = absurd q

  -- With a connection that holds, the client gets what the translator makes of the lines until it is
  -- done and then its finishing lines, each with an empty line after it, and the attempt has no error.
  pub translate_stream_complete :
      (w : Client) (t : T) (ls : List String)
      → (let fed = fed_until tr t ls in
          (translate_stream tr world status w t ls).0.written
          ≡ w.written ++ map event_end (fed.1 ++ tr.finish fed.0))
        × ((translate_stream tr world status w t ls).1.err ≡ none)
  unfolding translate_stream trans_start
  translate_stream_complete w t ls =
      let looped = scan-Fed 0 (trans_start w t) ls in
      let r = scan (trans_step tr world status) 0 (trans_start w t) ls in
      let ended = ends-none r looped.finished in
      let fed = fed_until tr t ls in
      (
        ended.0
            ∙ finish_all-sent r.0 (tr.finish r.0.translator)
            ∙ ap (λ x. x ++ map event_end (tr.finish r.0.translator)) looped.sent
            ∙ ap (λ x. (w.written ++ map event_end fed.1) ++ map event_end (tr.finish x))
                looped.same
            ∙ append-map w.written fed.1 (tr.finish fed.0),
        ended.1,
      )
