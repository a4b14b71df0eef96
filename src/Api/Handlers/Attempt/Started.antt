-- ===== src/Api/Handlers/Attempt/Started.antt =====
-- internal/api/streaming.go and streaming_translate.go: the results that the loops over lines return.
use proxy_lm_go.Common.{
  ℕ, suc, String, ◌≡◌, refl, inl, inr, true, Bool-cases, Option, none, some, List, [], ◌∷◌,
}
use proxy_lm_go.Core.Models.{Err, JobResult}
use proxy_lm_go.Api.Handlers.{
  Client, World, Next, returns, breaks, continues, Ended, returned, broken, exhausted, scan,
}
use proxy_lm_go.Api.Handlers.Translated.{
  StreamTranslator, TransState, trans_start, check_cancelled, after_writes, trans_step, ends_stream,
  translate_stream,
}

-- The results that a loop may return.
abbrev Returns : {S : Type 0} → (JobResult → Type 0) → Next S → Type 0
Returns P (returns s r) = P r
Returns P _ = Unit

abbrev Returned : (JobResult → Type 0) → Ended → Type 0
Returned P (returned r) = P r
Returned P _ = Unit

scan-Returned :
    {S : Type 0} (P : JobResult → Type 0) (step : ℕ → S → String → Next S)
    → ((n : ℕ) (s : S) (l : String) → Returns P (step n s l))
    → (n : ℕ) (s : S) (ls : List String) → Returned P (scan step n s ls).1
unfolding scan
scan-Returned P step h n s [] = tt
scan-Returned {S} P step h n s (l ∷ ls) =
    next (step n s l) (h n s l) (λ s'. scan-Returned P step h (suc n) s' ls)
  where
    next :
        (x : Next S)
        → Returns P x
        → ((s' : S) → Returned P (scan step (suc n) s' ls).1)
        → Returned P
            (elim x as (λ y. S × Ended) [
              | returns s' r ↦ (s', returned r)
              | breaks s' ↦ (s', broken)
              | continues s' ↦ scan step (suc n) s' ls
            ]).1
    next (returns s' r) p rest = p
    next (breaks s') p rest = tt
    next (continues s') p rest = rest s'

abbrev pub Started : JobResult → Type 0
Started r = r.response_started ≡ true

module _ {T : Type 0} (tr : StreamTranslator T) (world : World) (status : ℕ) where
  writes-Returns :
      (o : Option Err) (r : TransState T × Option Err)
      → Returns Started (after_writes tr world status o r)
  writes-Returns o (s, some e) = refl
  writes-Returns o (s, none) = elim (Bool-cases (tr.done s.translator)) [
    | inl d ↦ rw d tt
    | inr d ↦ rw d (checked o)
  ]
    where
      checked : (c : Option Err) → Returns Started (check_cancelled tr world status s c)
      checked none = tt
      checked (some e) = refl

  step-Returns :
      (n : ℕ) (s : TransState T) (l : String) → Returns Started (trans_step tr world status n s l)
  unfolding trans_step
  step-Returns n s l = writes-Returns (world.context_error n) _

  ends-Started :
      (r : TransState T × Ended) → Returned Started r.1 → Started (ends_stream tr world status r).1
  ends-Started (s, returned r) p = p
  ends-Started (s, broken) p = refl
  ends-Started (s, exhausted) p = refl

  pub translate_stream-Started :
      (w : Client) (t : T) (ls : List String) → Started (translate_stream tr world status w t ls).1
  unfolding translate_stream
  translate_stream-Started w t ls =
      ends-Started _
        (scan-Returned Started (trans_step tr world status) step-Returns 0 (trans_start w t) ls)
