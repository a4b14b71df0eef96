-- ===== src/Core/Submit/Push.antt =====
-- internal/core/scheduler.go, `submitPush`: what one round of its loop does.
pub mod Attempts
use mathlib.Core.List.{Memᴰ}
use proxy_lm_go.Common.{
  ℕ, zero, suc, ◌+◌, ◌≤◌, ◌<◌, String, ◌==◌, ◌≡◌, refl, sym, ap, subst, ◌∙◌, ◌≢◌, ◌⊎◌, inl, inr,
  Bool, true, false, not, ◌&&◌, ◌||◌, Option, none, some, List, [], ◌∷◌, arith, tests, NoneOf,
  contains, if◌then◌else◌, ltb, leb, Bool-cases, true≢false, Option-cases, length,
}
use proxy_lm_go.Core.Models.{Err, Job, JobResult, zero_result, ServerInfo}
use proxy_lm_go.Core.Retry.{RetryConfig}
use proxy_lm_go.Core.Scheduler.Errors.{is_context_error}
use proxy_lm_go.Core.Router.{Router, Choice, chosen, failed, panics, pick, is_candidate}
use proxy_lm_go.Core.Router.Chosen.{Passes, pick-Passes, pick-failed}
use proxy_lm_go.Core.Submit.{
  Answer, returned, panicked, out_of_fuel, Tried, is_final, run_on_server, PushRound, PushState,
  push_start, exclusion, pick_again, choose, PushStep, stops, retries, give_up, pause_ends,
  after_wait, after_pause, last_or, step_with, attempt, push_step,
}

-- The server that a round chooses: a candidate, and another one than the server that failed last
-- unless that one has no name or there is no other.
pub record Sound (model : String) (round : PushRound) (last : String) (s : ServerInfo)
    : Type 0 where
  pub candidate :
      Passes (is_candidate model []) round.router.servers s
      ⊎ Passes (is_candidate model []) round.router_again.servers s
  pub rotates :
      ((last == "") ≡ true)
      ⊎ (((last == s.name) ≡ false) ⊎ NoneOf (is_candidate model (last ∷ [])) round.router.servers)

-- A result after which another attempt is allowed: an error before the response started, and not a
-- cancellation or a deadline.
pub record MayRetry (res : JobResult) : Type 0 where
  pub error : Err
  pub failed_with : res.err ≡ some error
  pub not_started : res.response_started ≡ false
  pub not_cancelled : is_context_error error ≡ false

not_final :
    (res : JobResult) (o : Option Err)
    → res.err ≡ o
    → is_final (record res { err = o }) ≡ false
    → MayRetry res
unfolding is_final
not_final res none q h = absurd (true≢false h)
not_final res (some e) q h = record {
  error = e;
  failed_with = q;
  not_started = ground (arith, h);
  not_cancelled = ground (arith, h);
}

-- The loops of Submit go on only after such a result.
pub is_final-MayRetry : (res : JobResult) → is_final res ≡ false → MayRetry res
is_final-MayRetry res h = not_final res res.err refl h

-- What one round may do.
pub data StepView (c : RetryConfig) (model : String) (round : PushRound) (st : PushState)
    : PushStep → Type 0 where
  gave_up : (r : JobResult) (e : Err) → StepView c model round st (stops [] (returned r (some e)))
  crashed : StepView c model round st (stops [] panicked)
  ended :
      (s : ServerInfo) (res : JobResult)
      → Sound model round st.last_failed s
      → (is_final res ≡ true) ⊎ (c.max_attempts ≤ st.total + 1)
      → StepView c model round st
          (stops (record { server = s; result = res } ∷ []) (returned res res.err))
  again :
      (s : ServerInfo) (res : JobResult)
      → Sound model round st.last_failed s
      → is_final res ≡ false
      → st.total + 1 < c.max_attempts
      → StepView c model round st (
          retries
            (record { server = s; result = res })
            (record {
              last_result = res;
              last_err = res.err;
              last_failed = s.name;
              total = st.total + 1;
            }))

module _ (c : RetryConfig) (model : String) (round : PushRound) (st : PushState) where
  after_wait-View :
      (s : ServerInfo) (res : JobResult)
      → Sound model round st.last_failed s
      → StepView c model round st (after_wait c s (st.total + 1) res)
  unfolding after_wait
  after_wait-View s res h = elim (Bool-cases (is_final res || leb c.max_attempts (st.total + 1))) [
    | inl e ↦ rw e (ended s res h (ground arith))
    | inr e ↦ rw e (again s res h (ground arith) (ground arith))
  ]

  after_pause-View :
      (s : ServerInfo) (o : Option Err)
      → Sound model round st.last_failed s
      → StepView c model round st (after_pause c round st s (st.total + 1) o)
  after_pause-View s none h = after_wait-View s _ h
  after_pause-View s (some e) h = gave_up _ e

  last_or-View : (e : Err) (o : Option Err) → StepView c model round st (stops [] (last_or st e o))
  last_or-View e none = gave_up _ e
  last_or-View e (some l) = gave_up _ l

  step_with-View :
      (o : Choice)
      → ((s : ServerInfo) → o ≡ chosen s → Sound model round st.last_failed s)
      → StepView c model round st (step_with c round st o)
  unfolding attempt
  step_with-View (chosen s) h = after_pause-View s _ (h s refl)
  step_with-View (failed e) h = last_or-View e _
  step_with-View panics h = crashed

-- A candidate that is not excluded is a candidate, and has another name.
candidate-weaken :
    (model : String) (last : List String) (s : ServerInfo)
    → is_candidate model last s ≡ true
    → is_candidate model [] s ≡ true
unfolding is_candidate
candidate-weaken model last s q = ground (arith, q)

candidate-other :
    (model last : String) (s : ServerInfo)
    → is_candidate model (last ∷ []) s ≡ true
    → (last == s.name) ≡ false
unfolding is_candidate
candidate-other model last s q = ground (arith, q)

chosen-injective : (s t : ServerInfo) → ◌≡◌ {A = Choice} (chosen s) (chosen t) → s ≡ t
chosen-injective s t e = cc

picked-Sound :
    (model : String) (round : PushRound) (st : PushState) (o : Choice) (s : ServerInfo)
    → (st.last_failed == "") ≡ false
    → (pick round.router model (st.last_failed ∷ [])).1 ≡ o
    → pick_again round model st o ≡ chosen s
    → Sound model round st.last_failed s
picked-Sound model round st (chosen t) s e q h =
    let (m, p) = pick-Passes round.router model (st.last_failed ∷ []) s (q ∙ h) in
    record {
      candidate = inl (m, candidate-weaken model _ s p);
      rotates = inr (inl (candidate-other model st.last_failed s p));
    }
picked-Sound model round st (failed x) s e q h = record {
  candidate = inr (pick-Passes round.router_again model [] s (rw e at h));
  rotates = inr (inr (pick-failed round.router model (st.last_failed ∷ []) x q));
}
picked-Sound model round st panics s e q h = cc

first-Sound :
    (model : String) (round : PushRound) (st : PushState) (o : Choice) (s : ServerInfo)
    → (st.last_failed == "") ≡ true
    → (pick round.router model []).1 ≡ o
    → pick_again round model st o ≡ chosen s
    → Sound model round st.last_failed s
first-Sound model round st (chosen t) s e q h = record {
  candidate = inl (pick-Passes round.router model [] s (q ∙ h));
  rotates = inl e;
}
first-Sound model round st (failed x) s e q h = absurd (no (rw e at h))
  where
    no : ◌≢◌ {A = Choice} (failed x) (chosen s)
    no z = cc
first-Sound model round st panics s e q h = cc

choose-Sound :
    (model : String) (round : PushRound) (st : PushState) (s : ServerInfo)
    → choose round model st ≡ chosen s
    → Sound model round st.last_failed s
unfolding choose exclusion
choose-Sound model round st s h = elim (Bool-cases (st.last_failed == "")) [
  | inl e ↦ first-Sound model round st _ s e refl (rw e at h)
  | inr e ↦ picked-Sound model round st _ s e refl (rw e at h)
]

-- A round stops the loop without an attempt, or makes one attempt on a sound server.
pub push_step-View :
    (c : RetryConfig) (model : String) (round : PushRound) (st : PushState)
    → StepView c model round st (push_step c model round st)
unfolding push_step
push_step-View c model round st = step_with-View c model round st _ (choose-Sound model round st)
