-- ===== src/Core/Discovery/Outage.antt =====
-- Polls that fail one after another, and the attempts on the server between them: `pollOne` and
-- `dispatch` both take a server out of service.
use proxy_lm_go.Common.{
  ℕ, ◌+◌, ℤ, pos, String, ◌≡◌, refl, sym, ap, subst, ◌∙◌, inl, inr, Bool, true, false, not, ◌&&◌,
  Option, List, [], ◌∷◌, arith, All, leb_ℤ, Bool-cases,
}
use proxy_lm_go.Core.Models.{Job}
use proxy_lm_go.Core.Perf.{PerfTracker}
use proxy_lm_go.Core.Discovery.{
  Listed, listed, list_failed, Probe, DiscoveryEntry, poll_failed, poll_one,
}
use proxy_lm_go.Core.Discovery.Health.{CountsAsFailure}
use proxy_lm_go.Core.Scheduler.Dispatch.{Float64, Attempt, run_with_panic_guard, dispatch}
use proxy_lm_go.Core.Scheduler.Crash.{crashed, dispatch-Left}

-- A number of failed polls that has not reached the limit.
unfoldable pub below_limit : ℤ → ℕ → Bool
below_limit unhealthy_after failed_polls = not (leb_ℤ unhealthy_after (pos failed_polls))

poll_failed-healthy :
    (t : ℤ) (e : DiscoveryEntry)
    → (poll_failed t e).server.healthy ≡ (e.server.healthy && below_limit t (e.failed_polls + 1))
unfolding poll_failed below_limit
poll_failed-healthy t e =
    elim (Bool-cases (leb_ℤ t (pos (e.failed_polls + 1)) && e.server.healthy)) [
      | inl h ↦ rw h (ground arith)
      | inr h ↦ rw h (ground arith)
    ]

below_limit_mono : (t : ℤ) (n m : ℕ) → below_limit t (n + m) ≡ true → below_limit t n ≡ true
unfolding below_limit
below_limit_mono t n m h = ground (arith, h)

-- An entry after an event: so many more failed polls, and whether the event was no crash.
record Effect (t : ℤ) (failures : ℕ) (survives : Bool) (e x : DiscoveryEntry) : Type 0 where
  polls : x.failed_polls ≡ e.failed_polls + failures
  explicit : x.explicit_models ≡ e.explicit_models
  health :
      x.server.healthy
      ≡ ((e.server.healthy && survives) && below_limit t (e.failed_polls + failures))

-- The state of service that the theorem starts from.
abbrev pub Below : ℤ → DiscoveryEntry → Type 0
Below t e = e.server.healthy ≡ true → below_limit t e.failed_polls ≡ true

failure-Effect :
    (t : ℤ) (shape : Bool) (probe : Probe) (e : DiscoveryEntry)
    → CountsAsFailure e.explicit_models (list_failed shape, probe)
    → Effect t 1 true e (poll_one t (list_failed shape) probe e)
unfolding poll_one poll_failed
failure-Effect t shape probe e counts = rw counts (counted (poll_failed-healthy t e))
  where
    counted :
        (poll_failed t e).server.healthy ≡ (e.server.healthy && below_limit t (e.failed_polls + 1))
        → Effect t 1 true e (poll_failed t e)
    counted h = record { polls = refl; explicit = refl; health = h ∙ ground arith }

and-below :
    (t : ℤ) (h ok : Bool) (n : ℕ)
    → (h ≡ true → below_limit t n ≡ true)
    → (h && ok) ≡ ((h && ok) && below_limit t n)
and-below t true true n start = sym (start refl)
and-below t true false n start = refl
and-below t false ok n start = refl

and-true : (b : Bool) → b ≡ (b && true)
and-true true = refl
and-true false = refl

effects-compose :
    (t : ℤ) (n m : ℕ) (h ok oks : Bool)
    → ((((h && ok) && below_limit t n) && oks) && below_limit t (n + m))
      ≡ ((h && (ok && oks)) && below_limit t (n + m))
effects-compose t n m h ok oks = ground (arith, below_limit_mono t n m)

module _ (fl : Float64) where
  -- What writes the health of a server that is in use. `dispatch` writes it after `Run`, and then counts as
  -- one event.
  pub data HealthEvent : Type 0 where
    polled : Listed → Probe → HealthEvent
    attempted : Job → ℕ → Attempt fl → Option PerfTracker → HealthEvent

  unfoldable pub health_step : ℤ → HealthEvent → DiscoveryEntry → DiscoveryEntry
  health_step t (polled models probe) e = poll_one t models probe e
  health_step t (attempted j now a perf) e = record e {
    server = (dispatch fl e.server j now a perf).server;
  }

  unfoldable pub health_steps : ℤ → List HealthEvent → DiscoveryEntry → DiscoveryEntry
  health_steps t [] e = e
  health_steps t (v ∷ vs) e = health_steps t vs (health_step t v e)

  -- The polls among the events count as failures; nothing is asked of the attempts.
  abbrev pub FailsIfPolled : List String → HealthEvent → Type 0
  FailsIfPolled explicit_models (polled models probe) =
      CountsAsFailure explicit_models (models, probe)
  FailsIfPolled explicit_models (attempted j now a perf) = Unit

  abbrev failures_of : HealthEvent → ℕ
  failures_of (polled models probe) = 1
  failures_of (attempted j now a perf) = 0

  abbrev survives : HealthEvent → Bool
  survives (polled models probe) = true
  survives (attempted j now a perf) = not (crashed (run_with_panic_guard a.outcome))

  unfoldable pub failed_polls_in : List HealthEvent → ℕ
  failed_polls_in [] = 0
  failed_polls_in (v ∷ vs) = failures_of v + failed_polls_in vs

  -- No attempt failed with a connection error before its response started.
  unfoldable pub none_crashed : List HealthEvent → Bool
  none_crashed [] = true
  none_crashed (v ∷ vs) = survives v && none_crashed vs

  health_step-Effect :
      (t : ℤ) (v : HealthEvent) (e : DiscoveryEntry)
      → Below t e
      → FailsIfPolled e.explicit_models v
      → Effect t (failures_of v) (survives v) e (health_step t v e)
  unfolding health_step
  health_step-Effect t (polled (listed models) probe) e start fails = absurd fails
  health_step-Effect t (polled (list_failed shape) probe) e start fails =
      failure-Effect t shape probe e fails
  health_step-Effect t (attempted j now a perf) e start fails =
      let same : e.failed_polls ≡ e.failed_polls + 0 = omega arith in
      record {
        polls = same;
        explicit = refl;
        health =
            (dispatch-Left fl e.server j now a perf).health
            ∙ and-below t e.server.healthy (survives (attempted j now a perf)) e.failed_polls start
            ∙ ap (λ n. (e.server.healthy && survives (attempted j now a perf)) && below_limit t n)
                same;
      }

  -- As long as the polls of a server count as failures, with any attempts on it between them: the counter
  -- goes up by one with each poll, and a server that was in service is in service exactly when no attempt
  -- failed with a connection error before its response started and the counter is below the limit; a server
  -- that was out of service stays out. At the start the counter of a server in service is below the limit.
  pub health_steps-failures :
      (t : ℤ) (vs : List HealthEvent) (e : DiscoveryEntry)
      → Below t e
      → All (FailsIfPolled e.explicit_models) vs
      → ((health_steps t vs e).failed_polls ≡ e.failed_polls + failed_polls_in vs)
        × ((health_steps t vs e).server.healthy ≡ (
            (e.server.healthy && none_crashed vs)
            && below_limit t (e.failed_polls + failed_polls_in vs)))
  unfolding health_steps failed_polls_in none_crashed
  health_steps-failures t [] e start failing =
      let same : e.failed_polls ≡ e.failed_polls + 0 = omega arith in
      (
        same,
        subst (λ n. e.server.healthy ≡ ((e.server.healthy && true) && below_limit t n)) same
            (and-true e.server.healthy ∙ and-below t e.server.healthy true e.failed_polls start),
      )
  health_steps-failures t (v ∷ vs) e start failing =
      let x = health_step t v e in
      let step = health_step-Effect t v e start failing.0 in
      let rest =
        health_steps-failures t vs x (still step)
          (subst (λ m. All (FailsIfPolled m) vs) (sym step.explicit) failing.1) in
      after (failed_polls_in vs) (none_crashed vs) (health_steps t vs x) step rest
    where
      still : {n : ℕ} {ok : Bool} {x : DiscoveryEntry} → Effect t n ok e x → Below t x
      still {n} {ok} step =
          rw (step.health, step.polls)
            (λ (h : ((e.server.healthy && ok) && below_limit t (e.failed_polls + n)) ≡ true).
              ground (arith, h))

      after :
          {n : ℕ} {ok : Bool} {x : DiscoveryEntry} (m : ℕ) (oks : Bool) (y : DiscoveryEntry)
          → Effect t n ok e x
          → (y.failed_polls ≡ x.failed_polls + m)
            × (y.server.healthy ≡ ((x.server.healthy && oks) && below_limit t (x.failed_polls + m)))
          → (y.failed_polls ≡ e.failed_polls + (n + m))
            × (y.server.healthy
                ≡ ((e.server.healthy && (ok && oks)) && below_limit t (e.failed_polls + (n + m))))
      after {n} {ok} {x} m oks y step (p, h) =
          let total : x.failed_polls + m ≡ e.failed_polls + n + m = omega (arith, step.polls) in
          let count : e.failed_polls + n + m ≡ e.failed_polls + (n + m) = omega arith in
          (
            p ∙ total ∙ count,
            h
                ∙ ap (λ b. (b && oks) && below_limit t (x.failed_polls + m)) step.health
                ∙ ap
                    (λ k.
                      (((e.server.healthy && ok) && below_limit t (e.failed_polls + n)) && oks)
                      && below_limit t k)
                    total
                ∙ effects-compose t (e.failed_polls + n) m e.server.healthy ok oks
                ∙ ap (λ k. (e.server.healthy && (ok && oks)) && below_limit t k) count,
          )
