-- ===== src/Core/Submit/Push/Attempts.antt =====
-- internal/core/scheduler.go, `submitPush`: its answers, and what the attempts of one request have in
-- common.
use mathlib.Core.List.{◌++◌}
use proxy_lm_go.Common.{
  ℕ, zero, suc, ◌+◌, ◌≤◌, ◌<◌, String, ◌≡◌, refl, ap, subst, ◌≢◌, ◌⊎◌, true, false, Option, none,
  some, List, [], ◌∷◌, arith, length,
}
use proxy_lm_go.Core.Models.{Err, Job, JobResult}
use proxy_lm_go.Core.Retry.{RetryConfig}
use proxy_lm_go.Core.Submit.{
  Answer, returned, panicked, out_of_fuel, Tried, is_final, PushRound, PushState, push_start,
  PushStep, continue_with, push_loop, submit_push,
}
use proxy_lm_go.Core.Submit.Push.{
  MayRetry, is_final-MayRetry, Sound, StepView, gave_up, crashed, ended, again, push_step-View,
}

-- What a request may look like, seen from its attempts, when `total` attempts were made before and
-- the last one failed on the server named `last`.
pub data Request (c : RetryConfig) (model : String) (env : ℕ → PushRound)
    : ℕ → String → List Tried → Answer → Type 0 where
  given_up :
      (total : ℕ) (last : String) (r : JobResult) (e : Err)
      → Request c model env total last [] (returned r (some e))
  panicked_in : (total : ℕ) (last : String) → Request c model env total last [] panicked
  answered :
      (total : ℕ) (last : String) (t : Tried)
      → Sound model (env total) last t.server
      → (is_final t.result ≡ true) ⊎ (c.max_attempts ≤ total + 1)
      → Request c model env total last (t ∷ []) (returned t.result t.result.err)
  retried :
      (total : ℕ) (last : String) (t : Tried) {rest : List Tried} {answer : Answer}
      → Sound model (env total) last t.server
      → is_final t.result ≡ false
      → total + 1 < c.max_attempts
      → Request c model env (total + 1) t.server.name rest answer
      → Request c model env total last (t ∷ rest) answer

module _ (c : RetryConfig) (model : String) (env : ℕ → PushRound) where
  continue-Request :
      (st : PushState) (rest : PushState → List Tried × Answer) {r : PushStep}
      → ((st' : PushState)
          → st'.total ≡ st.total + 1
          → st.total + 1 < c.max_attempts
          → Request c model env st'.total st'.last_failed (rest st').0 (rest st').1)
      → StepView c model (env st.total) st r
      → Request c model env st.total st.last_failed
          (continue_with rest r).0
          (continue_with rest r).1
  continue-Request st rest h (gave_up r e) = given_up _ _ r e
  continue-Request st rest h crashed = panicked_in _ _
  continue-Request st rest h (ended s res sound last) =
      answered _ _ (record { server = s; result = res }) sound last
  continue-Request st rest h (again s res sound not_final more) =
      retried _ _ (record { server = s; result = res }) sound not_final more
        (h
          (record {
            last_result = res;
            last_err = res.err;
            last_failed = s.name;
            total = st.total + 1;
          })
          refl more)

  push_loop-Request :
      (fuel : ℕ) (st : PushState)
      → 1 ≤ fuel
      → c.max_attempts ≤ fuel + st.total
      → Request c model env st.total st.last_failed
          (push_loop c model env fuel st).0
          (push_loop c model env fuel st).1
  unfolding push_loop
  push_loop-Request zero st some_fuel enough = absurd (omega arith)
  push_loop-Request (suc fuel) st some_fuel enough =
      continue-Request st (push_loop c model env fuel)
        (λ st' e more. push_loop-Request fuel st' (omega (arith, e)) (omega (arith, e)))
        (push_step-View c model (env st.total) st)

-- Every request has a form that `Request` lists.
pub submit_push-Request :
    (c : RetryConfig) (j : Job) (env : ℕ → PushRound)
    → Request c j.model env 0 "" (submit_push c j env).0 (submit_push c j env).1
unfolding submit_push
submit_push-Request c j env =
    push_loop-Request c j.model env (c.max_attempts + 1) push_start (omega arith) (omega arith)

Request-ends :
    {c : RetryConfig} {model : String} {env : ℕ → PushRound} {total : ℕ} {last : String}
    {ts : List Tried} {a : Answer}
    → Request c model env total last ts a
    → a ≢ out_of_fuel
Request-ends (given_up total last r e) q = cc
Request-ends (panicked_in total last) q = cc
Request-ends (answered total last t sound f) q = cc
Request-ends (retried total last t sound n more r) q = Request-ends r q

-- The loop of `submitPush` ends for every environment: the fuel of the model is enough.
pub submit_push-total :
    (c : RetryConfig) (j : Job) (env : ℕ → PushRound) → (submit_push c j env).1 ≢ out_of_fuel
submit_push-total c j env = Request-ends (submit_push-Request c j env)

Request-length :
    {c : RetryConfig} {model : String} {env : ℕ → PushRound} {total : ℕ} {last : String}
    {ts : List Tried} {a : Answer}
    → Request c model env total last ts a
    → total + 1 ≤ c.max_attempts
    → total + length ts ≤ c.max_attempts
Request-length (given_up total last r e) h = omega arith
Request-length (panicked_in total last) h = omega arith
Request-length (answered total last t sound f) h = omega arith
Request-length (retried total last t sound n more r) h =
    omega (arith, Request-length r (omega (arith, more)))

-- INV-5: a request is run at most `max_attempts` times, if that is at least one.
pub submit_push-attempts :
    (c : RetryConfig) (j : Job) (env : ℕ → PushRound)
    → 1 ≤ c.max_attempts
    → length (submit_push c j env).0 ≤ c.max_attempts
submit_push-attempts c j env h = omega (arith, Request-length (submit_push-Request c j env) h)

-- After each attempt but the last one another attempt was allowed.
abbrev pub OnlyRetriable : List Tried → Type 0
OnlyRetriable [] = Unit
OnlyRetriable (t ∷ []) = Unit
OnlyRetriable (t ∷ (u ∷ ts)) = MayRetry t.result × OnlyRetriable (u ∷ ts)

Request-OnlyRetriable :
    {c : RetryConfig} {model : String} {env : ℕ → PushRound} {total : ℕ} {last : String}
    {ts : List Tried} {a : Answer}
    → Request c model env total last ts a
    → OnlyRetriable ts
Request-OnlyRetriable (given_up total last r e) = tt
Request-OnlyRetriable (panicked_in total last) = tt
Request-OnlyRetriable (answered total last t sound f) = tt
Request-OnlyRetriable (retried total last t {rest} sound n more r) =
    before rest (Request-OnlyRetriable r)
  where
    before : (ts : List Tried) → OnlyRetriable ts → OnlyRetriable (t ∷ ts)
    before [] h = tt
    before (u ∷ ts) h = (is_final-MayRetry t.result n, h)

-- INV-6: an attempt that is followed by another one failed before its response started, and not by a
-- cancellation.
pub submit_push-OnlyRetriable :
    (c : RetryConfig) (j : Job) (env : ℕ → PushRound) → OnlyRetriable (submit_push c j env).0
submit_push-OnlyRetriable c j env = Request-OnlyRetriable (submit_push-Request c j env)

-- Attempt after attempt, starting with number `total` after a failure on `last`, the server is sound.
abbrev pub Rotates : String → (ℕ → PushRound) → ℕ → String → List Tried → Type 0
Rotates model env total last [] = Unit
Rotates model env total last (t ∷ ts) =
    Sound model (env total) last t.server × Rotates model env (total + 1) t.server.name ts

Request-Rotates :
    {c : RetryConfig} {model : String} {env : ℕ → PushRound} {total : ℕ} {last : String}
    {ts : List Tried} {a : Answer}
    → Request c model env total last ts a
    → Rotates model env total last ts
Request-Rotates (given_up total last r e) = tt
Request-Rotates (panicked_in total last) = tt
Request-Rotates (answered total last t sound f) = (sound, tt)
Request-Rotates (retried total last t sound n more r) = (sound, Request-Rotates r)

-- INV-5 and INV-8: each attempt runs on a server that the router has, healthy and with the model, at
-- one of the two calls of `Pick` of its round, and, after an attempt on a server with a name, on a
-- server of another name unless no other one qualified at the first call.
pub submit_push-Rotates :
    (c : RetryConfig) (j : Job) (env : ℕ → PushRound)
    → Rotates j.model env 0 "" (submit_push c j env).0
submit_push-Rotates c j env = Request-Rotates (submit_push-Request c j env)

-- A last attempt with the result.
abbrev pub LastIs : List Tried → JobResult → Type 0
LastIs ts res = (before : List Tried) × (t : Tried) × (ts ≡ before ++ (t ∷ [])) × (t.result ≡ res)

Request-success :
    {c : RetryConfig} {model : String} {env : ℕ → PushRound} {total : ℕ} {last : String}
    {ts : List Tried} {a : Answer} (res : JobResult)
    → Request c model env total last ts a
    → a ≡ returned res none
    → LastIs ts res × (res.err ≡ none)
Request-success res (given_up total last r e) q = absurd (no q)
  where
    no : returned r (some e) ≢ returned res none
    no z = cc
Request-success res (panicked_in total last) q = absurd (no q)
  where
    no : panicked ≢ returned res none
    no z = cc
Request-success res (answered total last t sound f) q =
    (([], t, refl, same q), subst (λ r. r.err ≡ none) (same q) (no_error q))
  where
    same : {r : JobResult} {o : Option Err} → returned r o ≡ returned res none → r ≡ res
    same z = cc

    no_error : {r : JobResult} {o : Option Err} → returned r o ≡ returned res none → o ≡ none
    no_error z = cc
Request-success res (retried total last t sound n more r) q =
    let ((before, u, e, same), ok) = Request-success res r q in
    ((t ∷ before, u, ap (◌∷◌ t) e, same), ok)

-- A success that is returned is the result of the last attempt, which had no error.
pub submit_push-success :
    (c : RetryConfig) (j : Job) (env : ℕ → PushRound) (res : JobResult)
    → (submit_push c j env).1 ≡ returned res none
    → LastIs (submit_push c j env).0 res × (res.err ≡ none)
submit_push-success c j env res h = Request-success res (submit_push-Request c j env) h
