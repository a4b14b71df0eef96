-- ===== src/Core/Submit/Deferred/Answers.antt =====
-- internal/core/scheduler.go, `submitDeferred`: its answers, and what the stays of one request have in
-- common.
use mathlib.Core.List.{◌++◌}
use proxy_lm_go.Common.{
  ℕ, suc, ◌+◌, ◌≤◌, ◌≡◌, refl, ap, ◌∙◌, ◌≢◌, Option, none, some, List, [], ◌∷◌, arith, length,
}
use proxy_lm_go.Core.Models.{Err, Job, JobResult, ServerInfo}
use proxy_lm_go.Core.Retry.{RetryConfig}
use proxy_lm_go.Core.Submit.{Answer, returned, out_of_fuel}
use proxy_lm_go.Core.Submit.Push.{MayRetry}
use proxy_lm_go.Core.Submit.Deferred.{received, PullRound, Stay, submit_deferred}
use proxy_lm_go.Core.Submit.Deferred.Rounds.{
  Placeable, Request, gave_up, cancelled, answered, retried, submit_deferred-Request,
}

Request-ends :
    {c : RetryConfig} {env : ℕ → PullRound} {total : ℕ} {j : Job} {ts : List Stay} {a : Answer}
    → Request c env total j ts a
    → a ≢ out_of_fuel
Request-ends (gave_up total j r e) q = cc
Request-ends (cancelled total j stay r e p) q = cc
Request-ends (answered total j stay res p w f) q = cc
Request-ends (retried total j stay res j' p w n more pl r) q = Request-ends r q

-- The loop of `submitDeferred` ends for every environment: the fuel of the model is enough.
pub submit_deferred-total :
    (c : RetryConfig) (servers : List ServerInfo) (j : Job) (env : ℕ → PullRound)
    → (submit_deferred c servers j env).1 ≢ out_of_fuel
submit_deferred-total c servers j env = Request-ends (submit_deferred-Request c servers j env)

Request-length :
    {c : RetryConfig} {env : ℕ → PullRound} {total : ℕ} {j : Job} {ts : List Stay} {a : Answer}
    → Request c env total j ts a
    → total + 1 ≤ c.max_attempts
    → total + length ts ≤ c.max_attempts
Request-length (gave_up total j r e) h = omega arith
Request-length (cancelled total j stay r e p) h = omega arith
Request-length (answered total j stay res p w f) h = omega arith
Request-length (retried total j stay res j' p w n more pl r) h =
    omega (arith, Request-length r (omega (arith, more)))

-- INV-5 in the pull strategies: a request is put in the pool at most `max_attempts` times, if that is
-- at least one.
pub submit_deferred-attempts :
    (c : RetryConfig) (servers : List ServerInfo) (j : Job) (env : ℕ → PullRound)
    → 1 ≤ c.max_attempts
    → length (submit_deferred c servers j env).0 ≤ c.max_attempts
submit_deferred-attempts c servers j env h =
    omega (arith, Request-length (submit_deferred-Request c servers j env) h)

-- Between a stay in the pool and the next one: the first one ended with a result that may be retried,
-- and the job of the next one is placeable.
abbrev pub Retriable : (ℕ → PullRound) → ℕ → List Stay → Type 0
Retriable env total [] = Unit
Retriable env total (s ∷ []) = Unit
Retriable env total (s ∷ (t ∷ ts)) =
    ((res : JobResult) × (s.ends ≡ received res)
      × MayRetry res
      × Placeable (env total).servers_after res.server t.pushed)
    × Retriable env (total + 1) (t ∷ ts)

-- The first stay is of the job.
abbrev StartsWith : Job → List Stay → Type 0
StartsWith j [] = Unit
StartsWith j (s ∷ ss) = s.pushed ≡ j

-- A last stay that ended with a worker's result without an error, which is the result `res` but for
-- the number of the attempt: the stays after `total` attempts are counted.
abbrev pub LastReceived : ℕ → List Stay → JobResult → Type 0
LastReceived total ts res =
    (before : List Stay) × (s : Stay) × (r : JobResult) × (ts ≡ before ++ (s ∷ []))
    × (s.ends ≡ received r)
    × (r.err ≡ none)
    × (res ≡ record r { attempt = total + length ts })

answered-eq :
    (r res : JobResult) (o : Option Err) → returned r o ≡ returned res none → (res ≡ r) × (o ≡ none)
answered-eq r res o h = (cc, cc)

error-ne : (r res : JobResult) (e : Err) → returned r (some e) ≢ returned res none
error-ne r res e h = cc

Request-success :
    {c : RetryConfig} {env : ℕ → PullRound} {total : ℕ} {j : Job} {ts : List Stay} {a : Answer}
    (res : JobResult)
    → Request c env total j ts a
    → a ≡ returned res none
    → LastReceived total ts res
Request-success res (gave_up total j r e) q = absurd (error-ne r res e q)
Request-success res (cancelled total j stay r e p) q = absurd (error-ne r res e q)
Request-success res (answered total j stay r p w f) q =
    let (same, ok) = answered-eq _ res r.err q in ([], stay, r, refl, w, ok, same)
Request-success res (retried total j stay r j' {rest} p w n more pl tail) q =
    let (before, s, r', e, w', ok, same) = Request-success res tail q in
    let count : total + 1 + length rest ≡ total + suc (length rest) = omega arith in
    (
      stay ∷ before,
      s,
      r',
      ap (◌∷◌ stay) e,
      w',
      ok,
      same ∙ ap (λ n. record r' { attempt = n }) count,
    )

-- A success that `submitDeferred` returns is the result without an error that the worker of the last
-- stay sent, with the number of stays as its attempt.
pub submit_deferred-success :
    (c : RetryConfig) (servers : List ServerInfo) (j : Job) (env : ℕ → PullRound) (res : JobResult)
    → (submit_deferred c servers j env).1 ≡ returned res none
    → LastReceived 0 (submit_deferred c servers j env).0 res
submit_deferred-success c servers j env res h =
    Request-success res (submit_deferred-Request c servers j env) h
