-- ===== src/Api/Handlers/Serve/Attempts.antt =====
-- The attempts of `Submit` and the handlers together: which of them send parts of a body to the client.
use proxy_lm_go.Common.{
  ℕ, String, ◌≡◌, refl, sym, ap, ◌∙◌, inl, inr, false, Bool-cases, Option, none, some, List, [],
  ◌∷◌,
}
use proxy_lm_go.Core.Models.{Err, Job, JobResult}
use proxy_lm_go.Core.Retry.{RetryConfig}
use proxy_lm_go.Core.Submit.{Tried, PushRound, submit_push}
use proxy_lm_go.Core.Submit.Push.Attempts.{OnlyRetriable, submit_push-OnlyRetriable}
use proxy_lm_go.Api.Handlers.Attempt.Untouched.{run_attempt-untouched}
use proxy_lm_go.Api.Handlers.Serve.{
  Server, Request, Exchange, persist, running_record, attempted, after_attempt, run_closure, Try,
  ran, left_queue, run_try, run_tries,
}

-- The results that the loop of `Submit` sees: the worker adds the attempt's number, the server and the
-- times to what `Run` returned.
abbrev pub Sees : List Tried → List JobResult → Type 0
Sees [] [] = Unit
Sees [] (r ∷ rs) = ⊥
Sees (t ∷ ts) [] = ⊥
Sees (t ∷ ts) (r ∷ rs) =
    (t.result.err ≡ r.err) × (t.result.response_started ≡ r.response_started) × Sees ts rs

-- Every attempt but the last leaves the parts of a body that the client was sent as they were.
abbrev pub OneWriter : Server → Request → List Try → Exchange → Type 0
OneWriter s q [] x = Unit
OneWriter s q (t ∷ []) x = Unit
OneWriter s q (t ∷ (u ∷ ts)) x =
    ((run_try s q t x).0.client.written ≡ x.client.written)
    × OneWriter s q (u ∷ ts) (run_try s q t x).0

after-client :
    (s : Server) (name : String) (r : JobResult) (o : Option Err) (x : Exchange)
    → (after_attempt s name r o x).client ≡ x.client
after-client s name r none x = refl
after-client s name r (some e) x = elim (Bool-cases r.response_started) [
  | inl b ↦ simp b
  | inr b ↦ simp b
]

try-client :
    (s : Server) (q : Request) (t : Try) (x : Exchange)
    → (run_try s q t x).1.response_started ≡ false
    → (run_try s q t x).0.client.written ≡ x.client.written
unfolding run_closure
try-client s q (ran c) x n =
    let begun = persist (record x { rec = running_record c x.rec }) in
    let done = attempted s q c begun in
    ap (λ w. w.written)
      (after-client s c.server.name done.run.result done.run.result.err
        (record begun { client = done.run.client; tail = done.tail }))
    ∙ run_attempt-untouched s.libs s.lines s.chunks s.handler q.stream q.id q.body c.world c.backend
        c.server x.client x.tail n
try-client s q (left_queue server e) x n = refl

tries-OneWriter :
    (s : Server) (q : Request) (tries : List Try) (x : Exchange) (ts : List Tried)
    → OnlyRetriable ts
    → Sees ts (run_tries s q tries x).1
    → OneWriter s q tries x
unfolding run_tries
tries-OneWriter s q [] x ts only sees = tt
tries-OneWriter s q (t ∷ []) x ts only sees = tt
tries-OneWriter s q (t ∷ (u ∷ us)) x [] only sees = absurd sees
tries-OneWriter s q (t ∷ (u ∷ us)) x (a ∷ []) only sees = absurd sees.2
tries-OneWriter s q (t ∷ (u ∷ us)) x (a ∷ (b ∷ ts)) only sees = (
  try-client s q t x (sym sees.1 ∙ only.0.not_started),
  tries-OneWriter s q (u ∷ us) (run_try s q t x).0 (b ∷ ts) only.1 sees.2,
)

-- INV-6 for the body of an answer, in the mode without a pool: when the results that the loop of
-- `submitPush` sees have the errors and the started flags of the handler's attempts, every attempt but
-- the last one leaves the list of body parts that the client was sent as it was. Nothing is said of the
-- status and the headers.
pub submit_push-OneWriter :
    (c : RetryConfig) (j : Job) (env : ℕ → PushRound) (s : Server) (q : Request) (tries : List Try)
    (x : Exchange)
    → Sees (submit_push c j env).0 (run_tries s q tries x).1
    → OneWriter s q tries x
submit_push-OneWriter c j env s q tries x sees =
    tries-OneWriter s q tries x (submit_push c j env).0 (submit_push-OnlyRetriable c j env) sees
