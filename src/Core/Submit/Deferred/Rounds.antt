-- ===== src/Core/Submit/Deferred/Rounds.antt =====
-- internal/core/scheduler.go, `submitDeferred`: what one round of its loop does.

use proxy_lm_go.Common.{
  ℕ, zero, suc, ◌+◌, ◌≤◌, ◌<◌, String, ◌==◌, ◌≡◌, refl, ◌⊎◌, inl, inr, true, false, ◌||◌, Option,
  none, some, List, [], ◌∷◌, arith, contains, eq_iff, eq_refl, Bool-cases, leb,
}
use proxy_lm_go.Core.Models.{Err, no_server, Job, JobResult, zero_result, ServerInfo}
use proxy_lm_go.Core.Retry.{RetryConfig}
use proxy_lm_go.Core.Pool.{any_healthy_compatible, mark_visited, clear_visited}
use proxy_lm_go.Core.Submit.{Answer, returned, is_final}
use proxy_lm_go.Core.Submit.Deferred.{
  PoolWait, received, cancelled_in_pool, cancelled_running, PullRound, PullState, Stay,
  exclude_failed, lift_exclusion, after_result, settle, stay_of, after_pull_pause, pull_step,
  continue_pull, pull_loop, submit_deferred,
}

-- The job of a retry has a healthy server that it may run on, or it excludes none; and the server
-- that failed last is excluded, or none is.
pub record Placeable (servers : List ServerInfo) (failed : String) (j : Job) : Type 0 where
  pub not_stuck : (any_healthy_compatible servers j.model j.visited ≡ true) ⊎ (j.visited ≡ [])
  pub excludes : (failed ≡ "") ⊎ ((contains j.visited failed ≡ true) ⊎ (j.visited ≡ []))

-- What a request may look like, seen from its stays in the pool, when `total` attempts were made
-- before and the next push is of the job `j`.
pub data Request (c : RetryConfig) (env : ℕ → PullRound)
    : ℕ → Job → List Stay → Answer → Type 0 where
  gave_up :
      (total : ℕ) (j : Job) (r : JobResult) (e : Err)
      → Request c env total j [] (returned r (some e))
  cancelled :
      (total : ℕ) (j : Job) (stay : Stay) (r : JobResult) (e : Err)
      → stay.pushed ≡ j
      → Request c env total j (stay ∷ []) (returned r (some e))
  answered :
      (total : ℕ) (j : Job) (stay : Stay) (res : JobResult)
      → stay.pushed ≡ j
      → stay.ends ≡ received res
      → (is_final res ≡ true) ⊎ (c.max_attempts ≤ total + 1)
      → Request c env total j (stay ∷ []) (returned (record res { attempt = total + 1 }) res.err)
  retried :
      (total : ℕ) (j : Job) (stay : Stay) (res : JobResult) (j' : Job) {rest : List Stay}
      {answer : Answer}
      → stay.pushed ≡ j
      → stay.ends ≡ received res
      → is_final res ≡ false
      → total + 1 < c.max_attempts
      → Placeable (env total).servers_after res.server j'
      → Request c env (total + 1) j' rest answer
      → Request c env total j (stay ∷ rest) answer

lift_exclusion-Placeable :
    (servers : List ServerInfo) (failed : String) (j : Job)
    → (failed ≡ "") ⊎ (contains j.visited failed ≡ true)
    → Placeable servers failed (lift_exclusion servers j)
unfolding lift_exclusion clear_visited
lift_exclusion-Placeable servers failed j h =
    elim (Bool-cases (any_healthy_compatible servers j.model j.visited)) [
      | inl e ↦ rw e (record { not_stuck = inl e; excludes = widen h })
      | inr e ↦ rw e (record { not_stuck = inr refl; excludes = inr (inr refl) })
    ]
  where
    widen :
        (failed ≡ "") ⊎ (contains j.visited failed ≡ true)
        → (failed ≡ "") ⊎ ((contains j.visited failed ≡ true) ⊎ (j.visited ≡ []))
    widen (inl e) = inl e
    widen (inr e) = inr (inl e)

exclude_failed-excludes :
    (j : Job) (server : String)
    → (server ≡ "") ⊎ (contains (exclude_failed j server).visited server ≡ true)
unfolding exclude_failed mark_visited
exclude_failed-excludes j server = elim (Bool-cases (server == "")) [
  | inl e ↦ inl ((eq_iff server "").0 e)
  | inr e ↦ inr (rw (e, eq_refl server) refl)
]

module _ (c : RetryConfig) (env : ℕ → PullRound) where
  after_result-Request :
      (st : PullState) (rest : PullState → List Stay × Answer) (res : JobResult)
      → (env st.total).wait st.job ≡ received res
      → ((st' : PullState)
          → st'.total ≡ st.total + 1
          → st.total + 1 < c.max_attempts
          → Request c env st'.total st'.job (rest st').0 (rest st').1)
      → (let step =
            after_result c
              (env st.total)
              st
              (stay_of (env st.total) st.job)
              (record res { attempt = st.total + 1 }) in
          Request c env st.total st.job (continue_pull rest step).0 (continue_pull rest step).1)
  unfolding after_result stay_of is_final
  after_result-Request st rest res w h =
      elim (Bool-cases (is_final res || leb c.max_attempts (st.total + 1))) [
        | inl e ↦ rw e (answered _ _ _ res refl w (ground arith))
        | inr e ↦ rw e (
            retried _ _ _ res _ refl w (ground arith) (ground arith)
              (lift_exclusion-Placeable _ res.server _ (exclude_failed-excludes st.job res.server))
              (h _ refl (ground arith)))
      ]

  settle-Request :
      (st : PullState) (rest : PullState → List Stay × Answer) (w : PoolWait)
      → (env st.total).wait st.job ≡ w
      → ((st' : PullState)
          → st'.total ≡ st.total + 1
          → st.total + 1 < c.max_attempts
          → Request c env st'.total st'.job (rest st').0 (rest st').1)
      → (let step = settle c (env st.total) st (stay_of (env st.total) st.job) w in
          Request c env st.total st.job (continue_pull rest step).0 (continue_pull rest step).1)
  unfolding stay_of
  settle-Request st rest (received res) e h = after_result-Request st rest res e h
  settle-Request st rest (cancelled_in_pool x) e h = cancelled _ _ _ _ x refl
  settle-Request st rest (cancelled_running x res) e h = cancelled _ _ _ res x refl

  pause-Request :
      (st : PullState) (rest : PullState → List Stay × Answer) (o : Option Err)
      → ((st' : PullState)
          → st'.total ≡ st.total + 1
          → st.total + 1 < c.max_attempts
          → Request c env st'.total st'.job (rest st').0 (rest st').1)
      → (let step = after_pull_pause c (env st.total) st o in
          Request c env st.total st.job (continue_pull rest step).0 (continue_pull rest step).1)
  pause-Request st rest none h = settle-Request st rest _ refl h
  pause-Request st rest (some e) h = gave_up _ _ _ e

  pull_loop-Request :
      (fuel : ℕ) (st : PullState)
      → 1 ≤ fuel
      → c.max_attempts ≤ fuel + st.total
      → Request c env st.total st.job (pull_loop c env fuel st).0 (pull_loop c env fuel st).1
  unfolding pull_loop pull_step
  pull_loop-Request zero st some_fuel enough = absurd (omega arith)
  pull_loop-Request (suc fuel) st some_fuel enough =
      pause-Request st (pull_loop c env fuel) _
        (λ st' e more. pull_loop-Request fuel st' (omega (arith, e)) (omega (arith, e)))

-- Every request has a form that `Request` lists.
pub submit_deferred-Request :
    (c : RetryConfig) (servers : List ServerInfo) (j : Job) (env : ℕ → PullRound)
    → Request c env 0 j (submit_deferred c servers j env).0 (submit_deferred c servers j env).1
unfolding submit_deferred
submit_deferred-Request c servers j env =
    elim (Bool-cases (any_healthy_compatible servers j.model [])) [
      | inl e ↦ rw e (pull_loop-Request c env (c.max_attempts + 1) _ (omega arith) (omega arith))
      | inr e ↦ rw e (gave_up 0 j zero_result (no_server j.model))
    ]
