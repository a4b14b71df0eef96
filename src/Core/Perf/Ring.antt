-- ===== src/Core/Perf/Ring.antt =====
-- The ring buffers: their bound, and what cutting to the newest observations does.
use proxy_lm_go.Common.{
  ℕ, ◌+◌, ◌-◌, ◌≤◌, ℤ, ◌≡◌, ap, ◌∙◌, inl, inr, Bool, false, List, ◌++◌, arith, ltb, length,
  length-append, drop, length-drop, drop-append, drop-drop, Bool-cases,
}
use proxy_lm_go.Core.Perf.{
  Observation, PerfKey, PerfTracker, newest, store, is_valid, record_observation,
  perf_max_observations,
}

-- Every buffer holds at most as many observations as it may.
abbrev pub Bounded : PerfTracker → Type 0
Bounded p = (k : PerfKey) → length (p.by_slot k) ≤ perf_max_observations

length-newest : (obs : List Observation) → length (newest obs) ≤ perf_max_observations
unfolding newest
length-newest obs = ground (arith, length-drop (length obs - perf_max_observations) obs)

store-Bounded :
    (slots : PerfKey → List Observation) (k : PerfKey) (obs : List Observation)
    → ((j : PerfKey) → length (slots j) ≤ perf_max_observations)
    → (j : PerfKey) → length (store slots k (newest obs) j) ≤ perf_max_observations
unfolding store
store-Bounded slots k obs b j = ground (arith, length-newest obs, b j)

-- `Record` keeps every buffer within its bound.
pub record_observation-Bounded :
    (p : PerfTracker) (k : PerfKey) (prompt output total_ms : ℤ) (loaded : Bool)
    → Bounded p
    → Bounded (record_observation p k prompt output total_ms loaded).0
unfolding record_observation
record_observation-Bounded p k prompt output total_ms loaded b =
    elim (Bool-cases (is_valid output total_ms)) [
      | inl e ↦ rw e (store-Bounded p.by_slot k _ b)
      | inr e ↦ rw e b
    ]

newest-drop : (obs : List Observation) → newest obs ≡ drop (length obs - perf_max_observations) obs
unfolding newest
newest-drop obs = elim (Bool-cases (ltb perf_max_observations (length obs))) [
  | inl e ↦ rw e
  | inr e ↦ rw (e, none_over (length obs) e)
]
  where
    none_over : (n : ℕ) → ltb perf_max_observations n ≡ false → n - perf_max_observations ≡ 0
    none_over n e = ground arith

-- Cutting before an append makes no difference to the cut after it.
pub newest-append : (xs ys : List Observation) → newest (newest xs ++ ys) ≡ newest (xs ++ ys)
newest-append xs ys =
    rw (newest-drop xs, ← drop-append over xs ys (omega arith))
      (rw (newest-drop (drop over (xs ++ ys)), newest-drop (xs ++ ys))
        (drop-drop _ over (xs ++ ys) ∙ ap (λ n. drop n (xs ++ ys)) count))
  where
    over : ℕ
    over = length xs - perf_max_observations

    count :
        over + (length (drop over (xs ++ ys)) - perf_max_observations)
        ≡ length (xs ++ ys) - perf_max_observations
    count = omega (arith, length-drop over (xs ++ ys), length-append xs ys)

-- A buffer within its bound is not cut.
pub newest-Bounded :
    (obs : List Observation) → length obs ≤ perf_max_observations → newest obs ≡ obs
unfolding newest
newest-Bounded obs h = ground arith
