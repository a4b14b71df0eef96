-- ===== src/Core/Perf.antt =====
-- internal/core/perf.go: the store of observations, a ring buffer for each (server, model, endpoint).
-- The regression over them works on float64 and is not modelled.
pub mod Ring
pub mod Restart
use proxy_lm_go.Common.{
  ℕ, zero, suc, ◌+◌, ◌-◌, ℤ, String, ◌==◌, Bool, true, false, ◌&&◌, ◌||◌, Option, none, some, List,
  [], ◌∷◌, ◌++◌, if◌then◌else◌, ltb, eqb, ltb_ℤ, leb_ℤ, length, drop,
}

abbrev pub perf_min_samples : ℕ
perf_min_samples = 3

abbrev pub perf_max_observations : ℕ
perf_max_observations = 1000

-- Also `perfObservation`, which has the same fields.
pub record Observation : Type 0 where
  pub prompt : ℤ
  pub output : ℤ
  pub total_ms : ℤ
  pub loaded : Bool

pub record PerfKey : Type 0 where
  pub server : String
  pub model : String
  pub endpoint : String

abbrev pub same_key : PerfKey → PerfKey → Bool
same_key a b = a.server == b.server && a.model == b.model && a.endpoint == b.endpoint

-- `has_sink`: a sink is connected. The map is a function; a missing key has the empty list.
pub record PerfTracker : Type 0 where
  pub by_slot : PerfKey → List Observation
  pub has_sink : Bool

unfoldable pub new_perf_tracker : PerfTracker
new_perf_tracker = record { by_slot = λ _. []; has_sink = false }

unfoldable pub set_sink : PerfTracker → Bool → PerfTracker
set_sink p connected = record p { has_sink = connected }

-- The newest observations, at most as many as the buffer holds.
unfoldable pub newest : List Observation → List Observation
newest obs =
    if ltb perf_max_observations (length obs)
    then drop (length obs - perf_max_observations) obs
    else obs

unfoldable pub store :
    (PerfKey → List Observation) → PerfKey → List Observation → PerfKey → List Observation
store slots k obs k' = if same_key k' k then obs else slots k'

abbrev pub is_valid : ℤ → ℤ → Bool
is_valid output total_ms = ltb_ℤ (ℤ.pos 0) total_ms && ltb_ℤ (ℤ.pos 0) output

unfoldable pub observation : ℤ → ℤ → ℤ → Bool → Observation
observation prompt output total_ms loaded = record {
  prompt = if ltb_ℤ prompt (ℤ.pos 0) then ℤ.pos 0 else prompt;
  output = output;
  total_ms = total_ms;
  loaded = loaded;
}

-- The new tracker, and what the sink was called with.
unfoldable pub record_observation :
    PerfTracker → PerfKey → ℤ → ℤ → ℤ → Bool → PerfTracker × Option (PerfKey × Observation)
record_observation p k prompt output total_ms loaded =
    let o = observation prompt output total_ms loaded in
    if is_valid output total_ms
    then (
      record p { by_slot = store p.by_slot k (newest (p.by_slot k ++ (o ∷ []))) },
      if p.has_sink then some (k, o) else none,
    )
    else (p, none)

unfoldable pub load : PerfTracker → PerfKey → List Observation → PerfTracker
load p k obs =
    if eqb (length obs) 0
    then p
    else record p { by_slot = store p.by_slot k (newest (p.by_slot k ++ obs)) }
