-- ===== src/Core/Perf/Restart.antt =====
-- internal/core/perf.go: `Record` with its sink, and `Load` of the rows that the sink got.
use proxy_lm_go.Common.{
  ℤ, ◌≡◌, refl, sym, ap, ◌∙◌, Bool, true, Option, none, some, List, [], ◌∷◌, ◌++◌, append_assoc,
  append-nil, arith, eq_iff, eq_refl, if◌then◌else◌, Bool-cases, inl, inr,
}
use proxy_lm_go.Core.Perf.{
  Observation, PerfKey, PerfTracker, new_perf_tracker, set_sink, same_key, newest, store, is_valid,
  observation, record_observation, load,
}
use proxy_lm_go.Core.Perf.Ring.{Bounded, record_observation-Bounded, newest-append, newest-Bounded}

-- The calls of `Record`, in order, and all that the sink received.
pub record Call : Type 0 where
  pub key : PerfKey
  pub prompt : ℤ
  pub output : ℤ
  pub total_ms : ℤ
  pub loaded : Bool

abbrev pub one_of : Option (PerfKey × Observation) → List (PerfKey × Observation)
one_of none = []
one_of (some o) = o ∷ []

abbrev pub record_call : PerfTracker → Call → PerfTracker × Option (PerfKey × Observation)
record_call p c = record_observation p c.key c.prompt c.output c.total_ms c.loaded

unfoldable pub record_all : PerfTracker → List Call → PerfTracker × List (PerfKey × Observation)
record_all p [] = (p, [])
record_all p (c ∷ cs) =
    let (q, seen) = record_call p c in let (r, more) = record_all q cs in (r, one_of seen ++ more)

-- The rows of one key, oldest first.
unfoldable pub rows : PerfKey → List (PerfKey × Observation) → List Observation
rows k [] = []
rows k ((j, o) ∷ rest) = if same_key k j then o ∷ rows k rest else rows k rest

eq_of_same_key : (a b : PerfKey) → same_key a b ≡ true → a ≡ b
eq_of_same_key a b h =
    ground (arith, eq_iff a.server b.server, eq_iff a.model b.model, eq_iff a.endpoint b.endpoint)

rows-append :
    (k : PerfKey) (xs ys : List (PerfKey × Observation))
    → rows k (xs ++ ys) ≡ rows k xs ++ rows k ys
unfolding rows
rows-append k [] ys = refl
rows-append k ((j, o) ∷ xs) ys = ground (arith, rows-append k xs ys)

-- One call appends to a buffer what the sink got for its key.
record_call-rows :
    (p : PerfTracker) (c : Call) (k : PerfKey)
    → p.has_sink ≡ true
    → Bounded p
    → (record_call p c).0.by_slot k ≡ newest (p.by_slot k ++ rows k (one_of (record_call p c).1))
unfolding record_observation store rows
record_call-rows p c k h b = elim (Bool-cases (is_valid c.output c.total_ms)) [
  | inl v ↦ elim (Bool-cases (same_key k c.key)) [
    | inl e ↦
        rw (v, h)
          (rw e (ap (λ j. newest (p.by_slot j ++ (o ∷ []))) (sym (eq_of_same_key k c.key e))))
    | inr e ↦ rw (v, h) (rw e (rw append-nil (sym (newest-Bounded (p.by_slot k) (b k)))))
  ]
  | inr v ↦ rw v (rw append-nil (sym (newest-Bounded (p.by_slot k) (b k))))
]
  where
    o : Observation
    o = observation c.prompt c.output c.total_ms c.loaded

record_call-has_sink : (p : PerfTracker) (c : Call) → (record_call p c).0.has_sink ≡ p.has_sink
unfolding record_observation
record_call-has_sink p c = ground arith

record_all-rows :
    (p : PerfTracker) (cs : List Call) (k : PerfKey)
    → p.has_sink ≡ true
    → Bounded p
    → (record_all p cs).0.by_slot k ≡ newest (p.by_slot k ++ rows k (record_all p cs).1)
unfolding record_all rows
record_all-rows p [] k h b = rw append-nil (sym (newest-Bounded (p.by_slot k) (b k)))
record_all-rows p (c ∷ cs) k h b =
    let q = (record_call p c).0 in
    let bq : Bounded q =
      record_observation-Bounded p c.key c.prompt c.output c.total_ms c.loaded b in
    let ih = record_all-rows q cs k (record_call-has_sink p c ∙ h) bq in
    ih
    ∙ ap (λ l. newest (l ++ rows k (record_all q cs).1)) (record_call-rows p c k h b)
    ∙ newest-append (p.by_slot k ++ rows k (one_of (record_call p c).1))
        (rows k (record_all q cs).1)
    ∙ ap newest (
        append_assoc (p.by_slot k) _ _
        ∙ ap (λ l. p.by_slot k ++ l)
            (sym (rows-append k (one_of (record_call p c).1) (record_all q cs).1)))

load-newest :
    (k : PerfKey) (obs : List Observation) → (load new_perf_tracker k obs).by_slot k ≡ newest obs
unfolding load store new_perf_tracker newest
load-newest k [] = refl
load-newest k (o ∷ obs) = ground (arith, eq_refl k.server, eq_refl k.model, eq_refl k.endpoint)

-- Start with an empty tracker and a sink, and record any calls. Loading the rows that the sink got
-- for a key, in their order, into an empty tracker rebuilds the buffer of that key.
pub load-record_all :
    (cs : List Call) (k : PerfKey)
    → let (p, stored) = record_all (set_sink new_perf_tracker true) cs in
      (load new_perf_tracker k (rows k stored)).by_slot k ≡ p.by_slot k
unfolding load store new_perf_tracker set_sink
load-record_all cs k =
    load-newest k (rows k (record_all (set_sink new_perf_tracker true) cs).1)
    ∙ sym (record_all-rows (set_sink new_perf_tracker true) cs k refl (λ j. omega arith))
