-- ===== src/Core/LiveTail/LastRunes.antt =====
-- internal/core/livetail.go: the tails after a sequence of `Append` and `Delete`.
use proxy_lm_go.Common.{
  ℕ, ◌-◌, ◌≤◌, String, ◌==◌, ◌≡◌, refl, sym, ap, subst, ◌∙◌, inl, inr, false, Bool-cases, List, [],
  ◌∷◌, ◌++◌, length, drop, length-append, length-drop, drop-append, drop-drop, append-nil,
  if◌then◌else◌, eq_refl, eq_iff, arith,
}
use proxy_lm_go.Core.LiveTail.{
  live_tail_max_runes, LiveTail, new_live_tail, sanitize_tail, last_runes, get, put, append, remove,
  delete,
}

get-put : (m : LiveTail) (id : String) (tail : List ℕ) → get (put m id tail) id ≡ tail
unfolding get put
get-put [] id tail = simp (eq_refl id)
get-put (e ∷ m) id tail = elim (Bool-cases (e.0 == id)) [
  | inl q ↦ simp (q, eq_refl id)
  | inr q ↦ simp (q, get-put m id tail)
]

get-put_other :
    (m : LiveTail) (id other : String) (tail : List ℕ)
    → id == other ≡ false
    → get (put m id tail) other ≡ get m other
unfolding get put
get-put_other [] id other tail d = simp d
get-put_other (e ∷ m) id other tail d = elim (Bool-cases (e.0 == id)) [
  | inl q ↦ simp (q, ap (λ x. x == other) ((eq_iff e.0 id).0 q) ∙ d, d)
  | inr q ↦ elim (Bool-cases (e.0 == other)) [
    | inl r ↦ simp (q, r)
    | inr r ↦ simp (q, r, get-put_other m id other tail d)
  ]
]

length-last : (r : List ℕ) → length (last_runes r) ≤ live_tail_max_runes
length-last r = omega (arith, length-drop (length r - live_tail_max_runes) r)

last-drop :
    (a : ℕ) (zs : List ℕ)
    → a ≤ length zs - live_tail_max_runes
    → last_runes (drop a zs) ≡ last_runes zs
last-drop a zs h =
    drop-drop (length (drop a zs) - live_tail_max_runes) a zs
    ∙ ap (λ n. drop n zs) (omega (arith, h, length-drop a zs))

-- Cutting before more comes makes no difference.
last-append : (xs ys : List ℕ) → last_runes (last_runes xs ++ ys) ≡ last_runes (xs ++ ys)
last-append xs ys =
    let a = length xs - live_tail_max_runes in
    ap last_runes (sym (drop-append a xs ys (omega arith)))
    ∙ last-drop a (xs ++ ys) (omega (arith, length-append xs ys))

get-remove : (m : LiveTail) (id : String) → get (remove m id) id ≡ []
unfolding get remove
get-remove [] id = refl
get-remove (e ∷ m) id = elim (Bool-cases (e.0 == id)) [
  | inl q ↦ simp (q, get-remove m id)
  | inr q ↦ simp (q, get-remove m id)
]

get-remove_other :
    (m : LiveTail) (id other : String) → id == other ≡ false → get (remove m id) other ≡ get m other
unfolding get remove
get-remove_other [] id other d = refl
get-remove_other (e ∷ m) id other d = elim (Bool-cases (e.0 == id)) [
  | inl q ↦ simp (q, ap (λ x. x == other) ((eq_iff e.0 id).0 q) ∙ d, get-remove_other m id other d)
  | inr q ↦ elim (Bool-cases (e.0 == other)) [
    | inl r ↦ simp (q, r)
    | inr r ↦ simp (q, r, get-remove_other m id other d)
  ]
]

-- The calls of the store's methods.
pub data Op : Type 0 where
  appended : String → List ℕ → Op
  deleted : String → Op

abbrev pub apply : LiveTail → Op → LiveTail
apply m (appended id chunk) = append m id chunk
apply m (deleted id) = delete m id

abbrev pub replay : LiveTail → List Op → LiveTail
replay m [] = m
replay m (o ∷ os) = replay (apply m o) os

-- What was generated for a request since its last deletion, without any cut.
abbrev pub told : String → List ℕ → Op → List ℕ
told id whole (appended i chunk) = if i == id then whole ++ sanitize_tail chunk else whole
told id whole (deleted i) = if i == id then [] else whole

abbrev pub told_all : String → List ℕ → List Op → List ℕ
told_all id whole [] = whole
told_all id whole (o ∷ os) = told_all id (told id whole o) os

put-same :
    (m : LiveTail) (id : String) (whole chunk : List ℕ)
    → get m id ≡ last_runes whole
    → get (put m id (last_runes (get m id ++ chunk))) id ≡ last_runes (whole ++ chunk)
put-same m id whole chunk h =
    get-put m id _ ∙ ap (λ t. last_runes (t ++ chunk)) h ∙ last-append whole chunk

append-empty : (m : LiveTail) (i : String) → append m i [] ≡ m
unfolding append
append-empty m i = elim (Bool-cases (i == "")) [ inl e ↦ simp e | inr e ↦ simp e ]

told-empty : (id i : String) (whole : List ℕ) → told id whole (appended i []) ≡ whole
told-empty id i whole = elim (Bool-cases (i == id)) [
  | inl e ↦ simp e (append-nil whole)
  | inr e ↦ simp e
]

append-same :
    (m : LiveTail) (id : String) (whole : List ℕ) (r : ℕ) (rs : List ℕ)
    → id == "" ≡ false
    → get m id ≡ last_runes whole
    → get (append m id (r ∷ rs)) id ≡ last_runes (whole ++ sanitize_tail (r ∷ rs))
unfolding append
append-same m id whole r rs n h = rw n (put-same m id whole (sanitize_tail (r ∷ rs)) h)

append-told :
    (m : LiveTail) (i id : String) (whole chunk : List ℕ)
    → id == "" ≡ false
    → get m id ≡ last_runes whole
    → get (append m i chunk) id ≡ last_runes (told id whole (appended i chunk))
unfolding append
append-told m i id whole [] n h =
    ap (λ t. get t id) (append-empty m i) ∙ h ∙ ap last_runes (sym (told-empty id i whole))
append-told m i id whole (r ∷ rs) n h = elim (Bool-cases (i == id)) [
  | inl q ↦ rw q (
      subst (λ x. get (append m x (r ∷ rs)) id ≡ last_runes (whole ++ sanitize_tail (r ∷ rs)))
        (sym ((eq_iff i id).0 q)) (append-same m id whole r rs n h))
  | inr q ↦ elim (Bool-cases (i == "")) [
    | inl z ↦ simp (q, z, h)
    | inr z ↦ simp (q, z) (get-put_other m i id _ q ∙ h)
  ]
]

delete-told :
    (m : LiveTail) (i id : String) (whole : List ℕ)
    → id == "" ≡ false
    → get m id ≡ last_runes whole
    → get (delete m i) id ≡ last_runes (told id whole (deleted i))
unfolding delete
delete-told m i id whole n h = elim (Bool-cases (i == id)) [
  | inl q ↦
      let same = (eq_iff i id).0 q in
      rw q (subst (λ x. get (delete m x) id ≡ []) (sym same) (rw n (get-remove m id)))
  | inr q ↦ elim (Bool-cases (i == "")) [
    | inl z ↦ simp (q, z, h)
    | inr z ↦ simp (q, z) (get-remove_other m i id q ∙ h)
  ]
]

apply-told :
    (m : LiveTail) (o : Op) (id : String) (whole : List ℕ)
    → id == "" ≡ false
    → get m id ≡ last_runes whole
    → get (apply m o) id ≡ last_runes (told id whole o)
apply-told m (appended i chunk) id whole n h = append-told m i id whole chunk n h
apply-told m (deleted i) id whole n h = delete-told m i id whole n h

replay-told :
    (m : LiveTail) (os : List Op) (id : String) (whole : List ℕ)
    → id == "" ≡ false
    → get m id ≡ last_runes whole
    → get (replay m os) id ≡ last_runes (told_all id whole os)
replay-told m [] id whole n h = h
replay-told m (o ∷ os) id whole n h =
    replay-told (apply m o) os id (told id whole o) n (apply-told m o id whole n h)

-- The store refines the texts themselves: after any sequence of `Append` and `Delete` for any
-- requests, starting from an empty store, `Get` of an ID that is not empty is the last 160 runes of
-- everything that was appended for it since its last deletion, with control runes as spaces.
pub replay-get :
    (os : List Op) (id : String)
    → id == "" ≡ false
    → get (replay new_live_tail os) id ≡ last_runes (told_all id [] os)
unfolding get
replay-get os id n = replay-told new_live_tail os id [] n refl
