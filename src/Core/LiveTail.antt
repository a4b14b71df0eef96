-- ===== src/Core/LiveTail.antt =====
-- internal/core/livetail.go: the last runes of the answers that are being generated. The map is an
-- association list; a text is the list of its runes (`[]rune`), which is a parameter of the code that
-- has strings. The lock makes each method one step.
pub mod LastRunes
use proxy_lm_go.Common.{
  ℕ, ◌-◌, String, ◌==◌, Bool, ◌||◌, Option, none, some, List, [], ◌∷◌, ◌++◌, map, length, drop, eqb,
  if◌then◌else◌,
}

-- `liveTailMaxRunes`
abbrev pub live_tail_max_runes : ℕ
live_tail_max_runes = 160

abbrev pub LiveTail : Type 0
LiveTail = List (String × List ℕ)

-- `NewLiveTail`
abbrev pub new_live_tail : LiveTail
new_live_tail = []

-- Line feed, carriage return and tab become a space.
abbrev pub sanitize_rune : ℕ → ℕ
sanitize_rune r = if eqb r 10 || (eqb r 13 || eqb r 9) then 32 else r

-- `sanitizeTail`
abbrev pub sanitize_tail : List ℕ → List ℕ
sanitize_tail = map sanitize_rune

-- `r = r[len(r)-liveTailMaxRunes:]` if `r` is longer.
abbrev pub last_runes : List ℕ → List ℕ
last_runes r = drop (length r - live_tail_max_runes) r

-- `lt.m[id]`
unfoldable pub get : LiveTail → String → List ℕ
get [] id = []
get (e ∷ m) id = if e.0 == id then e.1 else get m id

unfoldable pub put : LiveTail → String → List ℕ → LiveTail
put [] id tail = (id, tail) ∷ []
put (e ∷ m) id tail = let rest = put m id tail in if e.0 == id then (id, tail) ∷ m else e ∷ rest

abbrev is_empty : List ℕ → Bool
is_empty [] = Bool.true
is_empty (r ∷ rs) = Bool.false

-- `Append`
unfoldable pub append : LiveTail → String → List ℕ → LiveTail
append m id chunk =
    if id == "" || is_empty chunk
    then m
    else put m id (last_runes (get m id ++ sanitize_tail chunk))

unfoldable pub remove : LiveTail → String → LiveTail
remove [] id = []
remove (e ∷ m) id = let rest = remove m id in if e.0 == id then rest else e ∷ rest

-- `Delete`
unfoldable pub delete : LiveTail → String → LiveTail
delete m id = if id == "" then m else remove m id
