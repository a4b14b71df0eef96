-- ===== src/Core/Retry/Backoff.antt =====
-- The pause between attempts in closed form.
use native.Mathlib.Nat.{pow-suc, one-le-pow}
use native.Mathlib.Numerals.{add-one}
use proxy_lm_go.Common.{
  ℕ, zero, suc, ◌+◌, ◌*◌, ◌^◌, ◌≤◌, ◌<◌, min, ◌≡◌, refl, arith, leb, Bool-cases, inl, inr,
}
use proxy_lm_go.Core.Retry.{RetryConfig, doubled, backoff}

shift : (d rounds : ℕ) → d * 2 * 2 ^ rounds ≡ d * 2 ^ suc rounds
shift d rounds = rw (pow-suc 2 rounds) (omega arith)

grows : (d p : ℕ) → 1 ≤ p → d ≤ d * p
grows d p h = grind arith

-- Below 2 ^ 62 doubling does not overflow: the loop is the doubled pause, cut at the maximum.
doubled-min :
    (rounds max d : ℕ)
    → max < 4611686018427387904
    → d ≤ max
    → doubled rounds max d ≡ min max (d * 2 ^ rounds)
unfolding doubled
doubled-min zero max d m h = ground arith
doubled-min (suc rounds) max d m h = elim (Bool-cases (leb max (d * 2))) [
  | inl e ↦
      ground (arith, shift d rounds, grows (d * 2) (2 ^ rounds) (one-le-pow rounds 2 (omega arith)))
  | inr e ↦ ground (arith, shift d rounds, doubled-min rounds max (d * 2) m (ground arith))
]

-- For an initial pause of at most the maximum, which is below 2 ^ 62 ns, there is no pause before
-- the first attempt, and before attempt k + 2 the pause is initial * 2 ^ k, cut at the maximum.
pub backoff-min :
    (c : RetryConfig)
    → c.max_backoff < 4611686018427387904
    → c.initial_backoff ≤ c.max_backoff
    → (backoff c 0 ≡ 0)
      × (backoff c 1 ≡ 0)
      × ((k : ℕ) → backoff c (k + 2) ≡ min c.max_backoff (c.initial_backoff * 2 ^ k))
unfolding backoff
backoff-min c m h =
    (refl, refl, λ k. ground (arith, doubled-min k c.max_backoff c.initial_backoff m h))

-- Under the same bounds the pause never falls from one attempt to the next, and never passes the maximum.
pub backoff_mono :
    (c : RetryConfig) (attempt : ℕ)
    → c.max_backoff < 4611686018427387904
    → c.initial_backoff ≤ c.max_backoff
    → (backoff c attempt ≤ backoff c (attempt + 1)) × (backoff c (attempt + 1) ≤ c.max_backoff)
backoff_mono c zero m h = let (z, o, _) = backoff-min c m h in omega (arith, z, o)
backoff_mono c (suc zero) m h = let (_, o, at) = backoff-min c m h in omega (arith, o, at 0)
backoff_mono c (suc (suc k)) m h =
    let (_, _, at) = backoff-min c m h in
    let here : suc (suc k) ≡ k + 2 = omega arith in
    let next : suc (suc k) + 1 ≡ k + 1 + 2 = omega arith in
    rw (next, here) (omega (arith, at k, at (k + 1), rises k))
  where
    rises : (i : ℕ) → c.initial_backoff * 2 ^ i ≤ c.initial_backoff * 2 ^ (i + 1)
    rises i = rw add-one (omega (arith, shift c.initial_backoff i))
