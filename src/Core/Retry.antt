-- ===== src/Core/Retry.antt =====
-- internal/core/retry.go. A `time.Duration` is an int64 number of nanoseconds, kept as its bit pattern.
pub mod Backoff
use proxy_lm_go.Common.{
  ℕ, zero, suc, ◌+◌, ◌*◌, ◌%◌, ◌-◌, Bool, if◌then◌else◌, leb, less64, int64_mod,
}

-- `max_attempts` may be zero or negative in Go, which ends a request after one attempt as one does;
-- it is kept as a natural number.
pub record RetryConfig : Type 0 where
  pub max_attempts : ℕ
  pub initial_backoff : ℕ
  pub max_backoff : ℕ

-- The loop of `Backoff`, with the rounds left: `d *= 2`, and an early return of the maximum.
unfoldable pub doubled : ℕ → ℕ → ℕ → ℕ
doubled zero max d = if less64 max d then max else d
doubled (suc rounds) max d =
    let d' = d * 2 % int64_mod in
    let rest = doubled rounds max d' in if less64 d' max then rest else max

-- The loop runs for i = 2, …, attempt - 1.
unfoldable pub backoff : RetryConfig → ℕ → ℕ
unfolding doubled
backoff c attempt =
    if leb attempt 1 then 0 else doubled (attempt - 2) c.max_backoff c.initial_backoff
