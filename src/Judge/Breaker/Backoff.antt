-- ===== src/Judge/Breaker/Backoff.antt =====
-- apps/judge/backpressure.py: `calculate_backoff_ms`. The product is a float, exact for the powers
-- of two that it can hold; past attempt 1017 it is infinite, or the power overflows, and the call
-- raises `OverflowError`.
use native.Mathlib.Nat.{pow-le-pow_right}
use decisionos.Common.{ℕ, ◌*◌, ◌^◌, ◌≤◌, ◌<◌, ◌≡◌, Option, none, some, arith, leb, if◌then◌else◌}

abbrev pub backoff_initial_ms : ℕ
backoff_initial_ms = 100

abbrev pub backoff_max_ms : ℕ
backoff_max_ms = 30000

abbrev pub last_finite_attempt : ℕ
last_finite_attempt = 1017

abbrev capped : ℕ → ℕ
capped n = if leb n backoff_max_ms then n else backoff_max_ms

-- `none` is the `OverflowError`.
unfoldable pub calculate_backoff_ms : ℕ → Option ℕ
calculate_backoff_ms attempt =
    if leb attempt last_finite_attempt
    then some (capped (backoff_initial_ms * 2 ^ attempt))
    else none

-- No wait is longer than 30 s or shorter than 100 ms, waits do not get shorter from one attempt to
-- a later one, and from the ninth doubling on the wait is 30 s; past attempt 1017 the call raises.
pub calculate_backoff_ms_lem :
    (a b : ℕ)
    → a ≤ b
    → b ≤ last_finite_attempt
    → (m : ℕ) × (n : ℕ) × (calculate_backoff_ms a ≡ some m)
      × (calculate_backoff_ms b ≡ some n)
      × (backoff_initial_ms ≤ m)
      × (m ≤ n)
      × (n ≤ backoff_max_ms)
      × (9 ≤ a → m ≡ backoff_max_ms)
unfolding calculate_backoff_ms
calculate_backoff_ms_lem a b h fin = (
  capped (backoff_initial_ms * 2 ^ a),
  capped (backoff_initial_ms * 2 ^ b),
  ground arith,
  ground arith,
  ground (arith, pow-le-pow_right {n = 2} (omega arith) {i = 0} {j = a} (omega arith)),
  ground (arith, pow-le-pow_right {n = 2} (omega arith) h),
  ground arith,
  λ nine. ground (arith, pow-le-pow_right {n = 2} (omega arith) nine),
)

pub calculate_backoff_ms_overflow :
    (a : ℕ) → last_finite_attempt < a → calculate_backoff_ms a ≡ none
unfolding calculate_backoff_ms
calculate_backoff_ms_overflow a h = ground arith
