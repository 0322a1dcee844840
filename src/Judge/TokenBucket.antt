-- ===== src/Judge/TokenBucket.antt =====
-- apps/judge/backpressure.py: the token bucket. Clock readings are microseconds, and tokens are
-- counted in millionths, so that a refill at a whole number of tokens a second is exact.
mod Tests
pub mod Rate
use decisionos.Common.{ℕ, ◌*◌, Bool, true, false, if◌then◌else◌}
use decisionos.Common.Int.{ℤ, pos, ◌+ℤ◌, ◌-ℤ◌, ltb_ℤ}

pub record TokenBucket : Type 0 where
  pub capacity : ℕ
  pub refill_rate : ℕ
  pub tokens : ℤ
  pub last_refill : ℕ

abbrev pub micro : ℕ → ℤ
micro n = pos (n * 1000000)

-- `__init__`
abbrev pub init : ℕ → ℕ → ℕ → TokenBucket
init capacity refill_rate now = record {
  capacity = capacity;
  refill_rate = refill_rate;
  tokens = micro capacity;
  last_refill = now;
}

abbrev min_ℤ : ℤ → ℤ → ℤ
min_ℤ a b = if ltb_ℤ b a then b else a

-- A clock that runs backwards takes tokens away, as the code does.
unfoldable pub refill : ℕ → TokenBucket → TokenBucket
refill now b =
    let refill_amount = pos (b.refill_rate * now) -ℤ pos (b.refill_rate * b.last_refill) in
    record b { tokens = min_ℤ (micro b.capacity) (b.tokens +ℤ refill_amount); last_refill = now }

unfoldable pub consume : ℕ → ℕ → TokenBucket → Bool × TokenBucket
consume now tokens b =
    let b' = refill now b in
    if ltb_ℤ b'.tokens (micro tokens)
    then (false, b')
    else (true, record b' { tokens = b'.tokens -ℤ micro tokens })
