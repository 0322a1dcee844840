-- ===== src/Judge/TokenBucket/Rate.antt =====
-- How many tokens the bucket of apps/judge/backpressure.py gives out.
use decisionos.Common.{ℕ, ◌+◌, ◌*◌, ◌≤◌, ◌≡◌, List, [], ◌∷◌, arith, if◌then◌else◌}
use native.Mathlib.Nat.{mul-le-mul_left}
use decisionos.Common.Int.{pos, pos_part, ◌+ℤ◌, ◌-ℤ◌, ◌≤ℤ◌}
use decisionos.Judge.TokenBucket.{TokenBucket, micro, refill, consume}

-- No fewer than none and no more than the capacity.
abbrev pub IsFilled : TokenBucket → Type 0
IsFilled b = (pos 0 ≤ℤ b.tokens) × (b.tokens ≤ℤ micro b.capacity)

-- Requests for tokens, each with its time, and the tokens given out.
abbrev pub granted : List (ℕ × ℕ) → TokenBucket → ℕ
granted [] b = 0
granted ((now, n) ∷ l) b =
    let rest = granted l (consume now n b).1 in if (consume now n b).0 then n + rest else rest

abbrev pub Ordered : ℕ → List (ℕ × ℕ) → Type 0
Ordered c [] = Unit
Ordered c ((now, n) ∷ l) = (c ≤ now) × Ordered now l

abbrev pub end_of : ℕ → List (ℕ × ℕ) → ℕ
end_of c [] = c
end_of c ((now, n) ∷ l) = end_of now l

module _ (now n : ℕ) (b : TokenBucket) (h : b.last_refill ≤ now) (f : IsFilled b) where
  refill-facts :
      let b' = refill now b in
      IsFilled b'
      × (b'.last_refill ≡ now)
      × (pos_part b'.tokens + b.refill_rate * b.last_refill
          ≤ pos_part b.tokens + b.refill_rate * now)
  unfolding refill ◌+ℤ◌ ◌-ℤ◌
  refill-facts = ground (arith, mul-le-mul_left b.refill_rate h, f.0, f.1)

  consume-facts :
      let (got, b') = consume now n b in
      IsFilled b'
      × (b'.last_refill ≡ now)
      × (pos_part b'.tokens + (if got then n else 0) * 1000000 + b.refill_rate * b.last_refill
          ≤ pos_part b.tokens + b.refill_rate * now)
  unfolding consume ◌-ℤ◌
  consume-facts = ground (arith, refill-facts)

  consume-shape :
      let b' = (consume now n b).1 in (b'.refill_rate ≡ b.refill_rate) × (b'.capacity ≡ b.capacity)
  unfolding consume refill
  consume-shape = ground arith

granted_from :
    (l : List (ℕ × ℕ)) (b : TokenBucket)
    → IsFilled b
    → Ordered b.last_refill l
    → granted l b * 1000000 + b.refill_rate * b.last_refill
      ≤ pos_part b.tokens + b.refill_rate * end_of b.last_refill l
granted_from [] b f o = omega arith
granted_from ((now, n) ∷ l) b f o =
    let b' = (consume now n b).1 in
    let facts = consume-facts now n b o.0 f in
    let rest = granted_from l b' facts.0 (rw facts.1 o.1) in
    ground (arith, facts, consume-shape now n b o.0 f, rest)

-- From a bucket that holds between none and its capacity, and while the clock does not run backwards,
-- requests of any sizes are granted no more tokens in all than it held at first and the rate has
-- brought in between, and no more than its capacity and what the rate has brought in.
pub granted_bounded :
    (l : List (ℕ × ℕ)) (b : TokenBucket)
    → IsFilled b
    → Ordered b.last_refill l
    → (granted l b * 1000000 + b.refill_rate * b.last_refill
        ≤ pos_part b.tokens + b.refill_rate * end_of b.last_refill l)
      × (granted l b * 1000000 + b.refill_rate * b.last_refill
          ≤ b.capacity * 1000000 + b.refill_rate * end_of b.last_refill l)
granted_bounded l b f o = (granted_from l b f o, ground (arith, granted_from l b f o))
