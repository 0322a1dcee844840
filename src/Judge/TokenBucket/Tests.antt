-- ===== src/Judge/TokenBucket/Tests.antt =====
-- The theorem on the token bucket of apps/judge/backpressure.py at a concrete input.
use decisionos.Common.{ℕ, ◌+◌, ◌*◌, ◌≤◌, List, [], ◌∷◌, arith}
use decisionos.Judge.TokenBucket.{init}
use decisionos.Judge.TokenBucket.Rate.{granted, granted_bounded}

abbrev asked : List (ℕ × ℕ)
asked = (1000000, 8) ∷ ((1500000, 4) ∷ ((2000000, 1) ∷ []))

granted_bounded_example :
    (granted asked (init 10 2 1000000) * 1000000 + 2 * 1000000 ≤ 10000000 + 2 * 2000000)
    × (granted asked (init 10 2 1000000) * 1000000 + 2 * 1000000 ≤ 10 * 1000000 + 2 * 2000000)
granted_bounded_example =
    granted_bounded asked (init 10 2 1000000) (omega arith, omega arith)
      (omega arith, (omega arith, (omega arith, tt)))
