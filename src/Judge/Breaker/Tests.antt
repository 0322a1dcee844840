-- ===== src/Judge/Breaker/Tests.antt =====
-- The theorems on apps/judge/backpressure.py at concrete inputs.
use decisionos.Common.{ℕ, ◌≡◌, refl, Bool, true, false, List, [], ◌∷◌, arith}
use decisionos.Judge.Breaker.{Breaker, init, closed, open_, half_open, call}
use decisionos.Judge.Breaker.Sequential.{IsValid, calls, AllEnd, recovery}

abbrev opened : Breaker
opened = record (init 3 60 2) { state = open_; failure_count = 3; last_failure_time = 100 }

opened-IsValid : IsValid opened
opened-IsValid = ground arith

abbrev trying : Breaker
trying = record opened { state = half_open }

fresh-IsValid : IsValid (init 3 60 2)
fresh-IsValid = ground arith

abbrev failures : List (Bool × ℕ × ℕ)
failures = (false, 1, 2) ∷ ((false, 3, 4) ∷ ((false, 5, 6) ∷ []))

recovery_example :
    (AllEnd true ((true, 180, 181) ∷ [])
      → ◌≡◌ {A = ℕ} 2 2
      → ((calls ((true, 170, 171) ∷ ((true, 180, 181) ∷ [])) opened).state ≡ closed)
        × ((calls ((true, 170, 171) ∷ ((true, 180, 181) ∷ [])) opened).failure_count ≡ 0))
    × ((call false 170 171 opened).1.state ≡ open_)
recovery_example = recovery 170 171 ((true, 180, 181) ∷ []) opened opened-IsValid refl (omega arith)
