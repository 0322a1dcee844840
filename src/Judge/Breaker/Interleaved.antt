-- ===== src/Judge/Breaker/Interleaved.antt =====
-- The circuit breaker of apps/judge/backpressure.py where calls overlap: between the two parts of a
-- call other calls may take the lock.
use decisionos.Common.{ℕ, ◌<◌, ◌≡◌, List, [], ◌∷◌, arith}
use decisionos.Judge.Breaker.{closed, half_open, Breaker, admitted, enter, succeed, raised}

-- Every one of these calls is admitted by a half-open circuit and leaves it as it was.
abbrev pub AllAdmitted : List ℕ → Breaker → Type 0
AllAdmitted [] b = Unit
AllAdmitted (now ∷ l) b = (enter now b ≡ (admitted half_open, b)) × AllAdmitted l (enter now b).1

half_open_admits :
    (now : ℕ) (b : Breaker)
    → b.state ≡ half_open
    → b.half_open_success_count < b.half_open_requests
    → enter now b ≡ (admitted half_open, b)
unfolding enter
half_open_admits now b e h = ground arith

-- While a half-open circuit has trials left, any number of calls that have not yet ended are
-- admitted at once: the limit counts the trials that have returned and not those under way.
pub half_open_unlimited :
    (l : List ℕ) (b : Breaker)
    → b.state ≡ half_open
    → b.half_open_success_count < b.half_open_requests
    → AllAdmitted l b
half_open_unlimited [] b e h = tt
half_open_unlimited (now ∷ l) b e h =
    (half_open_admits now b e h, rw (half_open_admits now b e h) (half_open_unlimited l b e h))

-- A call that was admitted while the circuit was closed and returns when it is half open clears the
-- count of failures, and then a trial that fails does not open the circuit, if the threshold is
-- above one.
pub stale_success_hides_failure :
    (done : ℕ) (b : Breaker)
    → b.state ≡ half_open
    → 1 < b.threshold
    → ((raised done (succeed closed b)).state ≡ half_open)
      × ((raised done (succeed closed b)).failure_count ≡ 1)
unfolding raised succeed
stale_success_hides_failure done b e h = ground arith
