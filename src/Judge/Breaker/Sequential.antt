-- ===== src/Judge/Breaker/Sequential.antt =====
-- The circuit breaker of apps/judge/backpressure.py where calls do not overlap.
use decisionos.Common.{
  ℕ, suc, ◌+◌, ◌≤◌, ◌<◌, ◌≡◌, ◌≢◌, refl, Bool, true, false, List, [], ◌∷◌, arith, leb, length,
  if◌then◌else◌,
}
use decisionos.Judge.Breaker.{
  closed, open_, half_open, Breaker, init, half_open_limit, enter, refused, call,
}

-- The counters fit the state: below the threshold while closed, at it or above while not, and with
-- trial requests left while half open.
pub record IsValid (b : Breaker) : Type 0 where
  pub threshold_pos : 0 < b.threshold
  pub trials_pos : 0 < b.half_open_requests
  pub closed_below : b.state ≡ closed → b.failure_count < b.threshold
  pub open_reached : b.state ≢ closed → b.threshold ≤ b.failure_count
  pub trials_left : b.state ≡ half_open → b.half_open_success_count < b.half_open_requests

-- Every call keeps the counters in step with the state.
pub call-IsValid :
    (works : Bool) (now done : ℕ) (b : Breaker) → IsValid b → IsValid (call works now done b).1
unfolding call
call-IsValid works now done b v = ground arith

-- A new breaker with a positive threshold and a positive number of trials is in step.
init-IsValid : (t n h : ℕ) → 0 < t → 0 < h → IsValid (init t n h)
init-IsValid t n h p q = ground arith

-- A circuit that is open refuses every call until the timeout has passed since the last failure,
-- and a refused call changes nothing; from then on the next call runs the function.
pub call-open :
    (works : Bool) (now done : ℕ) (b : Breaker)
    → IsValid b
    → b.state ≡ open_
    → (now < b.last_failure_time + b.timeout → call works now done b ≡ (refused, b))
      × (b.last_failure_time + b.timeout ≤ now → (call works now done b).0 ≢ refused)
unfolding call
call-open works now done b v e = (λ h. ground arith, λ h. ground arith)

-- In a valid breaker the limit on half-open requests never refuses a call: only an open circuit does.
pub enter_never_limited : (now : ℕ) (b : Breaker) → IsValid b → (enter now b).0 ≢ half_open_limit
unfolding enter
enter_never_limited now b v = ground arith

-- Calls, each with whether its function returns and the clock before and after it.
abbrev pub calls : List (Bool × ℕ × ℕ) → Breaker → Breaker
calls [] b = b
calls ((works, now, done) ∷ l) b = calls l (call works now done b).1

-- Every call's function ends this way.
abbrev pub AllEnd : Bool → List (Bool × ℕ × ℕ) → Type 0
AllEnd ends [] = Unit
AllEnd ends ((works, now, done) ∷ l) = (works ≡ ends) × AllEnd ends l

fail_closed :
    (now done : ℕ) (b : Breaker)
    → IsValid b
    → b.state ≡ closed
    → let b' = (call false now done b).1 in
      (b'.failure_count ≡ b.failure_count + 1)
      × (b'.threshold ≡ b.threshold)
      × (b'.state ≡ (if leb b.threshold (b.failure_count + 1) then open_ else closed))
unfolding call
fail_closed now done b v e = ground arith

-- From a closed circuit, exactly as many failing calls in a row as are missing to the threshold open
-- the circuit.
pub failures_open :
    (l : List (Bool × ℕ × ℕ)) (b : Breaker)
    → IsValid b
    → b.state ≡ closed
    → AllEnd false l
    → b.failure_count + length l ≡ b.threshold
    → (calls l b).state ≡ open_
failures_open [] b v e h n = absurd (omega (arith, v.closed_below e))
failures_open ((works, now, done) ∷ []) b v e h n =
    rw h.0 (ground (arith, fail_closed now done b v e))
failures_open ((works, now, done) ∷ (c ∷ l)) b v e h n = rw h.0 (
    failures_open (c ∷ l) (call false now done b).1 (call-IsValid false now done b v)
      (ground (arith, fail_closed now done b v e)) h.1 (ground (arith, fail_closed now done b v e)))

works_half_open :
    (now done : ℕ) (b : Breaker)
    → IsValid b
    → b.state ≡ half_open
    → let b' = (call true now done b).1 in
      (b'.half_open_success_count ≡ b.half_open_success_count + 1)
      × (b'.half_open_requests ≡ b.half_open_requests)
      × (leb b.half_open_requests (b.half_open_success_count + 1) ≡ false → b'.state ≡ half_open)
      × (leb b.half_open_requests (b.half_open_success_count + 1) ≡ true
          → (b'.state ≡ closed) × (b'.failure_count ≡ 0))
unfolding call
works_half_open now done b v e = (ground arith, ground arith, λ h. ground arith, λ h. ground arith)

trials_close :
    (l : List (Bool × ℕ × ℕ)) (b : Breaker)
    → IsValid b
    → b.state ≡ half_open
    → AllEnd true l
    → b.half_open_success_count + length l ≡ b.half_open_requests
    → ((calls l b).state ≡ closed) × ((calls l b).failure_count ≡ 0)
trials_close [] b v e h n = absurd (omega (arith, v.trials_left e))
trials_close ((works, now, done) ∷ []) b v e h n =
    rw h.0 ((works_half_open now done b v e).3 (ground arith))
trials_close ((works, now, done) ∷ (c ∷ l)) b v e h n = rw h.0 (
    trials_close (c ∷ l) (call true now done b).1 (call-IsValid true now done b v)
      ((works_half_open now done b v e).2 (ground arith)) h.1
      (ground (arith, works_half_open now done b v e)))

abbrev on_trial : Breaker → Breaker
on_trial b = record b { state = half_open; half_open_success_count = 0 }

late_call :
    (works : Bool) (now done : ℕ) (b : Breaker)
    → IsValid b
    → b.state ≡ open_
    → b.last_failure_time + b.timeout ≤ now
    → call works now done b ≡ call works now done (on_trial b)
unfolding call
late_call works now done b v e late = ground arith

late_failure :
    (now done : ℕ) (b : Breaker)
    → IsValid b
    → b.state ≡ open_
    → b.last_failure_time + b.timeout ≤ now
    → (call false now done b).1.state ≡ open_
unfolding call
late_failure now done b v e late = ground arith

on_trial-IsValid : (b : Breaker) → IsValid b → b.state ≡ open_ → IsValid (on_trial b)
on_trial-IsValid b v e = ground arith

-- Once the timeout of an open circuit has passed, as many returning calls in a row as trials are
-- asked for close it and clear the count of failures; a call that raises first opens it again.
pub recovery :
    (now done : ℕ) (l : List (Bool × ℕ × ℕ)) (b : Breaker)
    → IsValid b
    → b.state ≡ open_
    → b.last_failure_time + b.timeout ≤ now
    → (AllEnd true l
        → suc (length l) ≡ b.half_open_requests
        → ((calls ((true, now, done) ∷ l) b).state ≡ closed)
          × ((calls ((true, now, done) ∷ l) b).failure_count ≡ 0))
      × ((call false now done b).1.state ≡ open_)
recovery now done l b v e late = (
  λ h n.
      rw (late_call true now done b v e late, calls)
        (trials_close ((true, now, done) ∷ l) (on_trial b) (on_trial-IsValid b v e) refl (refl, h)
          (omega (arith, n))),
  late_failure now done b v e late,
)
