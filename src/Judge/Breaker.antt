-- ===== src/Judge/Breaker.antt =====
-- apps/judge/backpressure.py: the circuit breaker, whose calls take its lock once before and once
-- after the guarded function, and the exponential backoff. Clock readings are whole ticks, and
-- `timeout` is in ticks.
mod Tests
pub mod Sequential
pub mod Interleaved
pub mod Backoff
use decisionos.Common.{
  ℕ, ◌+◌, ◌-◌, ◌*◌, ◌^◌, Bool, true, false, ◌&&◌, Option, none, some, leb, if◌then◌else◌,
}

pub data State : Type 0 where
  closed open_ half_open : State

pub record Breaker : Type 0 where
  pub threshold : ℕ
  pub timeout : ℕ
  pub half_open_requests : ℕ
  pub failure_count : ℕ
  pub last_failure_time : ℕ
  pub state : State
  pub half_open_success_count : ℕ

-- `__init__`
abbrev pub init : ℕ → ℕ → ℕ → Breaker
init threshold timeout half_open_requests = record {
  threshold = threshold;
  timeout = timeout;
  half_open_requests = half_open_requests;
  failure_count = 0;
  last_failure_time = 0;
  state = closed;
  half_open_success_count = 0;
}

abbrev pub is_open : State → Bool
is_open open_ = true
is_open _ = false

abbrev pub is_half_open : State → Bool
is_half_open half_open = true
is_half_open _ = false

-- `_get_state`: an open circuit whose timeout has passed turns half open
unfoldable pub get_state : ℕ → Breaker → Breaker
get_state now b =
    if is_open b.state && leb (b.last_failure_time + b.timeout) now
    then record b { state = half_open; half_open_success_count = 0 }
    else b

pub data Entry : Type 0 where
  circuit_open half_open_limit : Entry
  admitted : State → Entry

-- `call` up to the guarded function: refused, or admitted with the state that was seen
unfoldable pub enter : ℕ → Breaker → Entry × Breaker
unfolding get_state
enter now b =
    let b' = get_state now b in
    if is_open b'.state
    then (circuit_open, b')
    else if is_half_open b'.state && leb b'.half_open_requests b'.half_open_success_count
    then (half_open_limit, b')
    else (admitted b'.state, b')

-- `call` after the guarded function has returned
unfoldable pub succeed : State → Breaker → Breaker
succeed seen b =
    if is_half_open seen
    then (let b' = record b { half_open_success_count = b.half_open_success_count + 1 } in
        if leb b.half_open_requests b'.half_open_success_count
        then record b' { state = closed; failure_count = 0 }
        else b')
    else record b { failure_count = 0 }

-- `call` after the guarded function has raised
unfoldable pub raised : ℕ → Breaker → Breaker
raised now b =
    let b' = record b { failure_count = b.failure_count + 1; last_failure_time = now } in
    if leb b.threshold b'.failure_count then record b' { state = open_ } else b'

pub data Result : Type 0 where
  refused returned failed : Result

-- A whole call, with no other call between its two parts: `works` is whether the function returns,
-- `done` the clock when it has raised.
unfoldable pub call : Bool → ℕ → ℕ → Breaker → Result × Breaker
unfolding enter succeed raised
call works now done b =
    let (entry, b') = enter now b in
    elim entry [
      | circuit_open ↦ (refused, b')
      | half_open_limit ↦ (refused, b')
      | admitted seen ↦ if works then (returned, succeed seen b') else (failed, raised done b')
    ]
