-- ===== src/Security/PiiBreaker.antt =====
-- apps/security/pii_circuit_breaker.py: the breaker that turns the redaction of personal data off. Rates
-- are exact fractions, thresholds of rates are ten-thousandths; the text of a reason is what it is made
-- of. `last_metrics` is not saved.
pub mod Machine
pub mod Runs
use decisionos.Common.{
  ℕ, ◌*◌, String, Bool, true, false, not, ◌&&◌, ◌||◌, Option, none, some, List, [], ◌∷◌, ◌++◌, ltb,
  ◌==◌, if◌then◌else◌,
}

pub data State : Type 0 where
  enabled disabled_auto disabled_manual : State

pub record Metrics : Type 0 where
  pub total_requests : ℕ
  pub failed_requests : ℕ
  pub p99_latency_ms : ℕ

-- The limits that were passed, the error rate and the latency, with the metrics.
pub data Reason : Type 0 where
  initial_state metrics_recovered : Reason
  given : String → Reason
  over : Bool → Bool → Metrics → Reason

pub record BreakerState : Type 0 where
  pub state : State
  pub reason : Reason
  pub timestamp : ℕ
  pub last_metrics : Option Metrics

-- The state file: not there, not to be read, or what was saved.
pub data StateFile : Type 0 where
  missing broken : StateFile
  saved : State → Reason → ℕ → StateFile

-- What an alert says: its event, the reason and the metrics.
pub data Event : Type 0 where
  disabled recovered disabled_manually enabled_manually : Event

pub record Alert : Type 0 where
  pub event : Event
  pub reason : Reason
  pub metrics : Option Metrics

-- The thresholds; whether the state file can be written, and SLACK_WEBHOOK_URL is set.
pub record Config : Type 0 where
  pub error_rate_threshold : ℕ
  pub p99_latency_threshold_ms : ℕ
  pub min_samples : ℕ
  pub writable : Bool
  pub webhook : Bool

pub record Breaker : Type 0 where
  pub current : BreakerState
  pub file : StateFile
  pub alerts : List Alert

-- `_load_state`
unfoldable pub load_state : ℕ → StateFile → BreakerState
load_state now (saved s r t) = record { state = s; reason = r; timestamp = t; last_metrics = none }
load_state now _ = record {
  state = enabled;
  reason = initial_state;
  timestamp = now;
  last_metrics = none;
}

-- `__init__`
abbrev pub init : ℕ → StateFile → List Alert → Breaker
init now file alerts = record { current = load_state now file; file = file; alerts = alerts }

module _ (cfg : Config) where
  -- `failed_requests / total_requests > error_rate_threshold`, where there are requests
  abbrev pub error_over : Metrics → Bool
  error_over m =
      if m.total_requests == 0
      then false
      else ltb (cfg.error_rate_threshold * m.total_requests) (m.failed_requests * 10000)

  abbrev pub latency_over : Metrics → Bool
  latency_over m = ltb cfg.p99_latency_threshold_ms m.p99_latency_ms

  -- the new state, saved, with its alert
  unfoldable pub change : Event → State → Reason → ℕ → Option Metrics → Breaker → Breaker
  change event s r now m b = record {
    current = record { state = s; reason = r; timestamp = now; last_metrics = m };
    file = if cfg.writable then saved s r now else b.file;
    alerts =
        if cfg.webhook
        then b.alerts ++ record { event = event; reason = r; metrics = m } ∷ []
        else b.alerts;
  }

  -- `check`, where there are enough samples
  unfoldable pub react : State → ℕ → Metrics → Breaker → Breaker
  unfolding change
  react enabled now m b =
      if error_over m || latency_over m
      then change disabled disabled_auto (over (error_over m) (latency_over m) m) now (some m) b
      else b
  react disabled_auto now m b =
      if error_over m || latency_over m
      then b
      else change recovered enabled metrics_recovered now (some m) b
  react disabled_manual now m b = b

  -- `check`
  unfoldable pub check : ℕ → Metrics → Breaker → State × Breaker
  unfolding react
  check now m b =
      let b' = if ltb m.total_requests cfg.min_samples then b else react b.current.state now m b in
      (b'.current.state, b')

  unfoldable pub disable_manual : ℕ → String → Breaker → Breaker
  unfolding change
  disable_manual now reason b = change disabled_manually disabled_manual (given reason) now none b

  unfoldable pub enable_manual : ℕ → String → Breaker → Breaker
  unfolding change
  enable_manual now reason b = change enabled_manually enabled (given reason) now none b

-- `should_enable_pii_middleware`, at a start of the middleware
unfoldable pub should_enable_pii_middleware : ℕ → StateFile → Bool
unfolding load_state
should_enable_pii_middleware now file = elim (load_state now file).state [
  | enabled ↦ true
  | _ ↦ false
]
