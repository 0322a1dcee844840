-- ===== src/Security/Tests.antt =====
-- Examples of the breaker of apps/security/pii_circuit_breaker.py.
use decisionos.Common.{◌≡◌, refl, inr, true, false, List, [], ◌∷◌}
use decisionos.Security.PiiBreaker.{
  enabled, disabled_auto, Metrics, Config, Breaker, missing, load_state, init, change, react, check,
  disable_manual, should_enable_pii_middleware,
}
use decisionos.Security.PiiBreaker.Machine.{Op, checked, disable, start, apply, InSync}
use decisionos.Security.PiiBreaker.Runs.{Steps, run, inputs, run-Steps, disable_manual-held}

-- The default thresholds: 5 %, 100 ms, 100 samples.
abbrev config : Config
config = record {
  error_rate_threshold = 500;
  p99_latency_threshold_ms = 100;
  min_samples = 100;
  writable = true;
  webhook = true;
}

abbrev failing : Metrics
failing = record { total_requests = 200; failed_requests = 20; p99_latency_ms = 40 }

abbrev healthy : Metrics
healthy = record { total_requests = 200; failed_requests = 10; p99_latency_ms = 100 }

abbrev scarce : Metrics
scarce = record { total_requests = 20; failed_requests = 20; p99_latency_ms = 900 }

abbrev fresh : Breaker
fresh = init 10 missing []

fresh-InSync : InSync config fresh
unfolding load_state
fresh-InSync = inr (refl, λ now. refl)

abbrev history : List Op
history =
    checked 20 scarce
    ∷ checked 30 failing
    ∷ start 40
    ∷ checked 50 healthy
    ∷ disable 60 "incident"
    ∷ []

run-Steps_example :
    Steps enabled (inputs config history) (run config history fresh).current.state
    × InSync config (run config history fresh)
unfolding load_state
run-Steps_example = run-Steps config history fresh refl fresh-InSync

abbrev later : List Op
later = checked 70 healthy ∷ start 80 ∷ checked 90 healthy ∷ disable 95 "still" ∷ []

disable_manual-held_example :
    should_enable_pii_middleware 100
      (run config later (disable_manual config 60 "incident" fresh)).file
    ≡ false
disable_manual-held_example = disable_manual-held config 60 "incident" later 100 fresh refl refl

-- The breaker trips, and is still off after a restart.
tripped :
    (run config (checked 20 scarce ∷ checked 30 failing ∷ start 40 ∷ []) fresh).current.state
    ≡ disabled_auto
unfolding run apply check react change load_state
tripped = refl

recovers :
    (run config (checked 30 failing ∷ start 40 ∷ checked 50 healthy ∷ []) fresh).current.state
    ≡ enabled
unfolding run apply check react change load_state
recovers = refl
