-- ===== src/Judge/Slo/Tests.antt =====
-- Runs of apps/judge/slo_judge.py, and its theorems at concrete inputs.
use decisionos.Common.{◌≡◌, ◌↔◌, refl, String, true, false, Option, none, some, List, [], ◌∷◌}
use decisionos.Common.Dict.{lookup}
use decisionos.Judge.Slo.{Verdict, pass, fail, checks, evaluate}
use decisionos.Judge.Slo.Schema.{
  SloSpec, Evidence, Perf, missing, Reason, latency_p95_over, saturation_cpu, perf_missing,
}
use decisionos.Judge.Slo.Checks.{
  missing_blocks, check_witness, core, check_integrity, check_budget, forbidden, check_quota,
  check_anomaly, check_perf,
}
use decisionos.Judge.Slo.Blocks.{check_infra, check_canary, check_drift, check_saturation}
use decisionos.Judge.Slo.Meets.Parts.{AllThere}
use decisionos.Judge.Slo.Meets.Passes.{Meets, evaluate_pass_iff}

abbrev spec : SloSpec
spec = record {
  allow_levels = "ok" ∷ "warn" ∷ [];
  max_spent = some 100;
  forbid_actions = ("calls", "deny" ∷ []) ∷ [];
  allow_spike = false;
  latency = record { max_p95_ms = some 50; max_p99_ms = none; min_samples = some 10 };
  error = record { max_error_rate = none; min_samples = none };
  require_csv_sha256 = true;
  require_signature = true;
  judge_infra = none;
  canary = none;
  drift = none;
  saturation = some (record { max_cpu_percent = some 90; max_mem_percent = none; max_qps = none });
}

abbrev no_perf : Perf
no_perf = record {
  count = none;
  p95 = none;
  p99 = none;
  error_rate = none;
  availability = none;
  signature_error_rate = none;
}

abbrev evidence : Option Perf → Evidence String
evidence perf = record {
  blocks =
      ("meta", "m")
      ∷ ("witness", "w")
      ∷ ("usage", "u")
      ∷ ("rating", "r")
      ∷ ("quota", "q")
      ∷ ("budget", "b")
      ∷ ("anomaly", "a")
      ∷ ("integrity", "i")
      ∷ [];
  csv_sha256 = some "c";
  signature_sha256 = some "7";
  level = some "ok";
  spent = some 100;
  actions = ("calls", some "allow") ∷ [];
  is_spike = false;
  perf = perf;
  perf_judge = none;
  canary = none;
  cpu_percent = none;
  mem_percent = none;
  qps = none;
}

-- A digest that counts the blocks.
abbrev digest : List (String × String) → String
digest (a ∷ b ∷ c ∷ d ∷ e ∷ f ∷ g ∷ []) = "7"
digest _ = "other"

abbrev judge_of : Evidence String → Verdict × List Reason
judge_of ev = evaluate digest (λ b. false) (λ p. missing) ev (some spec)

-- A block `perf` without any value passes, and so does a usage without the percentage of the CPU.
empty_perf_passes : judge_of (evidence (some no_perf)) ≡ (pass, [])
unfolding evaluate missing_blocks checks check_witness core check_integrity check_budget forbidden
    check_quota check_anomaly check_perf check_infra check_canary check_drift check_saturation
    lookup
empty_perf_passes = refl

slow_fails :
    judge_of (record (evidence (some (record no_perf { count = some 10; p95 = some 51 }))) {
      cpu_percent = some 91;
    })
    ≡ (fail, latency_p95_over 51 50 ∷ saturation_cpu ∷ [])
unfolding evaluate missing_blocks checks check_witness core check_integrity check_budget forbidden
    check_quota check_anomaly check_perf check_infra check_canary check_drift check_saturation
    lookup
slow_fails = refl

no_perf_fails : judge_of (evidence none) ≡ (fail, perf_missing ∷ [])
unfolding evaluate missing_blocks checks check_witness core check_integrity check_budget forbidden
    check_quota check_anomaly check_perf check_infra check_canary check_drift check_saturation
    lookup
no_perf_fails = refl

evaluate_pass_iff_example : ((judge_of (evidence (some no_perf))).0 ≡ pass) ↔ (
    (s : SloSpec) × (some spec ≡ some s)
    × AllThere (evidence (some no_perf)).blocks
    × Meets digest (λ b. false) (λ p. missing) s (evidence (some no_perf)))
evaluate_pass_iff_example =
    evaluate_pass_iff digest (λ b. false) (λ p. missing) (evidence (some no_perf)) (some spec)
