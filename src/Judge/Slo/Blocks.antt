-- ===== src/Judge/Slo/Blocks.antt =====
-- apps/judge/slo_judge.py: `_evaluate_infra`, `_evaluate_canary`, `_evaluate_drift`, `_check_saturation`.
use decisionos.Common.{ℕ, ◌+◌, ◌*◌, String, Option, none, some, List, [], ◌∷◌, ◌++◌, ltb, contains}
use decisionos.Common.Int.{ℤ, pos, ltb_ℤ}
use decisionos.Judge.Slo.Schema.{
  SloLatency, SloInfraSignature, SloInfra, SloCanary, SloDrift, SloSpec, Perf, Canary, Evidence,
  DriftFile, Reason, missing, unreadable, read, infra_perf_missing, infra_samples_latency,
  infra_samples_signature, infra_p95_over, infra_p99_over, infra_availability_low,
  infra_sig_error_over, canary_block_missing, canary_sample_insufficient, canary_p95_rel_over,
  canary_error_delta_over, canary_sig_error_over, drift_source_missing, drift_source_unreadable,
  drift_severity_forbidden, drift_abs_over, drift_kl_over, saturation_cpu, saturation_mem,
  saturation_qps,
}
use decisionos.Judge.Slo.Checks.{add_if, over, too_few, or_zero, unless_few}

-- A millionth is the unit of the grace.
abbrev pub unit : ℕ
unit = 1000000

-- `max * (1.0 + grace_burst)` as the limit
abbrev pub over_grace : ℕ → Option ℕ → ℕ → (ℕ → ℕ → Reason) → List Reason
over_grace grace none v r = []
over_grace grace (some limit) v r = add_if (ltb (limit * (unit + grace)) (v * unit)) (r v limit)

abbrev pub below : Option ℕ → ℕ → (ℕ → ℕ → Reason) → List Reason
below none v r = []
below (some limit) v r = add_if (ltb v limit) (r v limit)

abbrev pub few_latency : Option SloLatency → ℕ → List Reason
few_latency latency count = elim latency [
  | none ↦ []
  | some l ↦ add_if (too_few l.min_samples count) infra_samples_latency
]

abbrev pub few_signatures : Option SloInfraSignature → ℕ → List Reason
few_signatures sig count = elim sig [
  | none ↦ []
  | some s ↦ add_if (too_few s.min_samples count) infra_samples_signature
]

abbrev pub infra_latency : SloInfra → Perf → List Reason
infra_latency i p = elim i.latency [
  | none ↦ []
  | some l ↦
      over_grace i.grace_burst l.max_p95_ms (or_zero p.p95) infra_p95_over
      ++ over_grace i.grace_burst l.max_p99_ms (or_zero p.p99) infra_p99_over
]

abbrev pub infra_availability : SloInfra → Perf → List Reason
infra_availability i p = elim i.availability [
  | none ↦ []
  | some least ↦ below least (or_zero p.availability) infra_availability_low
]

abbrev pub infra_signatures : SloInfra → Perf → List Reason
infra_signatures i p = elim i.sig [
  | none ↦ []
  | some s ↦ over s.max_sig_error_rate (or_zero p.signature_error_rate) infra_sig_error_over
]

-- once there are enough samples
abbrev pub infra_limits : SloInfra → Perf → List Reason
infra_limits i p = infra_latency i p ++ (infra_availability i p ++ infra_signatures i p)

-- the first shortage of samples ends `_evaluate_infra`
abbrev pub infra_perf : SloInfra → Option Perf → List Reason
infra_perf i none = infra_perf_missing ∷ []
infra_perf i (some p) =
    unless_few (few_latency i.latency (or_zero p.count))
      (unless_few (few_signatures i.sig (or_zero p.count)) (infra_limits i p))

abbrev pub over_delta : ℤ → Option ℤ → (ℤ → ℤ → Reason) → List Reason
over_delta limit none r = []
over_delta limit (some v) r = add_if (ltb_ℤ limit v) (r v limit)

abbrev pub canary_block : SloCanary → Option Canary → List Reason
canary_block s none = canary_block_missing ∷ []
canary_block s (some b) =
    add_if (ltb (or_zero b.count) s.min_sample_count) canary_sample_insufficient
    ++ (over_delta s.max_p95_rel_increase b.p95_rel canary_p95_rel_over
        ++ (over_delta s.max_error_abs_delta b.error_delta canary_error_delta_over
            ++ over_delta s.max_sig_error_delta b.sig_error_delta canary_sig_error_over))

abbrev pub or_info : Option String → String
or_info none = "info"
or_info (some s) = s

abbrev pub or_zero_ℤ : Option ℤ → ℤ
or_zero_ℤ none = pos 0
or_zero_ℤ (some z) = z

abbrev pub drift_block : SloDrift → DriftFile → List Reason
drift_block s missing = drift_source_missing ∷ []
drift_block s unreadable = drift_source_unreadable ∷ []
drift_block s (read sev abs_diff kl) =
    add_if (contains (or_info sev) s.forbid_severity) (drift_severity_forbidden (or_info sev))
    ++ (add_if (ltb_ℤ s.max_abs_diff (or_zero_ℤ abs_diff))
          (drift_abs_over (or_zero_ℤ abs_diff) s.max_abs_diff)
        ++ add_if (ltb_ℤ s.max_kl (or_zero_ℤ kl)) (drift_kl_over (or_zero_ℤ kl) s.max_kl))

-- a metric that is missing or 0 is not tested
abbrev pub saturated : Option ℕ → Option ℕ → Reason → List Reason
saturated none v r = []
saturated (some limit) none r = []
saturated (some limit) (some v) r = add_if (ltb limit v) r

module _ {Raw : Type 0} where
  unfoldable pub check_infra : SloSpec → Evidence Raw → List Reason
  check_infra spec ev = elim spec.judge_infra [ none ↦ [] | some i ↦ infra_perf i ev.perf_judge ]

  unfoldable pub check_canary : SloSpec → Evidence Raw → List Reason
  check_canary spec ev = elim spec.canary [ none ↦ [] | some s ↦ canary_block s ev.canary ]

  unfoldable pub check_drift : (String → DriftFile) → SloSpec → Evidence Raw → List Reason
  check_drift drift_file spec ev = elim spec.drift [
    | none ↦ []
    | some s ↦ drift_block s (drift_file s.source)
  ]

  unfoldable pub check_saturation : SloSpec → Evidence Raw → List Reason
  check_saturation spec ev = elim spec.saturation [
    | none ↦ []
    | some s ↦
        saturated s.max_cpu_percent ev.cpu_percent saturation_cpu
        ++ (saturated s.max_mem_percent ev.mem_percent saturation_mem
            ++ saturated s.max_qps ev.qps saturation_qps)
  ]
