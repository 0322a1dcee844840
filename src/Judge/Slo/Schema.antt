-- ===== src/Judge/Slo/Schema.antt =====
-- apps/judge/slo_schema.py: an SLO; and what apps/judge/slo_judge.py reads of the evidence. Numbers are
-- natural numbers, and `fail_closed` of the saturation, which nothing reads, is left out.
use decisionos.Common.{ℕ, String, Bool, Option, List}
use decisionos.Common.Int.{ℤ}
use decisionos.Common.Dict.{Dict}

pub record SloLatency : Type 0 where
  pub max_p95_ms : Option ℕ
  pub max_p99_ms : Option ℕ
  pub min_samples : Option ℕ

pub record SloError : Type 0 where
  pub max_error_rate : Option ℕ
  pub min_samples : Option ℕ

pub record SloInfraSignature : Type 0 where
  pub max_sig_error_rate : Option ℕ
  pub min_samples : Option ℕ

-- `availability` is the field `min_availability`, of a block that may be missing as a whole.
pub record SloInfra : Type 0 where
  pub latency : Option SloLatency
  pub availability : Option (Option ℕ)
  pub sig : Option SloInfraSignature
  pub grace_burst : ℕ

pub record SloCanary : Type 0 where
  pub max_p95_rel_increase : ℤ
  pub max_error_abs_delta : ℤ
  pub max_sig_error_delta : ℤ
  pub min_sample_count : ℕ

pub record SloDrift : Type 0 where
  pub source : String
  pub max_abs_diff : ℤ
  pub max_kl : ℤ
  pub forbid_severity : List String

pub record SloSaturation : Type 0 where
  pub max_cpu_percent : Option ℕ
  pub max_mem_percent : Option ℕ
  pub max_qps : Option ℕ

-- The fields that the judge reads: the budget's `allow_levels` and `max_spent`, the quota's
-- `forbid_actions`, `allow_spike`, `require_csv_sha256`, and the integrity's `require_signature`.
pub record SloSpec : Type 0 where
  pub allow_levels : List String
  pub max_spent : Option ℕ
  pub forbid_actions : Dict (List String)
  pub allow_spike : Bool
  pub latency : SloLatency
  pub error : SloError
  pub require_csv_sha256 : Bool
  pub require_signature : Bool
  pub judge_infra : Option SloInfra
  pub canary : Option SloCanary
  pub drift : Option SloDrift
  pub saturation : Option SloSaturation

-- The blocks `perf` and `perf_judge`, where they are dictionaries.
pub record Perf : Type 0 where
  pub count : Option ℕ
  pub p95 : Option ℕ
  pub p99 : Option ℕ
  pub error_rate : Option ℕ
  pub availability : Option ℕ
  pub signature_error_rate : Option ℕ

-- The block `canary`: the count of `canary_perf` and the `deltas`.
pub record Canary : Type 0 where
  pub count : Option ℕ
  pub p95_rel : Option ℤ
  pub error_delta : Option ℤ
  pub sig_error_delta : Option ℤ

-- The blocks as they are, and what is read of them; a key that is not there is `none`.
pub record Evidence (Raw : Type 0) : Type 0 where
  pub blocks : Dict Raw
  pub csv_sha256 : Option String
  pub signature_sha256 : Option String
  pub level : Option String
  pub spent : Option ℕ
  pub actions : Dict (Option String)
  pub is_spike : Bool
  pub perf : Option Perf
  pub perf_judge : Option Perf
  pub canary : Option Canary
  pub cpu_percent : Option ℕ
  pub mem_percent : Option ℕ
  pub qps : Option ℕ

-- The file of the drift: its `severity`, `abs_diff` and `kl`.
pub data DriftFile : Type 0 where
  missing unreadable : DriftFile
  read : Option String → Option ℤ → Option ℤ → DriftFile

-- The reasons, with the values that their texts show.
pub data Reason : Type 0 where
  slo_parse : Reason
  missing_block : String → Reason
  no_csv_sha256 signature_mismatch : Reason
  level_forbidden : Option String → Reason
  spent_over : Option ℕ → ℕ → Reason
  quota_forbid : String → Option String → Reason
  spike_forbidden : Reason
  perf_missing samples_insufficient_latency samples_insufficient_error : Reason
  latency_p95_over latency_p99_over error_rate_over : ℕ → ℕ → Reason
  infra_perf_missing infra_samples_latency infra_samples_signature : Reason
  infra_p95_over infra_p99_over infra_availability_low infra_sig_error_over : ℕ → ℕ → Reason
  canary_block_missing canary_sample_insufficient : Reason
  canary_p95_rel_over canary_error_delta_over canary_sig_error_over : ℤ → ℤ → Reason
  drift_source_missing drift_source_unreadable : Reason
  drift_severity_forbidden : String → Reason
  drift_abs_over drift_kl_over : ℤ → ℤ → Reason
  saturation_cpu saturation_mem saturation_qps : Reason
