-- ===== src/Judge/Slo/Meets/Blocks.antt =====
-- apps/judge/slo_judge.py: what passes `_evaluate_infra`, `_evaluate_canary`, `_evaluate_drift` and
-- `_check_saturation`.
use decisionos.Common.{
  ℕ, ◌≡◌, ◌↔◌, ◌≤◌, refl, String, false, Option, none, some, [], arith, ltb, contains,
}
use decisionos.Common.Int.{ℤ, ◌≤ℤ◌, ltb_ℤ}
use decisionos.Judge.Slo.Schema.{
  SloLatency, SloInfra, SloInfraSignature, SloCanary, SloDrift, Perf, Canary, read, Reason,
  infra_samples_latency, infra_samples_signature, infra_p95_over, infra_p99_over,
  infra_availability_low, infra_sig_error_over, canary_sample_insufficient, canary_p95_rel_over,
  canary_error_delta_over, canary_sig_error_over, drift_severity_forbidden, drift_abs_over,
  drift_kl_over,
}
use decisionos.Judge.Slo.Checks.{or_zero, unless_few}
use decisionos.Judge.Slo.Blocks.{
  few_latency, few_signatures, infra_limits, canary_block, or_info, or_zero_ℤ, drift_block,
  saturated,
}
use decisionos.Judge.Slo.Meets.{
  Within, Enough, WithinGrace, DeltaWithin, parts-nil, unless_few-parts, gated-nil, Enough-nil,
  over-nil, below-nil, over_grace-nil, over_delta-nil, add_if-nil,
}

-- What the block `perf_judge` must be like for an SLO of the infrastructure.
pub record InfraMeets (i : SloInfra) (p : Perf) : Type 0 where
  pub latency :
      (l : SloLatency)
      → i.latency ≡ some l
      → Enough l.min_samples (or_zero p.count)
        × WithinGrace i.grace_burst l.max_p95_ms (or_zero p.p95)
        × WithinGrace i.grace_burst l.max_p99_ms (or_zero p.p99)
  pub availability :
      (least : Option ℕ) → i.availability ≡ some least → Enough least (or_zero p.availability)
  pub signatures :
      (s : SloInfraSignature)
      → i.sig ≡ some s
      → Enough s.min_samples (or_zero p.count)
        × Within s.max_sig_error_rate (or_zero p.signature_error_rate)

pub infra-InfraMeets :
    (i : SloInfra) (p : Perf)
    → (unless_few
          (few_latency i.latency (or_zero p.count))
          (unless_few (few_signatures i.sig (or_zero p.count)) (infra_limits i p))
        ≡ [])
      ↔ InfraMeets i p
infra-InfraMeets i p =
    let count = or_zero p.count in
    let (f, g) =
      unless_few-parts
        (gated-nil i.latency _ (λ l. Enough-nil l.min_samples count infra_samples_latency))
        (unless_few-parts
          (gated-nil i.sig _ (λ s. Enough-nil s.min_samples count infra_samples_signature))
          (parts-nil
            (gated-nil i.latency _ (λ l.
              parts-nil (over_grace-nil i.grace_burst l.max_p95_ms (or_zero p.p95) infra_p95_over)
                (over_grace-nil i.grace_burst l.max_p99_ms (or_zero p.p99) infra_p99_over)))
            (parts-nil
              (gated-nil i.availability _
                (λ least. below-nil least (or_zero p.availability) infra_availability_low))
              (gated-nil i.sig _ (λ s.
                over-nil s.max_sig_error_rate (or_zero p.signature_error_rate)
                  infra_sig_error_over))))) in
    (
      λ h.
          let (few, (few_sigs, (limits, (least, sigs)))) = f h in
          record {
            latency = λ l e. (few l e, (limits l e).0, (limits l e).1);
            availability = least;
            signatures = λ s e. (few_sigs s e, sigs s e);
          },
      λ m. g (
        λ l e. (m.latency l e).0,
        (
          λ s e. (m.signatures s e).0,
          (
            λ l e. ((m.latency l e).1, (m.latency l e).2),
            (m.availability, λ s e. (m.signatures s e).1),
          ),
        ),
      ),
    )

-- What the block `canary` must be like.
pub record CanaryMeets (s : SloCanary) (b : Canary) : Type 0 where
  pub enough : s.min_sample_count ≤ or_zero b.count
  pub p95_rel : DeltaWithin s.max_p95_rel_increase b.p95_rel
  pub error_delta : DeltaWithin s.max_error_abs_delta b.error_delta
  pub sig_error_delta : DeltaWithin s.max_sig_error_delta b.sig_error_delta

pub canary-CanaryMeets :
    (s : SloCanary) (b : Canary) → (canary_block s (some b) ≡ []) ↔ CanaryMeets s b
canary-CanaryMeets s b =
    let (f, g) =
      parts-nil (add_if-nil (ltb (or_zero b.count) s.min_sample_count) canary_sample_insufficient) (
        parts-nil (over_delta-nil s.max_p95_rel_increase b.p95_rel canary_p95_rel_over) (
          parts-nil (over_delta-nil s.max_error_abs_delta b.error_delta canary_error_delta_over)
            (over_delta-nil s.max_sig_error_delta b.sig_error_delta canary_sig_error_over))) in
    (
      λ h.
          let (few, (p95, (errors, sigs))) = f h in
          record {
            enough = ground arith;
            p95_rel = p95;
            error_delta = errors;
            sig_error_delta = sigs;
          },
      λ m. g (ground (arith, m.enough), (m.p95_rel, (m.error_delta, m.sig_error_delta))),
    )

-- What the file of the drift must hold.
pub record DriftMeets (s : SloDrift) (sev : Option String) (abs_diff kl : Option ℤ) : Type 0 where
  pub severity : contains (or_info sev) s.forbid_severity ≡ false
  pub diff : or_zero_ℤ abs_diff ≤ℤ s.max_abs_diff
  pub divergence : or_zero_ℤ kl ≤ℤ s.max_kl

pub drift-DriftMeets :
    (s : SloDrift) (sev : Option String) (abs_diff kl : Option ℤ)
    → (drift_block s (read sev abs_diff kl) ≡ []) ↔ DriftMeets s sev abs_diff kl
drift-DriftMeets s sev abs_diff kl =
    let (f, g) =
      parts-nil
        (add_if-nil (contains (or_info sev) s.forbid_severity)
          (drift_severity_forbidden (or_info sev)))
        (parts-nil
          (add_if-nil (ltb_ℤ s.max_abs_diff (or_zero_ℤ abs_diff))
            (drift_abs_over (or_zero_ℤ abs_diff) s.max_abs_diff))
          (add_if-nil (ltb_ℤ s.max_kl (or_zero_ℤ kl)) (drift_kl_over (or_zero_ℤ kl) s.max_kl))) in
    (
      λ h.
          let (sev', (diff', kl')) = f h in
          record { severity = sev'; diff = ground arith; divergence = ground arith },
      λ m. g (m.severity, (ground (arith, m.diff), ground (arith, m.divergence))),
    )

-- A metric that is given is at most the limit, where there is one.
abbrev pub Unsaturated : Option ℕ → Option ℕ → Type 0
Unsaturated limit v = (m n : ℕ) → limit ≡ some m → v ≡ some n → n ≤ m

pub saturated-nil :
    (limit v : Option ℕ) (r : Reason) → (saturated limit v r ≡ []) ↔ Unsaturated limit v
saturated-nil none v r = (λ h m n e. cc e, λ h. refl)
saturated-nil (some m) none r = (λ h m' n e e'. cc e', λ h. refl)
saturated-nil (some m) (some n) r =
    let (f, g) = add_if-nil (ltb m n) r in
    (λ h m' n' e e'. ground (arith, f h), λ h. g (ground (arith, h m n refl refl)))
