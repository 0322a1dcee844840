-- ===== src/Judge/Slo/Meets.antt =====
-- apps/judge/slo_judge.py: what evidence must be like to pass each check.
pub mod Blocks
pub mod Parts
pub mod Passes
use decisionos.Common.{
  ℕ, ◌+◌, ◌*◌, ◌≤◌, ◌<◌, ◌≡◌, ◌≢◌, ◌↔◌, ◌⊎◌, refl, inl, inr, String, Bool, true, false, not, Option,
  none, some, List, [], ◌∷◌, ◌++◌, arith, All, ltb, str_eq, eq_iff, contains, truthy, Bool-cases,
  Option-cases, if◌then◌else◌,
}
use mathlib.Core.Path.{subst}
use decisionos.Common.Int.{ℤ, ◌≤ℤ◌, ltb_ℤ}
use decisionos.Common.Dict.{Dict}
use decisionos.Judge.Slo.Schema.{
  SloSpec, SloLatency, SloInfra, SloInfraSignature, SloCanary, SloDrift, SloSaturation, Evidence,
  Perf, Canary, DriftFile, missing, unreadable, read, Reason, samples_insufficient_latency,
  samples_insufficient_error, latency_p95_over, latency_p99_over, error_rate_over,
  infra_samples_latency, infra_samples_signature, infra_p95_over, infra_p99_over,
  infra_availability_low, infra_sig_error_over, infra_perf_missing, canary_block_missing,
  canary_sample_insufficient, canary_p95_rel_over, canary_error_delta_over, canary_sig_error_over,
  drift_source_missing, drift_source_unreadable, drift_severity_forbidden, drift_abs_over,
  drift_kl_over,
}
use decisionos.Judge.Slo.Checks.{
  add_if, over, too_few, or_zero, allowed_level, action_of, forbidden, few_samples, over_limits,
  unless_few,
}
use decisionos.Judge.Slo.Blocks.{
  unit, over_grace, below, few_latency, few_signatures, infra_latency, infra_availability,
  infra_signatures, infra_limits, infra_perf, over_delta, canary_block, or_info, or_zero_ℤ,
  drift_block, saturated,
}

pub both_nil : {A : Type 0} (a b : List A) → ((a ++ b) ≡ []) ↔ ((a ≡ []) × (b ≡ []))
both_nil [] b = (λ h. (refl, h), λ h. h.1)
both_nil (x ∷ a) b = (λ h. cc h, λ h. cc (h.0))

pub add_if-nil : (b : Bool) (r : Reason) → (add_if b r ≡ []) ↔ (b ≡ false)
add_if-nil true r = (λ h. cc h, λ h. cc h)
add_if-nil false r = (λ h. refl, λ h. refl)

unless_few-nil : (few rest : List Reason) → (unless_few few rest ≡ []) ↔ ((few ≡ []) × (rest ≡ []))
unless_few-nil [] rest = (λ h. (refl, h), λ h. h.1)
unless_few-nil (r ∷ rs) rest = (λ h. cc h, λ h. cc (h.0))

-- At most the limit, where there is one.
abbrev pub Within : Option ℕ → ℕ → Type 0
Within limit v = (m : ℕ) → limit ≡ some m → v ≤ m

-- At least so many, where a least number is given.
abbrev pub Enough : Option ℕ → ℕ → Type 0
Enough least v = (m : ℕ) → least ≡ some m → m ≤ v

pub over-nil :
    (limit : Option ℕ) (v : ℕ) (r : ℕ → ℕ → Reason) → (over limit v r ≡ []) ↔ Within limit v
over-nil none v r = (λ h m e. cc e, λ h. refl)
over-nil (some k) v r = (
  λ h m e. ground (arith, (add_if-nil (ltb k v) (r v k)).0 h),
  λ h. (add_if-nil (ltb k v) (r v k)).1 (ground (arith, h k refl)),
)

too_few-false : (least : Option ℕ) (count : ℕ) → (too_few least count ≡ false) ↔ Enough least count
too_few-false none count = (λ h m e. cc e, λ h. refl)
too_few-false (some k) count = (λ h m e. ground arith, λ h. ground (arith, h k refl))

pub below-nil :
    (limit : Option ℕ) (v : ℕ) (r : ℕ → ℕ → Reason) → (below limit v r ≡ []) ↔ Enough limit v
below-nil none v r = (λ h m e. cc e, λ h. refl)
below-nil (some k) v r = (
  λ h m e. ground (arith, (add_if-nil (ltb v k) (r v k)).0 h),
  λ h. (add_if-nil (ltb v k) (r v k)).1 (ground (arith, h k refl)),
)

-- At most the limit with the grace, in millionths.
abbrev pub WithinGrace : ℕ → Option ℕ → ℕ → Type 0
WithinGrace grace limit v = (m : ℕ) → limit ≡ some m → v * unit ≤ m * (unit + grace)

pub over_grace-nil :
    (grace : ℕ) (limit : Option ℕ) (v : ℕ) (r : ℕ → ℕ → Reason)
    → (over_grace grace limit v r ≡ []) ↔ WithinGrace grace limit v
over_grace-nil grace none v r = (λ h m e. cc e, λ h. refl)
over_grace-nil grace (some k) v r =
    let (f, g) = add_if-nil (ltb (k * (unit + grace)) (v * unit)) (r v k) in
    (
      λ h m e.
          let same : k ≡ m = ground arith in
          subst (λ x. v * unit ≤ x * (unit + grace)) same (ground (arith, f h)),
      λ h. g (ground (arith, h k refl)),
    )

-- A number that is given is at most the limit.
abbrev pub DeltaWithin : ℤ → Option ℤ → Type 0
DeltaWithin limit v = (d : ℤ) → v ≡ some d → d ≤ℤ limit

pub over_delta-nil :
    (limit : ℤ) (v : Option ℤ) (r : ℤ → ℤ → Reason)
    → (over_delta limit v r ≡ []) ↔ DeltaWithin limit v
over_delta-nil limit none r = (λ h d e. cc e, λ h. refl)
over_delta-nil limit (some d) r =
    let (f, g) = add_if-nil (ltb_ℤ limit d) (r d limit) in
    (λ h d' e. ground (arith, f h), λ h. g (ground (arith, h d refl)))

module _ {P Q : Type 0} {a b : List Reason} where
  pub parts-nil : (a ≡ []) ↔ P → (b ≡ []) ↔ Q → ((a ++ b) ≡ []) ↔ (P × Q)
  parts-nil (f, f') (g, g') =
      let (s, t) = both_nil a b in (λ h. (f (s h).0, g (s h).1), λ h. t (f' h.0, g' h.1))

  pub unless_few-parts : (a ≡ []) ↔ P → (b ≡ []) ↔ Q → (unless_few a b ≡ []) ↔ (P × Q)
  unless_few-parts (f, f') (g, g') =
      let (s, t) = unless_few-nil a b in (λ h. (f (s h).0, g (s h).1), λ h. t (f' h.0, g' h.1))

-- A check of a part that may be left out of the SLO.
pub gated-nil :
    {A : Type 0} {P : A → Type 0} (o : Option A) (f : A → List Reason)
    → ((x : A) → (f x ≡ []) ↔ P x)
    → ((elim o [ none ↦ [] | some x ↦ f x ]) ≡ []) ↔ ((x : A) → o ≡ some x → P x)
gated-nil none f h = (λ k x e. cc e, λ k. refl)
gated-nil {P} (some y) f h =
    (λ k x e. let same : y ≡ x = ground arith in subst P same ((h y).0 k), λ k. (h y).1 (k y refl))

pub Enough-nil :
    (least : Option ℕ) (count : ℕ) (r : Reason)
    → (add_if (too_few least count) r ≡ []) ↔ Enough least count
Enough-nil least count r =
    let (f, g) = add_if-nil (too_few least count) r in
    let (s, t) = too_few-false least count in (λ h. s (f h), λ h. g (t h))

-- What the block `perf` must be like.
pub record PerfMeets (spec : SloSpec) (p : Perf) : Type 0 where
  pub enough :
      (c : ℕ)
      → p.count ≡ some c
      → Enough spec.latency.min_samples c × Enough spec.error.min_samples c
  pub p95 : Within spec.latency.max_p95_ms (or_zero p.p95)
  pub p99 : Within spec.latency.max_p99_ms (or_zero p.p99)
  pub errors : Within spec.error.max_error_rate (or_zero p.error_rate)

few_samples-nil :
    (spec : SloSpec) (count : Option ℕ)
    → (few_samples spec count ≡ []) ↔ (
        (c : ℕ)
        → count ≡ some c
        → Enough spec.latency.min_samples c × Enough spec.error.min_samples c)
few_samples-nil spec none = (λ h c e. cc e, λ h. refl)
few_samples-nil spec (some c) =
    let (f, g) =
      parts-nil (Enough-nil spec.latency.min_samples c samples_insufficient_latency)
        (Enough-nil spec.error.min_samples c samples_insufficient_error) in
    (
      λ h c' e.
          let same : c ≡ c' = ground arith in
          subst (λ x. Enough spec.latency.min_samples x × Enough spec.error.min_samples x) same
            (f h),
      λ h. g (h c refl),
    )

pub perf-PerfMeets :
    (spec : SloSpec) (p : Perf)
    → (unless_few (few_samples spec p.count) (over_limits spec p) ≡ []) ↔ PerfMeets spec p
perf-PerfMeets spec p =
    let (f, g) = unless_few-parts (few_samples-nil spec p.count) (
      parts-nil (over-nil spec.latency.max_p95_ms (or_zero p.p95) latency_p95_over) (
        parts-nil (over-nil spec.latency.max_p99_ms (or_zero p.p99) latency_p99_over)
          (over-nil spec.error.max_error_rate (or_zero p.error_rate) error_rate_over))) in
    (
      λ h.
          let (enough, (p95, (p99, errors))) = f h in
          record { enough = enough; p95 = p95; p99 = p99; errors = errors },
      λ m. g (m.enough, (m.p95, (m.p99, m.errors))),
    )
