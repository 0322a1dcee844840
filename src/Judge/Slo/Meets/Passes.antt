-- ===== src/Judge/Slo/Meets/Passes.antt =====
-- apps/judge/slo_judge.py: what passes `evaluate` as a whole.
use decisionos.Common.{
  ◌≡◌, ◌↔◌, ◌⊎◌, refl, inl, inr, String, Bool, true, false, not, ◌&&◌, Option, none, some, List, [],
  ◌∷◌, arith, truthy, Bool-cases, Option-cases,
}
use mathlib.Core.Path.{subst}
use decisionos.Common.Int.{ℤ}
use decisionos.Judge.Slo.Schema.{
  SloSpec, SloInfra, SloCanary, SloDrift, SloSaturation, Evidence, Perf, Canary, DriftFile, read,
  Reason, no_csv_sha256, signature_mismatch, level_forbidden, spent_over, spike_forbidden,
  saturation_cpu, saturation_mem, saturation_qps,
}
use decisionos.Judge.Slo.Checks.{
  required_blocks, missing_blocks, check_witness, core, same_text, check_integrity, allowed_level,
  check_budget, check_quota, check_anomaly, perf_required, check_perf, or_zero,
}
use decisionos.Judge.Slo.Blocks.{
  infra_perf, canary_block, drift_block, check_infra, check_canary, check_drift, check_saturation,
}
use decisionos.Judge.Slo.{pass, verdict_of, unless_missing, checks, evaluate}
use decisionos.Judge.Slo.Meets.{
  Within, parts-nil, gated-nil, add_if-nil, over-nil, PerfMeets, perf-PerfMeets,
}
use decisionos.Judge.Slo.Meets.Blocks.{
  InfraMeets, CanaryMeets, DriftMeets, Unsaturated, saturated-nil,
}
use decisionos.Judge.Slo.Meets.Parts.{
  chain, flat, and_not, not-false, not_and, same_text-true, infra_block, canary_part, drift_part,
  NoneForbidden, forbidden-nil, AllThere, absent-nil,
}

module _ {Raw : Type 0} (digest : List (String × Raw) → String) (is_null : Raw → Bool)
    (drift_file : String → DriftFile) where
  -- What evidence must be like to pass an SLO.
  pub record Meets (spec : SloSpec) (ev : Evidence Raw) : Type 0 where
    pub csv : spec.require_csv_sha256 ≡ true → truthy ev.csv_sha256 ≡ true
    pub signed :
        spec.require_signature ≡ true → ev.signature_sha256 ≡ some (digest (core is_null ev))
    pub level : allowed_level ev.level spec.allow_levels ≡ true
    pub spent : Within spec.max_spent (or_zero ev.spent)
    pub actions : NoneForbidden ev.actions spec.forbid_actions
    pub spike : (spec.allow_spike ≡ true) ⊎ (ev.is_spike ≡ false)
    pub perf : perf_required spec ≡ true → (p : Perf) × (ev.perf ≡ some p) × PerfMeets spec p
    pub infra :
        (i : SloInfra)
        → spec.judge_infra ≡ some i
        → (p : Perf) × (ev.perf_judge ≡ some p) × InfraMeets i p
    pub canary :
        (s : SloCanary)
        → spec.canary ≡ some s
        → (b : Canary) × (ev.canary ≡ some b) × CanaryMeets s b
    pub drift :
        (s : SloDrift)
        → spec.drift ≡ some s
        → (sev : Option String) × (d : Option ℤ) × (k : Option ℤ) × (drift_file s.source
            ≡ read sev d k)
          × DriftMeets s sev d k
    pub saturation :
        (s : SloSaturation)
        → spec.saturation ≡ some s
        → Unsaturated s.max_cpu_percent ev.cpu_percent
          × Unsaturated s.max_mem_percent ev.mem_percent
          × Unsaturated s.max_qps ev.qps

  module _ (spec : SloSpec) (ev : Evidence Raw) where
    witness-nil :
        (check_witness spec ev ≡ [])
        ↔ (spec.require_csv_sha256 ≡ true → truthy ev.csv_sha256 ≡ true)
    unfolding check_witness
    witness-nil =
        chain (add_if-nil (spec.require_csv_sha256 && not (truthy ev.csv_sha256)) no_csv_sha256)
          (and_not spec.require_csv_sha256 (truthy ev.csv_sha256))

    integrity-nil :
        (check_integrity digest is_null spec ev ≡ [])
        ↔ (spec.require_signature ≡ true → ev.signature_sha256 ≡ some (digest (core is_null ev)))
    unfolding check_integrity
    integrity-nil =
        let expected = digest (core is_null ev) in
        let (f, g) = same_text-true ev.signature_sha256 expected in
        chain
          (add_if-nil (spec.require_signature && not (same_text ev.signature_sha256 expected))
            signature_mismatch)
          (chain (and_not spec.require_signature (same_text ev.signature_sha256 expected))
            (λ h e. f (h e), λ h e. g (h e)))

    budget-nil : (check_budget spec ev ≡ []) ↔ (
        (allowed_level ev.level spec.allow_levels ≡ true)
        × Within spec.max_spent (or_zero ev.spent))
    unfolding check_budget
    budget-nil =
        parts-nil
          (chain
            (add_if-nil (not (allowed_level ev.level spec.allow_levels)) (level_forbidden ev.level))
            (not-false (allowed_level ev.level spec.allow_levels)))
          (over-nil spec.max_spent (or_zero ev.spent) (λ v limit. spent_over ev.spent limit))

    quota-nil : (check_quota spec ev ≡ []) ↔ NoneForbidden ev.actions spec.forbid_actions
    unfolding check_quota
    quota-nil = forbidden-nil ev.actions spec.forbid_actions

    anomaly-nil : (check_anomaly spec ev ≡ []) ↔ ((spec.allow_spike ≡ true) ⊎ (ev.is_spike ≡ false))
    unfolding check_anomaly
    anomaly-nil =
        chain (add_if-nil (not spec.allow_spike && ev.is_spike) spike_forbidden)
          (not_and spec.allow_spike ev.is_spike)

    perf-nil :
        (check_perf spec ev ≡ [])
        ↔ (perf_required spec ≡ true → (p : Perf) × (ev.perf ≡ some p) × PerfMeets spec p)
    unfolding check_perf
    perf-nil = elim (Bool-cases (perf_required spec)) [
      | inr off ↦ (λ h e. absurd (cc (e, off)), λ h. ground arith)
      | inl on ↦ elim (Option-cases ev.perf) [
        | inl gone ↦
            (λ h e. absurd (ground arith), λ h. let (p, e, m) = h on in absurd (cc (e, gone)))
        | inr (p, e) ↦
            let (f, g) = perf-PerfMeets spec p in
            (
              λ h on'. (p, e, f (ground arith)),
              λ h.
                  let (q, e', m) = h on in
                  let same : q ≡ p = ground arith in
                  ground (arith, g (subst (PerfMeets spec) same m)),
            )
      ]
    ]

    infra-nil : (check_infra spec ev ≡ []) ↔ (
        (i : SloInfra)
        → spec.judge_infra ≡ some i
        → (p : Perf) × (ev.perf_judge ≡ some p) × InfraMeets i p)
    unfolding check_infra
    infra-nil =
        gated-nil spec.judge_infra (λ i. infra_perf i ev.perf_judge)
          (λ i. infra_block i ev.perf_judge)

    canary-nil : (check_canary spec ev ≡ []) ↔ (
        (s : SloCanary)
        → spec.canary ≡ some s
        → (b : Canary) × (ev.canary ≡ some b) × CanaryMeets s b)
    unfolding check_canary
    canary-nil =
        gated-nil spec.canary (λ s. canary_block s ev.canary) (λ s. canary_part s ev.canary)

    drift-nil : (check_drift drift_file spec ev ≡ []) ↔ (
        (s : SloDrift)
        → spec.drift ≡ some s
        → (sev : Option String) × (d : Option ℤ) × (k : Option ℤ) × (drift_file s.source
            ≡ read sev d k)
          × DriftMeets s sev d k)
    unfolding check_drift
    drift-nil =
        gated-nil spec.drift (λ s. drift_block s (drift_file s.source))
          (λ s. drift_part s (drift_file s.source))

    saturation-nil : (check_saturation spec ev ≡ []) ↔ (
        (s : SloSaturation)
        → spec.saturation ≡ some s
        → Unsaturated s.max_cpu_percent ev.cpu_percent
          × Unsaturated s.max_mem_percent ev.mem_percent
          × Unsaturated s.max_qps ev.qps)
    unfolding check_saturation
    saturation-nil = gated-nil spec.saturation _ (λ s. flat (
        parts-nil (saturated-nil s.max_cpu_percent ev.cpu_percent saturation_cpu) (
          parts-nil (saturated-nil s.max_mem_percent ev.mem_percent saturation_mem)
            (saturated-nil s.max_qps ev.qps saturation_qps))))

    checks-Meets : (checks digest is_null drift_file spec ev ≡ []) ↔ Meets spec ev
    unfolding checks
    checks-Meets =
        let (f, g) = parts-nil witness-nil (
          parts-nil integrity-nil (
            parts-nil budget-nil (
              parts-nil quota-nil (
                parts-nil anomaly-nil (
                  parts-nil perf-nil (
                    parts-nil infra-nil
                      (parts-nil canary-nil (parts-nil drift-nil saturation-nil)))))))) in
        (
          λ h.
              let (a, (b, (c, (d, (e, (i, (j, (k, (l, m))))))))) = f h in
              record {
                csv = a;
                signed = b;
                level = c.0;
                spent = c.1;
                actions = d;
                spike = e;
                perf = i;
                infra = j;
                canary = k;
                drift = l;
                saturation = m;
              },
          λ m. g (
            m.csv,
            (
              m.signed,
              (
                (m.level, m.spent),
                (m.actions, (m.spike, (m.perf, (m.infra, (m.canary, (m.drift, m.saturation)))))),
              ),
            ),
          ),
        )

  verdict_of-pass : (rs : List Reason) → ((verdict_of rs).0 ≡ pass) ↔ (rs ≡ [])
  verdict_of-pass [] = (λ h. refl, λ h. refl)
  verdict_of-pass (r ∷ rs) = (λ h. cc h, λ h. cc h)

  judged_by : (ms rs : List Reason) → ((unless_missing ms rs).0 ≡ pass) ↔ ((ms ≡ []) × (rs ≡ []))
  judged_by [] rs = let (f, g) = verdict_of-pass rs in (λ h. (refl, f h), λ h. g h.1)
  judged_by (r ∷ l) rs = (λ h. cc h, λ h. cc (h.0))

  judged-Meets :
      (spec : SloSpec) (ev : Evidence Raw)
      → ((evaluate digest is_null drift_file ev (some spec)).0 ≡ pass)
        ↔ (AllThere ev.blocks × Meets spec ev)
  unfolding evaluate missing_blocks
  judged-Meets spec ev =
      let (f, g) = judged_by (missing_blocks ev) (checks digest is_null drift_file spec ev) in
      let (s, t) = checks-Meets spec ev in
      let (u, v) = absent-nil ev.blocks required_blocks in
      (λ h. (u (f h).0, s (f h).1), λ h. g (v h.0, t h.1))

  -- The judge passes evidence exactly if the SLO is valid, the evidence has all the required blocks,
  -- and it meets each part of the SLO: the hash of the CSV, the signature over the blocks, the level and
  -- the spending of the budget, the actions of the quotas, the spike, and the limits of performance,
  -- infrastructure, canary, drift and saturation that the SLO sets.
  pub evaluate_pass_iff :
      (ev : Evidence Raw) (slo : Option SloSpec)
      → ((evaluate digest is_null drift_file ev slo).0 ≡ pass)
        ↔ ((spec : SloSpec) × (slo ≡ some spec) × AllThere ev.blocks × Meets spec ev)
  unfolding evaluate
  evaluate_pass_iff ev none = (λ h. cc h, λ t. cc (t.1))
  evaluate_pass_iff ev (some spec) =
      let (f, g) = judged-Meets spec ev in
      (
        λ h. let (there, meets) = f h in (spec, refl, there, meets),
        λ (spec', e, there, meets).
            let same : spec' ≡ spec = ground arith in g (there, subst (λ x. Meets x ev) same meets),
      )
