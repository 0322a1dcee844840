-- ===== src/Judge/Slo/Meets/Parts.antt =====
-- The parts of what apps/judge/slo_judge.py checks, each as the condition that it holds no reason.
use decisionos.Common.{
  ◌≡◌, ◌↔◌, ◌⊎◌, refl, sym, inl, inr, String, Bool, true, false, not, ◌&&◌, Option, none, some,
  List, [], ◌∷◌, arith, All, eq_iff, contains, Bool-cases,
}
use mathlib.Core.Path.{subst}
use decisionos.Common.Int.{ℤ}
use decisionos.Common.Dict.{Dict, has}
use decisionos.Judge.Slo.Schema.{
  SloInfra, SloCanary, SloDrift, Perf, Canary, DriftFile, missing, unreadable, read, quota_forbid,
}
use decisionos.Judge.Slo.Checks.{
  required_blocks, absent, same_text, allowed_level, action_of, forbidden,
}
use decisionos.Judge.Slo.Blocks.{infra_perf, canary_block, drift_block}
use decisionos.Judge.Slo.Meets.{parts-nil, add_if-nil}
use decisionos.Judge.Slo.Meets.Blocks.{
  InfraMeets, infra-InfraMeets, CanaryMeets, canary-CanaryMeets, DriftMeets, drift-DriftMeets,
}

pub chain : {P Q R : Type 0} → P ↔ Q → Q ↔ R → P ↔ R
chain (f, f') (g, g') = (λ h. g (f h), λ h. f' (g' h))

pub flat : {P A B C : Type 0} → P ↔ (A × (B × C)) → P ↔ (A × B × C)
flat (f, f') = (λ h. let (a, (b, c)) = f h in (a, b, c), λ (a, b, c). f' (a, (b, c)))

pub and_not : (a b : Bool) → ((a && not b) ≡ false) ↔ (a ≡ true → b ≡ true)
and_not true true = (λ h e. refl, λ h. refl)
and_not true false = (λ h. cc h, λ h. cc (h refl))
and_not false b = (λ h e. cc e, λ h. refl)

pub not-false : (b : Bool) → (not b ≡ false) ↔ (b ≡ true)
not-false true = (λ h. refl, λ h. refl)
not-false false = (λ h. cc h, λ h. cc h)

pub not_and : (a b : Bool) → ((not a && b) ≡ false) ↔ ((a ≡ true) ⊎ (b ≡ false))
not_and true b = (λ h. inl refl, λ h. refl)
not_and false true = (λ h. cc h, λ h. elim h [ inl e ↦ cc e | inr e ↦ cc e ])
not_and false false = (λ h. inr refl, λ h. refl)

pub same_text-true : (o : Option String) (s : String) → (same_text o s ≡ true) ↔ (o ≡ some s)
same_text-true none s = (λ h. cc h, λ h. cc h)
same_text-true (some t) s = (λ h. ground (arith, eq_iff t s), λ h. ground (arith, eq_iff t s))

pub infra_block :
    (i : SloInfra) (o : Option Perf)
    → (infra_perf i o ≡ []) ↔ ((p : Perf) × (o ≡ some p) × InfraMeets i p)
infra_block i none = (λ h. cc h, λ (p, e, m). cc e)
infra_block i (some p) =
    let (f, g) = infra-InfraMeets i p in
    (
      λ h. (p, refl, f h),
      λ (q, e, m). let same : q ≡ p = ground arith in g (subst (InfraMeets i) same m),
    )

pub canary_part :
    (s : SloCanary) (o : Option Canary)
    → (canary_block s o ≡ []) ↔ ((b : Canary) × (o ≡ some b) × CanaryMeets s b)
canary_part s none = (λ h. cc h, λ (b, e, m). cc e)
canary_part s (some b) =
    let (f, g) = canary-CanaryMeets s b in
    (
      λ h. (b, refl, f h),
      λ (q, e, m). let same : q ≡ b = ground arith in g (subst (CanaryMeets s) same m),
    )

abbrev pub ReadMeets : SloDrift → DriftFile → Type 0
ReadMeets s missing = ⊥
ReadMeets s unreadable = ⊥
ReadMeets s (read sev d k) = DriftMeets s sev d k

pub drift_part :
    (s : SloDrift) (o : DriftFile)
    → (drift_block s o ≡ []) ↔ (
        (sev : Option String) × (d : Option ℤ) × (k : Option ℤ) × (o ≡ read sev d k)
        × DriftMeets s sev d k)
drift_part s missing = (λ h. cc h, λ t. cc (t.3))
drift_part s unreadable = (λ h. cc h, λ t. cc (t.3))
drift_part s (read sev d k) =
    let (f, g) = drift-DriftMeets s sev d k in
    (λ h. (sev, d, k, refl, f h), λ (sev', d', k', e, m). g (subst (ReadMeets s) (sym e) m))

-- None of the actions that the evidence has for the metrics is forbidden.
abbrev pub NoneForbidden : Dict (Option String) → Dict (List String) → Type 0
NoneForbidden actions forbids =
    All (λ e. (a : String) → action_of actions e.0 ≡ some a → contains a e.1 ≡ false) forbids

pub allowed_level-false :
    (o : Option String) (l : List String)
    → (allowed_level o l ≡ false) ↔ ((a : String) → o ≡ some a → contains a l ≡ false)
allowed_level-false none l = (λ h a e. cc e, λ h. refl)
allowed_level-false (some b) l = (
  λ h a e. let same : b ≡ a = ground arith in subst (λ x. contains x l ≡ false) same h,
  λ h. h b refl,
)

pub forbidden-nil :
    (actions : Dict (Option String)) (l : Dict (List String))
    → (forbidden actions l ≡ []) ↔ NoneForbidden actions l
unfolding forbidden
forbidden-nil actions [] = (λ h. tt, λ h. refl)
forbidden-nil actions ((metric, forbids) ∷ l) =
    let a = action_of actions metric in
    let (f, g) = add_if-nil (allowed_level a forbids) (quota_forbid metric a) in
    let (s, t) = allowed_level-false a forbids in
    parts-nil (λ h. s (f h), λ h. g (t h)) (forbidden-nil actions l)

-- The required blocks are there.
abbrev pub AllThere : {Raw : Type 0} → Dict Raw → Type 0
AllThere blocks = All (λ k. has k blocks ≡ true) required_blocks

pub absent-nil :
    {Raw : Type 0} (blocks : Dict Raw) (ks : List String)
    → (absent blocks ks ≡ []) ↔ All (λ k. has k blocks ≡ true) ks
absent-nil blocks [] = (λ h. tt, λ h. refl)
absent-nil blocks (k ∷ ks) =
    let (f, g) = absent-nil blocks ks in
    elim (Bool-cases (has k blocks)) [
      | inl e ↦ (λ h. (e, f (ground arith)), λ h. ground (arith, g h.1))
      | inr e ↦ (λ h. absurd (ground arith), λ h. absurd (ground (arith, h.0)))
    ]
