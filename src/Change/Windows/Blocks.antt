-- ===== src/Change/Windows/Blocks.antt =====
-- apps/ops/freeze.py: which changes a freeze window blocks.
use decisionos.Common.{
  ℕ, ◌≡◌, ◌≢◌, ◌↔◌, ◌⊎◌, refl, sym, ◌∙◌, inl, inr, String, true, false, List, [], ◌∷◌, arith,
  str_eq, eq_iff, contains, Among, Bool-cases,
}
use mathlib.Core.Path.{subst}
use decisionos.Common.Text.{strip}
use decisionos.Change.Windows.{
  Calendar, FreezeWindow, active_instant, matches_service, norm, any_tag, allow, evaluate,
}

-- A tag of the window and a label, not empty, that are the same in lower case and without spaces
-- around the label.
abbrev pub Exempt : Calendar → FreezeWindow → List String → Type 0
Exempt cal w labels =
    (tag : String) × (label : String) × Among tag w.allow_tags
    × Among label labels
    × (label ≢ "")
    × (cal.lower (strip label) ≡ cal.lower tag)

contains-norm :
    (cal : Calendar) (name : String) (labels : List String)
    → contains name (norm cal labels) ≡ true
    → (label : String) × Among label labels × (label ≢ "") × (cal.lower (strip label) ≡ name)
unfolding norm
contains-norm cal name [] h = cc
contains-norm cal name (l ∷ labels) h = elim (Bool-cases (str_eq l "")) [
  | inl e ↦
      let (label, among, given, same) = contains-norm cal name labels (ground arith) in
      (label, inr among, given, same)
  | inr e ↦ elim (Bool-cases (str_eq name (cal.lower (strip l)))) [
    | inl s ↦ (
      l,
      inl refl,
      ground (arith, eq_iff l ""),
      ground (arith, eq_iff name (cal.lower (strip l))),
    )
    | inr s ↦
        let (label, among, given, same) = contains-norm cal name labels (ground arith) in
        (label, inr among, given, same)
  ]
]

norm-contains :
    (cal : Calendar) (label : String) (labels : List String)
    → Among label labels
    → label ≢ ""
    → contains (cal.lower (strip label)) (norm cal labels) ≡ true
unfolding norm
norm-contains cal label [] m g = absurd m
norm-contains cal label (l ∷ labels) (inl e) g =
    let low = cal.lower (strip l) in
    let given : str_eq l "" ≡ false = ground (arith, eq_iff l "", λ (q : l ≡ ""). g (e ∙ q)) in
    subst (λ x. contains (cal.lower (strip x)) (norm cal (l ∷ labels)) ≡ true) (sym e)
      (ground (arith, eq_iff low low))
norm-contains cal label (l ∷ labels) (inr m) g = ground (arith, norm-contains cal label labels m g)

any_tag-among :
    (cal : Calendar) (names tags : List String)
    → any_tag cal names tags ≡ true
    → (tag : String) × Among tag tags × (contains (cal.lower tag) names ≡ true)
any_tag-among cal names [] h = cc
any_tag-among cal names (t ∷ tags) h = elim (Bool-cases (contains (cal.lower t) names)) [
  | inl e ↦ (t, inl refl, e)
  | inr e ↦
      let (tag, among, found) = any_tag-among cal names tags (ground arith) in
      (tag, inr among, found)
]

among-any_tag :
    (cal : Calendar) (names tags : List String) (tag : String)
    → Among tag tags
    → contains (cal.lower tag) names ≡ true
    → any_tag cal names tags ≡ true
among-any_tag cal names [] tag m h = absurd m
among-any_tag cal names (t ∷ tags) tag (inl e) h =
    let e' : contains (cal.lower t) names ≡ true =
      subst (λ x. contains (cal.lower x) names ≡ true) e h in
    ground arith
among-any_tag cal names (t ∷ tags) tag (inr m) h =
    ground (arith, among-any_tag cal names tags tag m h)

pub allow_iff :
    (cal : Calendar) (w : FreezeWindow) (labels : List String)
    → (allow cal w labels ≡ true) ↔ Exempt cal w labels
unfolding allow
allow_iff cal w labels = (
  λ h.
      let (tag, at, found) = any_tag-among cal (norm cal labels) w.allow_tags h in
      let (label, al, given, same) = contains-norm cal (cal.lower tag) labels found in
      (tag, label, at, al, given, same),
  λ (tag, label, at, al, given, same). among-any_tag cal (norm cal labels) w.allow_tags tag at (
      subst (λ x. contains x (norm cal labels) ≡ true) same
        (norm-contains cal label labels al given)),
)

abbrev pub Blocks : Calendar → FreezeWindow → ℕ → String → List String → Type 0
Blocks cal w now service labels =
    ((contains "*" w.services ≡ true) ⊎ (contains service w.services ≡ true))
    × (active_instant w now ≡ true)
    × ¬ Exempt cal w labels

-- A window blocks a change exactly if it names the service, or all of them, it is active at the
-- instant, and no label of the change is one of its tags.
pub evaluate_iff :
    (cal : Calendar) (w : FreezeWindow) (now : ℕ) (service : String) (labels : List String)
    → ((evaluate cal w now service labels).0 ≡ true) ↔ Blocks cal w now service labels
unfolding evaluate matches_service
evaluate_iff cal w now service labels =
    let (f, g) = allow_iff cal w labels in
    (
      λ h. (ground arith, ground arith, λ x. absurd (ground (arith, g x))),
      λ t. elim (Bool-cases (allow cal w labels)) [
        | inl e ↦ absurd (t.2 (f e))
        | inr e ↦ ground (arith, t.0, t.1)
      ],
    )
