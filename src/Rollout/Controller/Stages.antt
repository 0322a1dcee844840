-- ===== src/Rollout/Controller/Stages.antt =====
-- apps/experiment/controller.py: the stages of a canary and the index among them.
use decisionos.Common.{
  ℕ, zero, suc, ◌+◌, ◌≤◌, ◌<◌, ◌≡◌, ◌⊎◌, refl, ap, ◌∙◌, inl, inr, Bool, true, false, List, [], ◌∷◌,
  arith, All, All-map, Among, leb, ltb, ◌==◌, if◌then◌else◌, Bool-cases,
}
use mathlib.Core.Path.{subst}
use decisionos.Common.Int.{ℤ, pos, negsuc}
use decisionos.Rollout.StageFile.{Crypto, StageEnv}
use decisionos.Rollout.Controller.{
  place, sorted_stages, Traffic, closest_from, closest_index, clamp, World, from_index, first_or,
  set_stage, register_result,
}

-- Strictly rising from above `p`.
abbrev pub Rising : ℕ → List ℕ → Type 0
Rising p [] = Unit
Rising p (q ∷ l) = (p < q) × Rising q l

place-Rising : (p b : ℕ) (l : List ℕ) → b < p → Rising b l → Rising b (place p l)
unfolding place
place-Rising p b [] h r = (h, tt)
place-Rising p b (q ∷ l) h r = elim (Bool-cases (p == q)) [
  | inl e ↦ let eq : q ∷ l ≡ place p (q ∷ l) = ground arith in subst (Rising b) eq r
  | inr e ↦ elim (Bool-cases (ltb p q)) [
    | inl f ↦
        let eq : p ∷ q ∷ l ≡ place p (q ∷ l) = ground arith in
        subst (Rising b) eq (h, (ground arith, r.1))
    | inr f ↦
        let eq : q ∷ place p l ≡ place p (q ∷ l) = ground arith in
        subst (Rising b) eq (r.0, place-Rising p q l (ground arith) r.1)
  ]
]

pub sorted_stages-Rising : (ps : List ℕ) → (l : List ℕ) × (sorted_stages ps ≡ 0 ∷ l) × Rising 0 l
unfolding sorted_stages place
sorted_stages-Rising [] = ([], refl, tt)
sorted_stages-Rising (zero ∷ ps) = let (l, e, r) = sorted_stages-Rising ps in (l, ground arith, r)
sorted_stages-Rising (suc p ∷ ps) =
    let (l, e, r) = sorted_stages-Rising ps in
    (place (suc p) l, ground arith, place-Rising (suc p) 0 l (omega arith) r)

-- The stages at the head that `pct` has reached.
abbrev upto : ℕ → List ℕ → ℕ
upto pct [] = 0
upto pct (v ∷ l) = if leb v pct then suc (upto pct l) else 0

-- The first stage above `pct`, or else `d`.
abbrev pub next : ℕ → ℕ → List ℕ → ℕ
next d pct [] = d
next d pct (v ∷ l) = if leb v pct then next d pct l else v

above : (pct i idx v : ℕ) (l : List ℕ) → pct < v → Rising v l → closest_from pct i idx l ≡ idx
unfolding closest_from
above pct i idx v [] h r = refl
above pct i idx v (w ∷ l) h r = ground (arith, above pct (i + 1) idx w l)

closest-upto :
    (pct idx b : ℕ) (l : List ℕ) → Rising b l → closest_from pct (idx + 1) idx l ≡ idx + upto pct l
unfolding closest_from
closest-upto pct idx b [] r = omega arith
closest-upto pct idx b (v ∷ l) r =
    ground (arith, closest-upto pct (idx + 1) v l, above pct (idx + 1 + 1) idx v l)

upto-next : (d pct : ℕ) (l : List ℕ) → first_or d (from_index (upto pct l) l) ≡ next d pct l
upto-next d pct [] = refl
upto-next d pct (v ∷ l) = ground (arith, upto-next d pct l)

-- The state that the controller keeps: rising stages from 0, a percentage of at most 100, and the
-- index of the last stage that it has reached.
pub record IsValid (t : Traffic) (l : List ℕ) : Type 0 where
  pub listed : t.stages ≡ 0 ∷ l
  pub rising : Rising 0 l
  pub bounded : t.stage_pct ≤ 100
  pub indexed : t.stage_index ≡ closest_index t.stage_pct t.stages

closest-zero : (pct : ℕ) (l : List ℕ) → Rising 0 l → closest_index pct (0 ∷ l) ≡ upto pct l
unfolding closest_index closest_from
closest-zero pct l r = ground (arith, closest-upto pct 0 0 l r)

index-upto : (t : Traffic) (l : List ℕ) → IsValid t l → t.stage_index ≡ upto t.stage_pct l
index-upto t l v =
    v.indexed ∙ ap (closest_index t.stage_pct) v.listed ∙ closest-zero t.stage_pct l v.rising

following :
    (t : Traffic) (l : List ℕ)
    → IsValid t l
    → first_or t.stage_pct (from_index (suc t.stage_index) t.stages)
      ≡ next t.stage_pct t.stage_pct l
following t l v =
    ap (λ i. first_or t.stage_pct (from_index (suc i) t.stages)) (index-upto t l v)
    ∙ ap (λ s. first_or t.stage_pct (from_index (suc (upto t.stage_pct l)) s)) v.listed
    ∙ upto-next t.stage_pct t.stage_pct l

module _ (crypto : Crypto) (env : StageEnv) (now : ℕ) where
  set_stage-IsValid :
      (p : ℤ) (w : World) (l : List ℕ)
      → IsValid w.traffic l
      → IsValid (set_stage crypto env now p w).traffic l
  unfolding set_stage
  set_stage-IsValid (negsuc n) w l v = record {
    listed = v.listed;
    rising = v.rising;
    bounded = omega arith;
    indexed = refl;
  }
  set_stage-IsValid (pos n) w l v = record {
    listed = v.listed;
    rising = v.rising;
    bounded = ground arith;
    indexed = refl;
  }

  pub register_result-IsValid :
      (b : Bool) (w : World) (l : List ℕ)
      → IsValid w.traffic l
      → IsValid (register_result crypto env now b w).traffic l
  unfolding register_result
  register_result-IsValid true w l v =
      let t = w.traffic in
      set_stage-IsValid (pos (first_or t.stage_pct (from_index (suc t.stage_index) t.stages))) w l v
  register_result-IsValid false w l v = set_stage-IsValid (pos 0) w l v

  pub success_pct :
      (w : World) (l : List ℕ)
      → IsValid w.traffic l
      → (register_result crypto env now true w).traffic.stage_pct
        ≡ clamp (pos (next w.traffic.stage_pct w.traffic.stage_pct l))
  unfolding register_result set_stage
  success_pct w l v = ap (λ p. clamp (pos p)) (following w.traffic l v)

-- The next stage above `pct`: the least of those above it, or `d` where there is none.
abbrev pub IsNext : ℕ → ℕ → List ℕ → ℕ → Type 0
IsNext d pct l n =
    (pct < n) × Among n l × All (λ u. (u ≤ pct) ⊎ (n ≤ u)) l ⊎ (n ≡ d) × All (λ u. u ≤ pct) l

IsNext-skip : (d pct v n : ℕ) (l : List ℕ) → v ≤ pct → IsNext d pct l n → IsNext d pct (v ∷ l) n
IsNext-skip d pct v n l h (inl (above', among, least)) = inl (above', inr among, (inl h, least))
IsNext-skip d pct v n l h (inr (e, none_above)) = inr (e, (h, none_above))

Rising-above : (b pct : ℕ) (l : List ℕ) → Rising b l → All (λ u. (u ≤ pct) ⊎ (b ≤ u)) l
Rising-above b pct [] r = tt
Rising-above b pct (v ∷ l) r = (
  inr (omega arith),
  All-map (λ u. (u ≤ pct) ⊎ (v ≤ u)) (λ u. (u ≤ pct) ⊎ (b ≤ u)) l (λ u h. ground arith)
      (Rising-above v pct l r.1),
)

pub next-IsNext : (d pct b : ℕ) (l : List ℕ) → Rising b l → IsNext d pct l (next d pct l)
next-IsNext d pct b [] r = inr (refl, tt)
next-IsNext d pct b (v ∷ l) r = elim (Bool-cases (leb v pct)) [
  | inl e ↦
      let eq : next d pct l ≡ next d pct (v ∷ l) = ground arith in
      subst (IsNext d pct (v ∷ l)) eq
        (IsNext-skip d pct v (next d pct l) l (ground arith) (next-IsNext d pct v l r.1))
  | inr e ↦
      let eq : v ≡ next d pct (v ∷ l) = ground arith in
      subst (IsNext d pct (v ∷ l)) eq
        (inl (ground arith, inl refl, (inr (omega arith), Rising-above v pct l r.1)))
]
