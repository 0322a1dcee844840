-- ===== src/Policy/Pdp/Order.antt =====
-- The order of the candidates of apps/policy/pdp.py.
use decisionos.Common.{◌≡◌, inl, inr, true, false, List, [], ◌∷◌, arith, All, Bool-cases}
use decisionos.Common.Int.{◌≤ℤ◌}
use decisionos.Policy.Pdp.{Candidate, is_deny, key_leb, place, sort}

pub key_leb_trans :
    (a b c : Candidate) → key_leb a b ≡ true → key_leb b c ≡ true → key_leb a c ≡ true
unfolding key_leb
key_leb_trans a b c h k = ground arith

pub key_leb-total : (a b : Candidate) → key_leb a b ≡ false → key_leb b a ≡ true
unfolding key_leb
key_leb-total a b h = ground arith

pub key_leb_refl : (a : Candidate) → key_leb a a ≡ true
unfolding key_leb
key_leb_refl a = ground arith

-- What comes first has a higher priority, or the same one and denies if the other does.
pub key_leb-priority :
    (a b : Candidate)
    → key_leb a b ≡ true
    → (b.policy.priority ≤ℤ a.policy.priority)
      × (a.policy.priority ≤ℤ b.policy.priority → is_deny b ≡ true → is_deny a ≡ true)
unfolding key_leb
key_leb-priority a b h = (ground arith, λ p d. ground arith)

module _ (P : Candidate → Type 0) where
  place-All : (c : Candidate) (l : List Candidate) → P c → All P l → All P (place c l)
  unfolding place
  place-All c [] p q = (p, q)
  place-All c (d ∷ l) p q = elim (Bool-cases (key_leb c d)) [
    | inl e ↦ rw e (p, q)
    | inr e ↦ rw e (q.0, place-All c l p q.1)
  ]

  All-place : (c : Candidate) (l : List Candidate) → All P (place c l) → P c × All P l
  unfolding place
  All-place c [] h = h
  All-place c (d ∷ l) h = elim (Bool-cases (key_leb c d)) [
    | inl e ↦ rw e at h
    | inr e ↦ let h' = rw e at h in let (p, q) = All-place c l h'.1 in (p, (h'.0, q))
  ]

  pub sort-All : (l : List Candidate) → All P l → All P (sort l)
  unfolding sort
  sort-All [] h = tt
  sort-All (c ∷ l) h = place-All c (sort l) h.0 (sort-All l h.1)

  pub All-sort : (l : List Candidate) → All P (sort l) → All P l
  unfolding sort
  All-sort [] h = tt
  All-sort (c ∷ l) h = let (p, q) = All-place c (sort l) h in (p, All-sort l q)

abbrev pub IsSorted : List Candidate → Type 0
IsSorted [] = Unit
IsSorted (c ∷ l) = All (λ d. key_leb c d ≡ true) l × IsSorted l

All-trans :
    (a b : Candidate) (l : List Candidate)
    → key_leb a b ≡ true
    → All (λ d. key_leb b d ≡ true) l
    → All (λ d. key_leb a d ≡ true) l
All-trans a b [] h k = tt
All-trans a b (c ∷ l) h k = (key_leb_trans a b c h k.0, All-trans a b l h k.1)

place-IsSorted : (c : Candidate) (l : List Candidate) → IsSorted l → IsSorted (place c l)
unfolding place
place-IsSorted c [] h = (tt, tt)
place-IsSorted c (d ∷ l) h = elim (Bool-cases (key_leb c d)) [
  | inl e ↦ rw e ((e, All-trans c d l e h.0), h)
  | inr e ↦
      rw e
        (place-All (λ x. key_leb d x ≡ true) c l (key_leb-total c d e) h.0, place-IsSorted c l h.1)
]

pub sort-IsSorted : (l : List Candidate) → IsSorted (sort l)
unfolding sort
sort-IsSorted [] = tt
sort-IsSorted (c ∷ l) = place-IsSorted c (sort l) (sort-IsSorted l)
