-- ===== src/Change/Multisig/Reviews.antt =====
-- Whom `get_pr_reviewers` of scripts/ci/check_multisig.py counts.
use mathlib.Core.Path.{subst}
use decisionos.Common.{
  ◌≡◌, ◌↔◌, ◌⊎◌, refl, inl, inr, String, true, false, some, List, [], ◌∷◌, ◌++◌, arith, eq_iff,
  str_eq, contains, Bool-cases, Option-cases,
}
use decisionos.Change.Multisig.{Review, add, collect, get_pr_reviewers}

-- A review of the list approves, and is of the user.
abbrev pub ApprovedBy : String → List Review → Type 0
ApprovedBy u [] = ⊥
ApprovedBy u (r ∷ rs) = ((r.state ≡ some "APPROVED") × (r.login ≡ some u)) ⊎ ApprovedBy u rs

-- No text is in the list twice.
abbrev pub AllDistinct : List String → Type 0
AllDistinct [] = Unit {0}
AllDistinct (x ∷ xs) = (contains x xs ≡ false) × AllDistinct xs

contains-snoc :
    (u v : String) (s : List String)
    → (contains u (s ++ v ∷ []) ≡ true) ↔ ((contains u s ≡ true) ⊎ (u ≡ v))
contains-snoc u v [] = ground (arith, eq_iff u v)
contains-snoc u v (x ∷ s) = ground (arith, contains-snoc u v s)

contains-add :
    (u v : String) (s : List String)
    → (contains u (add v s) ≡ true) ↔ ((contains u s ≡ true) ⊎ (u ≡ v))
contains-add u v s = elim (Bool-cases (contains v s)) [
  | inl y ↦ rw y (λ h. inl h, λ h. elim h [ inl x ↦ x | inr e ↦ rw e y ])
  | inr z ↦ rw z (contains-snoc u v s)
]

snoc-AllDistinct :
    (u : String) (s : List String)
    → contains u s ≡ false
    → AllDistinct s
    → AllDistinct (s ++ u ∷ [])
snoc-AllDistinct u [] n d = (refl, tt)
snoc-AllDistinct u (x ∷ s) n d = (
  ground (arith, contains-snoc x u s, eq_iff u x, eq_iff x u),
  snoc-AllDistinct u s (ground arith) d.1,
)

add-AllDistinct : (u : String) (s : List String) → AllDistinct s → AllDistinct (add u s)
add-AllDistinct u s d = elim (Bool-cases (contains u s)) [
  | inl y ↦ rw y d
  | inr z ↦ rw z (snoc-AllDistinct u s z d)
]

pub collect-counted :
    (u : String) (reviews : List Review) (s rs : List String)
    → collect reviews s ≡ some rs
    → AllDistinct s
    → AllDistinct rs × ((contains u rs ≡ true) ↔ ((contains u s ≡ true) ⊎ ApprovedBy u reviews))
unfolding collect
collect-counted u [] s rs e d =
    let same : s ≡ rs = ground arith in
    subst (λ x. AllDistinct x × ((contains u x ≡ true) ↔ ((contains u s ≡ true) ⊎ ⊥))) same
      (d, (λ h. inl h, λ h. elim h [ inl x ↦ x | inr f ↦ absurd f ]))
collect-counted u (r ∷ reviews) s rs e d = elim (Option-cases r.state) [
  | inl y ↦
      let rest = collect-counted u reviews s rs (ground arith) d in (rest.0, ground (arith, rest.1))
  | inr (state, y) ↦ elim (Bool-cases (str_eq state "APPROVED")) [
    | inl a ↦ elim (Option-cases r.login) [
      | inl nobody ↦ absurd (ground arith)
      | inr (v, l) ↦
          let rest =
            collect-counted u reviews (add v s) rs (ground arith) (add-AllDistinct v s d) in
          (rest.0, ground (arith, rest.1, contains-add u v s, eq_iff state "APPROVED"))
    ]
    | inr other ↦
        let rest = collect-counted u reviews s rs (ground arith) d in
        (rest.0, ground (arith, rest.1, eq_iff state "APPROVED"))
  ]
]

-- Where the reviews can be read, the approvers are distinct, and are the users with a review that
-- approves.
pub get_pr_reviewers_iff :
    (u : String) (reviews : List Review) (rs : List String)
    → get_pr_reviewers (some reviews) ≡ some rs
    → AllDistinct rs × ((contains u rs ≡ true) ↔ ApprovedBy u reviews)
unfolding get_pr_reviewers
get_pr_reviewers_iff u reviews rs e =
    let all = collect-counted u reviews [] rs e tt in (all.0, ground (arith, all.1))
