-- ===== src/Change/Multisig/Counts.antt =====
-- The counts of teams of scripts/ci/check_multisig.py: what the loops of `check_rule` leave in the dict.
use mathlib.Core.Path.{subst}
use decisionos.Common.{
  ℕ, suc, ◌+◌, ◌*◌, ◌≡◌, ◌↔◌, refl, sym, ◌∙◌, String, Bool, false, inl, inr, none, some, List, [],
  ◌∷◌, eq_iff, arith, ltb, if◌then◌else◌, contains, str_eq, count, eq_refl, Bool-cases,
}
use decisionos.Common.Dict.{Dict, lookup, insert, lookup-insert}
use decisionos.Change.Multisig.{Outside, zeros, bump, or_none, tally, team_errors, get_user_teams}

-- The keys of a dict are distinct.
abbrev pub IsDict : Dict ℕ → Type 0
IsDict [] = Unit {0}
IsDict ((k, v) ∷ d) = (lookup k d ≡ none) × IsDict d

-- How often a team is named.
abbrev pub times : String → List String → ℕ
times t = count (λ u. str_eq u t)

insert-IsDict : (k : String) (v : ℕ) (d : Dict ℕ) → IsDict d → IsDict (insert k v d)
unfolding insert lookup
insert-IsDict k v [] i = (refl, tt)
insert-IsDict k v ((j, w) ∷ d) (f, i) = elim (Bool-cases (str_eq j k)) [
  | inl t ↦ rw t (f, i)
  | inr n ↦
      rw n (ground (arith, lookup-insert k j v d, eq_iff k j, eq_iff j k), insert-IsDict k v d i)
]

pub lookup-zeros :
    (t : String) (ts : List String) (d : Dict ℕ)
    → lookup t (zeros ts d) ≡ (if contains t ts then some 0 else lookup t d)
unfolding zeros
lookup-zeros t [] d = refl
lookup-zeros t (u ∷ ts) d =
    ground (arith, lookup-zeros t ts (insert u 0 d), lookup-insert u t 0 d, eq_iff u t, eq_iff t u)

pub zeros-IsDict : (ts : List String) (d : Dict ℕ) → IsDict d → IsDict (zeros ts d)
unfolding zeros
zeros-IsDict [] d i = i
zeros-IsDict (t ∷ ts) d i = zeros-IsDict ts (insert t 0 d) (insert-IsDict t 0 d i)

bump-IsDict : (ts teams : List String) (d : Dict ℕ) → IsDict d → IsDict (bump ts teams d)
unfolding bump
bump-IsDict [] teams d i = i
bump-IsDict (t ∷ ts) teams d i = bump-IsDict ts teams _ (elim (Bool-cases (contains t teams)) [
  | inl y ↦ rw y (insert-IsDict t (or_none (lookup t d) + 1) d i)
  | inr n ↦ rw n i
])

suc-times : (m n : ℕ) → suc m * n ≡ n + m * n
suc-times m n = omega arith

abbrev one_if : Bool → ℕ
one_if b = if b then 1 else 0

lookup-step-same :
    (t : String) (teams : List String) (d : Dict ℕ) (n : ℕ)
    → lookup t d ≡ some n
    → lookup t (if contains t teams then insert t (or_none (lookup t d) + 1) d else d)
      ≡ some (n + (if contains t teams then one_if (str_eq t t) else 0))
lookup-step-same t teams d n e =
    ground (arith, lookup-insert t t (or_none (lookup t d) + 1) d, eq_refl t)

lookup-step :
    (t u : String) (teams : List String) (d : Dict ℕ) (n : ℕ)
    → lookup t d ≡ some n
    → lookup t (if contains u teams then insert u (or_none (lookup u d) + 1) d else d)
      ≡ some (n + (if contains t teams then one_if (str_eq u t) else 0))
lookup-step t u teams d n e = elim (Bool-cases (str_eq u t)) [
  | inl y ↦
      subst
        (λ u.
          lookup t (if contains u teams then insert u (or_none (lookup u d) + 1) d else d)
          ≡ some (n + (if contains t teams then one_if (str_eq u t) else 0)))
        (sym ((eq_iff u t).0 y)) (lookup-step-same t teams d n e)
  | inr z ↦ ground (arith, lookup-insert u t (or_none (lookup u d) + 1) d)
]

lookup-bump :
    (t : String) (ts teams : List String) (d : Dict ℕ) (n : ℕ)
    → lookup t d ≡ some n
    → lookup t (bump ts teams d) ≡ some (n + (if contains t teams then times t ts else 0))
unfolding bump
lookup-bump t [] teams d n e = ground arith
lookup-bump t (u ∷ ts) teams d n e = ground (
  arith,
  lookup-step t u teams d n e,
  lookup-bump t ts teams (if contains u teams then insert u (or_none (lookup u d) + 1) d else d)
      (n + (if contains t teams then one_if (str_eq u t) else 0)),
)

lookup-bump-other :
    (t : String) (ts teams : List String) (d : Dict ℕ)
    → contains t ts ≡ false
    → lookup t (bump ts teams d) ≡ lookup t d
unfolding bump
lookup-bump-other t [] teams d e = refl
lookup-bump-other t (u ∷ ts) teams d e = ground (
  arith,
  lookup-bump-other t ts teams
      (if contains u teams then insert u (or_none (lookup u d) + 1) d else d),
  lookup-insert u t (or_none (lookup u d) + 1) d,
  eq_iff t u,
  eq_iff u t,
)

module _ (std : Outside) where
  pub tally-IsDict : (ts rs : List String) (d : Dict ℕ) → IsDict d → IsDict (tally std ts rs d)
  unfolding tally
  tally-IsDict ts [] d i = i
  tally-IsDict ts (r ∷ rs) d i = tally-IsDict ts rs _ (bump-IsDict ts (get_user_teams std r) d i)

  -- How many reviewers a team has.
  abbrev pub members : String → List String → ℕ
  members t = count (λ r. contains t (get_user_teams std r))

  -- The count of a team that is not required is not touched.
  pub lookup-tally-other :
      (t : String) (ts rs : List String) (d : Dict ℕ)
      → contains t ts ≡ false
      → lookup t (tally std ts rs d) ≡ lookup t d
  unfolding tally
  lookup-tally-other t ts [] d e = refl
  lookup-tally-other t ts (r ∷ rs) d e =
      lookup-tally-other t ts rs (bump ts (get_user_teams std r) d) e
      ∙ lookup-bump-other t ts (get_user_teams std r) d e

  pub lookup-tally :
      (t : String) (ts rs : List String) (d : Dict ℕ) (n : ℕ)
      → lookup t d ≡ some n
      → lookup t (tally std ts rs d) ≡ some (n + members t rs * times t ts)
  unfolding tally
  lookup-tally t ts [] d n e = ground arith
  lookup-tally t ts (r ∷ rs) d n e =
      let n' = n + (if contains t (get_user_teams std r) then times t ts else 0) in
      let e' = lookup-bump t ts (get_user_teams std r) d n e in
      let e'' = lookup-tally t ts rs (bump ts (get_user_teams std r) d) n' e' in
      elim (Bool-cases (contains t (get_user_teams std r))) [
        | inl y ↦ ground (arith, suc-times (members t rs) (times t ts))
        | inr z ↦ ground arith
      ]

-- No team has too few approvals exactly where every count is high enough.
pub team_errors-nil :
    (name : String) (least : ℕ) (d : Dict ℕ)
    → IsDict d
    → (team_errors name least d ≡ [])
      ↔ ((t : String) (n : ℕ) → lookup t d ≡ some n → ltb n least ≡ false)
unfolding team_errors lookup
team_errors-nil name least [] i = (λ e t n h. absurd (ground arith), λ h. refl)
team_errors-nil name least ((k, v) ∷ d) (f, i) =
    let rest = team_errors-nil name least d i in
    (
      λ e t n h. elim (Bool-cases (str_eq k t)) [
        | inl y ↦ ground arith
        | inr z ↦ rest.0 (ground arith) t n (ground arith)
      ],
      λ h.
          let low = h k v (ground (arith, eq_refl k)) in
          let rest' = rest.1 (λ t n q. h t n (ground (arith, eq_iff k t))) in ground arith,
    )
