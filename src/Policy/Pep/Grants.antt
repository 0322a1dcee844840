-- ===== src/Policy/Pep/Grants.antt =====
-- What the grants of apps/policy/pep.py allow.
use Prim.Native.String.{◌++◌, count}
use text.Mathlib.TextBridge.{IsPrefix}
use text.Mathlib.TextEquality.{starts_with_iff}
use text.Mathlib.TextLemmas.{cons-append, length-append, append_assoc}
use mathlib.Core.Path.{subst}
use decisionos.Common.{
  String, ◌≡◌, ◌≢◌, ◌↔◌, ◌⊎◌, inl, inr, refl, sym, ap, ◌∙◌, true, false, none, some, List, [], ◌∷◌,
  arith, str_eq, eq_iff, Bool-cases,
}
use decisionos.Common.Text.{strip, split, ends_with, drop_last}
use decisionos.Policy.Pep.{
  allowed, stripped, matches_wildcard, first_match, enforce, require, denial, no_grants_configured,
}

-- Some grant of the list matches.
abbrev pub Grants : String → List String → Type 0
Grants scope [] = ⊥
Grants scope (g ∷ l) = (matches_wildcard g scope ≡ true) ⊎ Grants scope l

ends_with-append : (p : String) → ends_with (p ++ ":*") ":*" ≡ true
unfolding ends_with
ends_with-append String.[] = refl
ends_with-append (String.◌∷◌ c p) = rw (cons-append c p ":*", ends_with-append p) refl

append-ne-nil : (p : String) → str_eq (p ++ ":*") "" ≡ false
append-ne-nil p = elim (Bool-cases (str_eq (p ++ ":*") "")) [
  | inl e ↦ absurd (omega (arith, ap count ((eq_iff (p ++ ":*") "").0 e), length-append p ":*"))
  | inr e ↦ e
]

append-ne-star : (p : String) → str_eq (p ++ ":*") "*" ≡ false
append-ne-star p = elim (Bool-cases (str_eq (p ++ ":*") "*")) [
  | inl e ↦ absurd (omega (arith, ap count ((eq_iff (p ++ ":*") "*").0 e), length-append p ":*"))
  | inr e ↦ e
]

drop_last-append : (p : String) → drop_last (p ++ ":*") ≡ p ++ ":"
unfolding drop_last
drop_last-append String.[] = refl
drop_last-append (String.◌∷◌ c p) =
    rw (cons-append c p ":*", cons-append c p ":", append-ne-nil p, drop_last-append p) refl

-- A grant `p:*` matches exactly the scopes that begin with `p:`, for every text p.
pub matches_wildcard-prefix :
    (p requested : String)
    → (matches_wildcard (p ++ ":*") requested ≡ true) ↔ IsPrefix (p ++ ":") requested
unfolding matches_wildcard
matches_wildcard-prefix p requested =
    rw (append-ne-star p, ends_with-append p, drop_last-append p)
      (starts_with_iff requested (p ++ ":"))

first_match-Grants :
    (scope : String) (l : List String) (g : String) → first_match scope l ≡ some g → Grants scope l
unfolding first_match
first_match-Grants scope [] g h = cc
first_match-Grants scope (x ∷ l) g h = elim (Bool-cases (matches_wildcard x scope)) [
  | inl e ↦ inl e
  | inr e ↦ inr (first_match-Grants scope l g (rw e at h))
]

Grants-first_match :
    (scope : String) (l : List String) → Grants scope l → first_match scope l ≢ none
unfolding first_match
Grants-first_match scope [] h = absurd h
Grants-first_match scope (x ∷ l) (inl e) = ground arith
Grants-first_match scope (x ∷ l) (inr h) = ground (arith, Grants-first_match scope l h)

no_denial : (l : List String) → denial l ≢ none
unfolding denial
no_denial [] h = cc
no_denial (g ∷ l) h = cc

enforce-match :
    (scopes scope : String)
    → enforce scopes scope ≡ true
    → (g : String) × (first_match scope (allowed scopes) ≡ some g)
unfolding enforce
enforce-match scopes scope h = ground arith

enforce-of_match :
    (scopes scope : String)
    → first_match scope (allowed scopes) ≢ none
    → enforce scopes scope ≡ true
unfolding enforce
enforce-of_match scopes scope h = ground arith

-- `require` returns exactly when the scope is allowed.
pub require-enforce :
    (scopes scope : String) → (require scopes scope ≡ none) ↔ (enforce scopes scope ≡ true)
unfolding require
require-enforce scopes scope = (λ h. ground (arith, no_denial (allowed scopes)), λ h. ground arith)

-- A scope is allowed exactly if some grant matches it.
pub enforce-Grants :
    (scopes scope : String) → (enforce scopes scope ≡ true) ↔ Grants scope (allowed scopes)
enforce-Grants scopes scope = (
  λ h. let (g, e) = enforce-match scopes scope h in first_match-Grants scope (allowed scopes) g e,
  λ g. enforce-of_match scopes scope (Grants-first_match scope (allowed scopes) g),
)

ends_with-suffix : (g : String) → ends_with g ":*" ≡ true → (p : String) × (g ≡ p ++ ":*")
unfolding ends_with
ends_with-suffix String.[] h = absurd (ground arith)
ends_with-suffix (String.◌∷◌ c g) h = elim (Bool-cases (ends_with g ":*")) [
  | inl y ↦
      let (p, e) = ends_with-suffix g y in
      (String.◌∷◌ c p, ap (String.◌∷◌ c) e ∙ sym (cons-append c p ":*"))
  | inr n ↦ ("", (eq_iff (String.◌∷◌ c g) ":*").0 (ground arith))
]

-- What a grant covers: everything, the scopes that begin with what stands before its star, or itself.
abbrev pub Covers : String → String → Type 0
Covers g scope =
    (g ≡ "*") ⊎ ((p : String) × (g ≡ p ++ ":*") × IsPrefix (p ++ ":") scope) ⊎ (g ≡ scope)

matches_self : (g : String) → matches_wildcard g g ≡ true
unfolding matches_wildcard
matches_self g = elim (Bool-cases (ends_with g ":*")) [
  | inl y ↦
      let (p, e) = ends_with-suffix g y in
      subst (λ x. matches_wildcard x x ≡ true) (sym e)
        ((matches_wildcard-prefix p (p ++ ":*")).1 ("*", append_assoc p ":" "*"))
  | inr n ↦ ground (arith, eq_iff g g)
]

matches-split :
    (g scope : String)
    → matches_wildcard g scope ≡ true
    → (g ≡ "*") ⊎ (ends_with g ":*" ≡ true) ⊎ (g ≡ scope)
unfolding matches_wildcard
matches-split g scope h = ground (arith, eq_iff g "*", eq_iff g scope)

matches-star : (g scope : String) → g ≡ "*" → matches_wildcard g scope ≡ true
unfolding matches_wildcard
matches-star g scope e = ground (arith, eq_iff g "*")

matches-Covers : (g scope : String) → (matches_wildcard g scope ≡ true) ↔ Covers g scope
matches-Covers g scope = (
  λ h. elim (matches-split g scope h) [
    | inl star ↦ inl star
    | inr (inl y) ↦
        let (p, e) = ends_with-suffix g y in
        inr (
          inl (
            p,
            e,
            (matches_wildcard-prefix p scope).0 (subst (λ x. matches_wildcard x scope ≡ true) e h),
          ))
    | inr (inr e) ↦ inr (inr e)
  ],
  λ c. elim c [
    | inl star ↦ matches-star g scope star
    | inr (inl (p, e, i)) ↦
        subst (λ x. matches_wildcard x scope ≡ true) (sym e) ((matches_wildcard-prefix p scope).1 i)
    | inr (inr e) ↦ subst (λ x. matches_wildcard g x ≡ true) e (matches_self g)
  ],
)

-- Some entry of the list, without the blanks around it, is not empty and covers the scope.
abbrev pub AnyCovers : String → List String → Type 0
AnyCovers scope [] = ⊥
AnyCovers scope (s ∷ l) = ((strip s ≢ "") × Covers (strip s) scope) ⊎ AnyCovers scope l

-- The variable is not blank, and is a star or has an entry between its commas that covers the scope.
abbrev pub Granted : String → String → Type 0
Granted scopes scope =
    (strip scopes ≢ "") × ((strip scopes ≡ "*") ⊎ AnyCovers scope (split b',' scopes))

stripped-AnyCovers :
    (scope : String) (l : List String) → Grants scope (stripped l) ↔ AnyCovers scope l
unfolding stripped
stripped-AnyCovers scope [] = (λ h. h, λ h. h)
stripped-AnyCovers scope (s ∷ l) =
    let rest = stripped-AnyCovers scope l in
    let one = matches-Covers (strip s) scope in
    elim (Bool-cases (str_eq (strip s) "")) [
      | inl y ↦ rw y (
        λ h. inr (rest.0 h),
        λ h. elim h [ inl (n, c) ↦ absurd (n ((eq_iff (strip s) "").0 y)) | inr r ↦ rest.1 r ],
      )
      | inr z ↦ rw z (
        λ h. elim h [
          | inl c ↦ inl (λ e. absurd (ground (arith, eq_iff (strip s) "")), one.0 c)
          | inr r ↦ inr (rest.0 r)
        ],
        λ h. elim h [ inl (n, c) ↦ inl (one.1 c) | inr r ↦ inr (rest.1 r) ],
      )
    ]

allowed-Granted : (scopes scope : String) → Grants scope (allowed scopes) ↔ Granted scopes scope
unfolding allowed
allowed-Granted scopes scope =
    let entries = stripped-AnyCovers scope (split b',' scopes) in
    elim (Bool-cases (str_eq (strip scopes) "")) [
      | inl y ↦ rw y (λ h. absurd h, λ h. absurd (h.0 ((eq_iff (strip scopes) "").0 y)))
      | inr z ↦
          let full : strip scopes ≢ "" = λ e. absurd (ground (arith, eq_iff (strip scopes) "")) in
          elim (Bool-cases (str_eq (strip scopes) "*")) [
            | inl star ↦
                rw (z, star)
                  (
                    λ h. (full, inl ((eq_iff (strip scopes) "*").0 star)),
                    λ h. inl (matches-star "*" scope refl),
                  )
            | inr some_entry ↦
                rw (z, some_entry)
                  (
                    λ h. (full, inr (entries.0 h)),
                    λ h. elim h.1 [
                      | inl e ↦ absurd (ground (arith, eq_iff (strip scopes) "*"))
                      | inr c ↦ entries.1 c
                    ],
                  )
          ]
    ]

-- A scope is allowed exactly if the value of the environment is not blank, and is a star or has between
-- its commas an entry that is a star, is `p:*` for a p with which and a colon the scope begins, or is the
-- scope, blanks around it left out; and `require` returns exactly when the scope is allowed.
pub enforce_iff :
    (scopes scope : String)
    → ((enforce scopes scope ≡ true) ↔ Granted scopes scope)
      × ((require scopes scope ≡ none) ↔ Granted scopes scope)
enforce_iff scopes scope =
    let (f, g) = enforce-Grants scopes scope in
    let (p, q) = require-enforce scopes scope in
    let (a, b) = allowed-Granted scopes scope in
    ((λ h. a (f h), λ h. g (b h)), (λ h. a (f (p h)), λ h. q (g (b h))))

-- With the variable unset or blank every scope is denied, for want of grants.
pub enforce_default_deny :
    (scopes scope : String)
    → strip scopes ≡ ""
    → (enforce scopes scope ≡ false) × (require scopes scope ≡ some no_grants_configured)
unfolding require allowed
enforce_default_deny scopes scope h =
    (ground (arith, eq_iff (strip scopes) ""), ground (arith, eq_iff (strip scopes) ""))
