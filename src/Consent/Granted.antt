-- ===== src/Consent/Granted.antt =====
-- What a revocation takes back, and what is listed, in apps/consent/store.py.
use mathlib.Core.Path.{subst}
use decisionos.Common.{
  ℕ, suc, ◌≡◌, ◌↔◌, refl, sym, ap, inl, inr, String, Bool, true, false, none, some, List, [], ◌∷◌,
  arith, eq_iff, str_eq, not, ◌&&◌, count, if◌then◌else◌, Among, Bool-cases, Option-cases,
}
use decisionos.Common.Dict.{lookup, insert, lookup-insert}
use decisionos.Consent.{
  ConsentRecord, Outside, Store, records_of, records, revoke_first, revoke, shown, filtered, list,
}

-- A record of the document that is not revoked.
abbrev pub standing : String → ConsentRecord → Bool
standing doc r = str_eq r.doc_hash doc && not r.revoked

standing-revoked :
    (doc : String) (r : ConsentRecord) → standing doc (record r { revoked = true }) ≡ false
standing-revoked doc r = ground arith

revoke_first-none :
    (doc : String) (l : List ConsentRecord)
    → (revoke_first doc l ≡ none) ↔ (count (standing doc) l ≡ 0)
unfolding revoke_first
revoke_first-none doc [] = (λ e. refl, λ e. refl)
revoke_first-none doc (r ∷ l) = elim (Bool-cases (standing doc r)) [
  | inl y ↦ ground arith
  | inr n ↦ ground (arith, revoke_first-none doc l)
]

revoke_first-count :
    (doc other : String) (l l' : List ConsentRecord)
    → revoke_first doc l ≡ some l'
    → count (standing other) l
      ≡ (if str_eq doc other then suc (count (standing other) l') else count (standing other) l')
unfolding revoke_first
revoke_first-count doc other [] l' e = absurd (ground arith)
revoke_first-count doc other (r ∷ l) l' e = elim (Bool-cases (standing doc r)) [
  | inl y ↦
      let same : record r { revoked = true } ∷ l ≡ l' = ground arith in
      subst
        (λ x.
          count (standing other) (r ∷ l)
          ≡ (if str_eq doc other then suc (count (standing other) x) else count (standing other) x))
        same (ground (arith, eq_iff doc other, eq_iff r.doc_hash doc, eq_iff r.doc_hash other))
  | inr n ↦ elim (Option-cases (revoke_first doc l)) [
    | inl gone ↦ absurd (ground arith)
    | inr (m, found) ↦
        let same : r ∷ m ≡ l' = ground arith in
        subst
          (λ x. count (standing other) (r ∷ l) ≡ (
            if str_eq doc other then suc (count (standing other) x) else count (standing other) x))
          same (ground (arith, revoke_first-count doc other l m found))
  ]
]

filtered-Among :
    (std : Outside) (now : ℕ) (c : ConsentRecord) (l : List ConsentRecord)
    → Among c (filtered std now l) ↔ ((shown std now c ≡ true) × Among c l)
unfolding filtered
filtered-Among std now c [] = (λ m. absurd m, λ m. m.1)
filtered-Among std now c (r ∷ l) =
    let rest = filtered-Among std now c l in
    elim (Bool-cases (shown std now r)) [
      | inl y ↦ rw y (
        λ m. elim m [ inl e ↦ (rw e y, inl e) | inr x ↦ ((rest.0 x).0, inr (rest.0 x).1) ],
        λ (s, m). elim m [ inl e ↦ inl e | inr x ↦ inr (rest.1 (s, x)) ],
      )
      | inr n ↦ rw n (
        λ m. ((rest.0 m).0, inr (rest.0 m).1),
        λ (s, m). elim m [
          | inl e ↦ absurd (ground (arith, ap (shown std now) e))
          | inr x ↦ rest.1 (s, x)
        ],
      )
    ]

-- `list` shows the records of the subject that are not revoked and whose time is not over.
pub list_iff :
    (std : Outside) (now : ℕ) (subject : String) (s : Store) (c : ConsentRecord)
    → Among c (list std now subject s) ↔ ((shown std now c ≡ true) × Among c (records subject s))
unfolding list
list_iff std now subject s c = filtered-Among std now c (records subject s)

-- A revocation takes back exactly one record of the subject and the document, and none of another; it
-- raises LookupError exactly where there is none to take back.
pub revoke_lem :
    (subject doc who other : String) (s : Store)
    → ((revoke subject doc s ≡ none) ↔ (count (standing doc) (records subject s) ≡ 0))
      × ((s' : Store)
          → revoke subject doc s ≡ some s'
          → count (standing other) (records who s) ≡ (
              if str_eq subject who && str_eq doc other
              then suc (count (standing other) (records who s'))
              else count (standing other) (records who s')))
unfolding revoke records
revoke_lem subject doc who other s = elim (Option-cases (revoke_first doc (records subject s))) [
  | inl gone ↦
      (ground (arith, revoke_first-none doc (records subject s)), λ s' e. absurd (ground arith))
  | inr (l, found) ↦ (
    ground (arith, revoke_first-none doc (records subject s)),
    λ s' e.
        let same : insert subject l s ≡ s' = ground arith in
        subst
          (λ x. count (standing other) (records who s) ≡ (
            if str_eq subject who && str_eq doc other
            then suc (count (standing other) (records who x))
            else count (standing other) (records who x)))
          same
          (elim (Bool-cases (str_eq subject who)) [
            | inl y ↦
                let looked : lookup who (insert subject l s) ≡ some l =
                  ground (arith, lookup-insert subject who l s) in
                let now_there : records who (insert subject l s) ≡ l = ap records_of looked in
                let before : records who s ≡ records subject s =
                  ap (λ x. records x s) (sym ((eq_iff subject who).0 y)) in
                let one = revoke_first-count doc other (records subject s) l found in
                rw (y, now_there, before) one
            | inr n ↦
                let looked : lookup who (insert subject l s) ≡ lookup who s =
                  ground (arith, lookup-insert subject who l s) in
                let same_there : records who (insert subject l s) ≡ records who s =
                  ap records_of looked in
                rw (n, same_there) refl
          ]),
  )
]
