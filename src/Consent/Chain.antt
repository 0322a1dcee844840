-- ===== src/Consent/Chain.antt =====
-- The hash chain of apps/consent/store.py.
use mathlib.Core.Path.{subst}
use decisionos.Common.{
  ◌≡◌, refl, inl, inr, String, true, none, some, List, [], ◌∷◌, ◌++◌, arith, str_eq, not, ◌&&◌,
  Bool-cases, Option-cases,
}
use decisionos.Common.Dict.{lookup, insert, lookup-insert}
use decisionos.Consent.{
  ConsentRecord, Outside, Store, records, last_hash, compute_hashes, grant, revoke_first, revoke,
}

-- Each record names the hash of the one before it, and the first one a given hash.
abbrev pub IsChained : String → List ConsentRecord → Type 0
IsChained h [] = Unit {0}
IsChained h (r ∷ l) = (r.prev_hash ≡ h) × IsChained r.curr_hash l

-- The records of every subject form a chain.
abbrev pub IsLedger : Store → Type 0
IsLedger s = (subject : String) → IsChained "" (records subject s)

-- The hash that the next record names, after a given one.
abbrev end_of : String → List ConsentRecord → String
end_of h [] = h
end_of h (r ∷ l) = end_of r.curr_hash l

last_hash-end :
    (h : String) (r : ConsentRecord) (l : List ConsentRecord) → last_hash (r ∷ l) ≡ end_of h (r ∷ l)
unfolding last_hash
last_hash-end h r [] = refl
last_hash-end h r (q ∷ l) = last_hash-end r.curr_hash q l

IsChained-append :
    (h : String) (l : List ConsentRecord) (r : ConsentRecord)
    → IsChained h l
    → r.prev_hash ≡ end_of h l
    → IsChained h (l ++ r ∷ [])
IsChained-append h [] r c e = (e, tt)
IsChained-append h (q ∷ l) r c e = (c.0, IsChained-append q.curr_hash l r c.1 e)

revoke_first-IsChained :
    (doc h : String) (l l' : List ConsentRecord)
    → revoke_first doc l ≡ some l'
    → IsChained h l
    → IsChained h l'
unfolding revoke_first
revoke_first-IsChained doc h [] l' e c = absurd (ground arith)
revoke_first-IsChained doc h (r ∷ l) l' e c =
    elim (Bool-cases (str_eq r.doc_hash doc && not r.revoked)) [
      | inl y ↦
          let same : record r { revoked = true } ∷ l ≡ l' = ground arith in
          subst (λ x. IsChained h x) same (c.0, c.1)
      | inr n ↦ elim (Option-cases (revoke_first doc l)) [
        | inl gone ↦ absurd (ground arith)
        | inr (m, found) ↦
            let same : r ∷ m ≡ l' = ground arith in
            subst (λ x. IsChained h x) same
              (c.0, revoke_first-IsChained doc r.curr_hash l m found c.1)
      ]
    ]

insert-IsLedger :
    (subject : String) (l : List ConsentRecord) (s : Store)
    → IsChained "" l
    → IsLedger s
    → IsLedger (insert subject l s)
unfolding records
insert-IsLedger subject l s c i other = elim (Bool-cases (str_eq subject other)) [
  | inl y ↦
      let eq : lookup other (insert subject l s) ≡ some l =
        ground (arith, lookup-insert subject other l s) in
      rw eq c
  | inr n ↦
      let eq : lookup other (insert subject l s) ≡ lookup other s =
        ground (arith, lookup-insert subject other l s) in
      rw eq (i other)
]

revoke-IsLedger :
    (subject doc : String) (s s' : Store)
    → revoke subject doc s ≡ some s'
    → IsLedger s
    → IsLedger s'
unfolding revoke
revoke-IsLedger subject doc s s' e i = elim (Option-cases (revoke_first doc (records subject s))) [
  | inl gone ↦ absurd (ground arith)
  | inr (l, found) ↦
      let same : insert subject l s ≡ s' = ground arith in
      subst IsLedger same (
        insert-IsLedger subject l s
          (revoke_first-IsChained doc "" (records subject s) l found (i subject)) i)
]

compute_hashes-linked :
    (std : Outside) (r : ConsentRecord) (l : List ConsentRecord)
    → (compute_hashes std r l).prev_hash ≡ end_of "" l
unfolding last_hash
compute_hashes-linked std r [] = refl
compute_hashes-linked std r (q ∷ l) = last_hash-end "" q l

grant-IsLedger :
    (std : Outside) (r : ConsentRecord) (s : Store) → IsLedger s → IsLedger (grant std r s)
unfolding grant
grant-IsLedger std r s i =
    let l = records r.subject_id s in
    insert-IsLedger r.subject_id (l ++ compute_hashes std r l ∷ []) s
      (IsChained-append "" l (compute_hashes std r l) (i r.subject_id)
        (compute_hashes-linked std r l))
      i

pub data Op : Type 0 where
  granting : ConsentRecord → Op
  revoking : String → String → Op

-- A call, whose store is what it was where a revocation finds nothing.
unfoldable pub step : Outside → Op → Store → Store
unfolding grant revoke
step std (granting r) s = grant std r s
step std (revoking subject doc) s = elim (revoke subject doc s) [ none ↦ s | some s' ↦ s' ]

unfoldable pub run : Outside → List Op → Store → Store
run std [] s = s
run std (op ∷ l) s = run std l (step std op s)

step-IsLedger : (std : Outside) (op : Op) (s : Store) → IsLedger s → IsLedger (step std op s)
unfolding step
step-IsLedger std (granting r) s i = grant-IsLedger std r s i
step-IsLedger std (revoking subject doc) s i = elim (Option-cases (revoke subject doc s)) [
  | inl gone ↦
      let same : s ≡ step std (revoking subject doc) s = ground arith in subst IsLedger same i
  | inr (s', found) ↦
      let same : s' ≡ step std (revoking subject doc) s = ground arith in
      subst IsLedger same (revoke-IsLedger subject doc s s' found i)
]

-- From a store whose records form chains, any grants and revocations lead to one whose records form
-- chains: in the list of every subject each record names the hash of the one before it.
pub run-IsLedger : (std : Outside) (l : List Op) (s : Store) → IsLedger s → IsLedger (run std l s)
unfolding run
run-IsLedger std [] s i = i
run-IsLedger std (op ∷ l) s i = run-IsLedger std l (step std op s) (step-IsLedger std op s i)
