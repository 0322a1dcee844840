-- ===== src/Consent.antt =====
-- apps/consent/store.py, InMemoryConsentStore. The hash of a record and the reading of a date are
-- parameters; a call is a step under the store's lock.
pub mod Chain
pub mod Granted
mod Tests
use decisionos.Common.{
  ℕ, ◌+◌, String, Bool, true, false, not, ◌&&◌, Option, none, some, List, [], ◌∷◌, ◌++◌, str_eq,
  ltb, if◌then◌else◌,
}
use decisionos.Common.Dict.{Dict, lookup, insert}

pub record ConsentRecord : Type 0 where
  pub subject_id : String
  pub doc_hash : String
  pub scope : String
  pub granted_at : String
  pub ttl_sec : ℕ
  pub revoked : Bool
  pub version : String
  pub prev_hash : String
  pub curr_hash : String

-- The digest of the canonical text of a record, and the seconds of a date, which are 0 where it cannot be
-- read.
pub record Outside : Type 0 where
  pub digest : ConsentRecord → String
  pub timestamp : String → ℕ

abbrev pub Store : Type 0
Store = Dict (List ConsentRecord)

-- `self._data.get(subject_id, [])`
abbrev pub records_of : Option (List ConsentRecord) → List ConsentRecord
records_of none = []
records_of (some l) = l

unfoldable pub records : String → Store → List ConsentRecord
records subject s = records_of (lookup subject s)

-- The hash of the last record, or the empty text.
unfoldable pub last_hash : List ConsentRecord → String
last_hash [] = ""
last_hash (r ∷ []) = r.curr_hash
last_hash (r ∷ (q ∷ l)) = last_hash (q ∷ l)

-- The records with the first one revoked that is of the document and not revoked.
unfoldable pub revoke_first : String → List ConsentRecord → Option (List ConsentRecord)
revoke_first doc [] = none
revoke_first doc (r ∷ l) =
    let rest = revoke_first doc l in
    if str_eq r.doc_hash doc && not r.revoked
    then some (record r { revoked = true } ∷ l)
    else elim rest [ none ↦ none | some l' ↦ some (r ∷ l') ]

-- `revoke`, where `none` is the LookupError
unfoldable pub revoke : String → String → Store → Option Store
unfolding records revoke_first
revoke subject doc s = elim (revoke_first doc (records subject s)) [
  | none ↦ none
  | some l ↦ some (insert subject l s)
]

module _ (std : Outside) where
  -- `_compute_hashes`
  abbrev pub compute_hashes : ConsentRecord → List ConsentRecord → ConsentRecord
  compute_hashes r l =
      let linked = record r { prev_hash = last_hash l } in
      record linked { curr_hash = std.digest linked }

  -- `grant`
  unfoldable pub grant : ConsentRecord → Store → Store
  unfolding records last_hash
  grant r s = let l = records r.subject_id s in insert r.subject_id (l ++ compute_hashes r l ∷ []) s

  -- A record that `list` shows.
  abbrev pub shown : ℕ → ConsentRecord → Bool
  shown now r = not r.revoked && not (ltb (std.timestamp r.granted_at + r.ttl_sec) now)

  unfoldable pub filtered : ℕ → List ConsentRecord → List ConsentRecord
  filtered now [] = []
  filtered now (r ∷ l) = let rest = filtered now l in if shown now r then r ∷ rest else rest

  -- `list`
  unfoldable pub list : ℕ → String → Store → List ConsentRecord
  unfolding records filtered
  list now subject s = filtered now (records subject s)
