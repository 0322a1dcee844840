-- ===== src/Consent/Tests.antt =====
-- Examples of apps/consent/store.py.
use Prim.Native.String.{◌++◌ as ◌<>◌}
use decisionos.Common.{
  ◌≡◌, ◌↔◌, refl, suc, String, Bool, true, false, ◌&&◌, Option, none, some, List, [], ◌∷◌, count,
  str_eq, if◌then◌else◌, Among,
}
use decisionos.Common.Dict.{lookup, insert}
use decisionos.Consent.{
  ConsentRecord, Outside, Store, records, last_hash, revoke_first, revoke, grant, filtered, list,
}
use decisionos.Consent.Chain.{IsLedger, granting, revoking, Op, run, run-IsLedger}
use decisionos.Consent.Granted.{standing, revoke_lem}

-- A digest that names what it is made of, and a calendar that knows one date.
abbrev std : Outside
std = record {
  digest = λ r. r.doc_hash <> r.prev_hash;
  timestamp = λ s. if str_eq s "2026-01-01T00:00:00Z" then 1767225600 else 0;
}

abbrev consent : String → ConsentRecord
consent doc = record {
  subject_id = "ana";
  doc_hash = doc;
  scope = "read";
  granted_at = "2026-01-01T00:00:00Z";
  ttl_sec = 60;
  revoked = false;
  version = "v1";
  prev_hash = "";
  curr_hash = "";
}

-- The same document is granted twice.
abbrev twice : Store
twice = grant std (consent "d") (grant std (consent "d") [])

abbrev history : List Op
history =
    granting (consent "d") ∷ granting (consent "e") ∷ revoking "ana" "d" ∷ revoking "bob" "d" ∷ []

run-IsLedger_example : IsLedger (run std history [])
unfolding records lookup
run-IsLedger_example = run-IsLedger std history [] (λ subject. tt)

revoke_lem_example :
    ((revoke "ana" "d" twice ≡ none) ↔ (count (standing "d") (records "ana" twice) ≡ 0))
    × ((s' : Store)
        → revoke "ana" "d" twice ≡ some s'
        → count (standing "d") (records "ana" twice) ≡ (
            if str_eq "ana" "ana" && str_eq "d" "d"
            then suc (count (standing "d") (records "ana" s'))
            else count (standing "d") (records "ana" s')))
revoke_lem_example = revoke_lem "ana" "d" "ana" "d" twice

-- After one revocation of a document that was granted twice it is still listed.
abbrev listed_docs : Option Store → List String
listed_docs none = []
listed_docs (some s) = decisionos.Common.map (λ r. r.doc_hash) (list std 1767225630 "ana" s)

still_granted : listed_docs (revoke "ana" "d" twice) ≡ "d" ∷ []
unfolding revoke revoke_first records grant list filtered lookup insert last_hash
still_granted = refl
