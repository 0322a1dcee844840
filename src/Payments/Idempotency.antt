-- ===== src/Payments/Idempotency.antt =====
-- apps/common/idempotency.py: the responses that are kept for an hour under a key. Times are
-- readings of the clock, in whole seconds.
use decisionos.Common.{
  ℕ, ◌-◌, ◌+◌, ◌≤◌, ◌≡◌, String, Option, none, some, arith, false, str_eq, ltb, if◌then◌else◌,
}
use text.Mathlib.TextEquality.{eq_iff}
use decisionos.Common.Dict.{
  Dict, lookup, insert, remove, lookup-insert, lookup-insert-same, lookup-remove,
}

pub record IdempotencyRecord : Type 0 where
  pub response : String
  pub created_at : ℕ

abbrev pub Store : Type 0
Store = Dict IdempotencyRecord

abbrev pub hour : ℕ
hour = 3600

unfoldable pub get : ℕ → String → Store → Option IdempotencyRecord × Store
get now key store = elim (lookup key store) [
  | none ↦ (none, store)
  | some r ↦ if ltb hour (now - r.created_at) then (none, remove key store) else (some r, store)
]

unfoldable pub set : ℕ → String → String → Store → Store
set now key response store = insert key (record { response = response; created_at = now }) store

pub lookup-set :
    (now : ℕ) (key response : String) (store : Store)
    → lookup key (set now key response store)
      ≡ some (record { response = response; created_at = now })
unfolding set
lookup-set now key response store =
    lookup-insert-same key (record { response = response; created_at = now }) store

-- A record that is no older than an hour is not taken out by a look for any key.
pub get_keeps :
    (now : ℕ) (k key : String) (r : IdempotencyRecord) (store : Store)
    → now ≤ r.created_at + hour
    → lookup key store ≡ some r
    → lookup key (get now k store).1 ≡ some r
unfolding get
get_keeps now k key r store h e = ground (arith, lookup-remove k key store, eq_iff k key)

-- A record is kept where the response of another key is set.
pub set_keeps :
    (now : ℕ) (k key response : String) (r : IdempotencyRecord) (store : Store)
    → str_eq k key ≡ false
    → lookup key store ≡ some r
    → lookup key (set now k response store) ≡ some r
unfolding set
set_keeps now k key response r store n e =
    ground (arith, lookup-insert k key (record { response = response; created_at = now }) store)

-- A record that is no older than an hour is found.
pub get_found :
    (now : ℕ) (key : String) (r : IdempotencyRecord) (store : Store)
    → now ≤ r.created_at + hour
    → lookup key store ≡ some r
    → get now key store ≡ (some r, store)
unfolding get
get_found now key r store h e = ground arith
