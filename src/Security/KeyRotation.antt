-- ===== src/Security/KeyRotation.antt =====
-- scripts/ops/key_rotation.py: the expiry, rotation and retirement of signing keys. Times are
-- microseconds; the texts of dates are a parameter, and what is printed is left out.
pub mod Lifetime
mod Tests
use decisionos.Common.{
  ℕ, ◌+◌, ◌*◌, String, Bool, true, false, ◌&&◌, ◌||◌, Option, none, some, List, [], ◌∷◌, ◌++◌,
  str_eq, ltb, if◌then◌else◌, is_some, truthy,
}

-- What `datetime.fromisoformat` gives: an exception, or a time without a zone or with one.
pub data Parsed : Type 0 where
  invalid naive : Parsed
  aware : ℕ → Parsed

-- `datetime.fromisoformat(s.replace("Z", "+00:00"))`, and the text of a time.
pub record Calendar : Type 0 where
  pub parse : String → Parsed
  pub iso : ℕ → String

pub record Key : Type 0 where
  pub key_id : Option String
  pub state : Option String
  pub secret : Option String
  pub expires_at : Option String
  pub grace_until : Option String

-- A file or a variable of the environment: not there, not to be read, an item, or a list.
pub data Source : Type 0 where
  absent broken : Source
  item : Key → Source
  listed : List Key → Source

abbrev pub items : Source → List Key
items (item k) = k ∷ []
items (listed ks) = ks
items _ = []

-- `load_keys`
abbrev pub load_keys : Source → Source → List Key
load_keys file env = items file ++ items env

abbrev pub days : ℕ → ℕ
days n = n * 86400000000

abbrev pub is_text : Option String → String → Bool
is_text none t = false
is_text (some s) t = str_eq s t

-- The lists of expired keys and of those that expire soon.
pub record Expiry : Type 0 where
  pub expired : List Key
  pub expiring_soon : List Key

-- The exit code of what was found.
abbrev pub expiry_code : Expiry → ℕ
expiry_code e = elim e.expired [ [] ↦ elim e.expiring_soon [ [] ↦ 0 | _ ↦ 1 ] | _ ↦ 2 ]

-- `check_clock_skew`, of the amount of the simulated skew
abbrev pub check_clock_skew : ℕ → ℕ → ℕ
check_clock_skew skew max_skew = if ltb max_skew skew then 1 else 0

module _ (cal : Calendar) where
  -- The date of a key, where it has one.
  abbrev pub expiry_date : Key → Parsed
  expiry_date k = elim k.expires_at [
    | none ↦ invalid
    | some s ↦ if str_eq s "" then invalid else cal.parse s
  ]

  -- The loop of `check_key_expiry`, from the key after a key; `none` is a TypeError.
  unfoldable pub sort_key : Parsed → ℕ → ℕ → Key → Option Expiry → Option Expiry
  sort_key invalid now threshold k rest = rest
  sort_key naive now threshold k rest = none
  sort_key (aware t) now threshold k none = none
  sort_key (aware t) now threshold k (some e) =
      if ltb t now
      then some (record e { expired = k ∷ e.expired })
      else if ltb t threshold
      then some (record e { expiring_soon = k ∷ e.expiring_soon })
      else some e

  unfoldable pub sort_keys : ℕ → ℕ → List Key → Option Expiry
  unfolding sort_key
  sort_keys now threshold [] = some (record { expired = []; expiring_soon = [] })
  sort_keys now threshold (k ∷ ks) =
      sort_key (expiry_date k) now threshold k (sort_keys now threshold ks)

  -- `check_key_expiry`
  unfoldable pub check_key_expiry : ℕ → ℕ → List Key → Option ℕ
  unfolding sort_keys
  check_key_expiry now warn_days keys = elim (sort_keys now (now + days warn_days) keys) [
    | none ↦ none
    | some e ↦ some (expiry_code e)
  ]

  -- What the loop of `rotate_key` does with a key.
  abbrev pub rotate_one : ℕ → String → String → Key → Key
  rotate_one grace_end old new k =
      if is_text k.key_id old
      then if is_text k.state "active"
        then record k { state = some "grace"; grace_until = some (cal.iso grace_end) }
        else k
      else if is_text k.key_id new
      then if is_text k.state "grace" || is_text k.state "pending"
        then record k { state = some "active"; grace_until = none }
        else k
      else k

  -- `rotate_key`
  unfoldable pub rotate_key : ℕ → ℕ → String → String → List Key → List Key
  rotate_key now grace_days old new [] = []
  rotate_key now grace_days old new (k ∷ ks) =
      rotate_one (now + days grace_days) old new k ∷ rotate_key now grace_days old new ks

  -- Whether the grace of a key is over.
  abbrev pub grace_over : ℕ → Option String → Bool
  grace_over now none = false
  grace_over now (some s) =
      if str_eq s "" then false else elim (cal.parse s) [ aware t ↦ ltb t now | _ ↦ false ]

  abbrev pub retire_one : ℕ → Key → Key
  retire_one now k =
      if is_text k.state "grace" && grace_over now k.grace_until
      then record k { state = some "retired"; grace_until = none }
      else k

  -- `retire_grace_keys`
  unfoldable pub retire_grace_keys : ℕ → List Key → List Key
  retire_grace_keys now [] = []
  retire_grace_keys now (k ∷ ks) = retire_one now k ∷ retire_grace_keys now ks

pub record Args : Type 0 where
  pub check_expiry : Bool
  pub warn_days : ℕ
  pub check_skew : Bool
  pub max_skew : ℕ
  pub rotate : Bool
  pub old_key_id : Option String
  pub new_key_id : Option String
  pub grace_days : ℕ
  pub retire_grace : Bool

-- The exit code, or an exception, and the keys that are written to the file or printed.
pub record Result : Type 0 where
  pub code : Option ℕ
  pub written : Option (List Key)

abbrev pub ends : Option ℕ → Result
ends c = record { code = c; written = none }

module _ (cal : Calendar) where
  -- `main`, with the clock and the amount of the simulated skew
  unfoldable pub main : ℕ → ℕ → Args → Source → Source → Result
  unfolding check_key_expiry rotate_key retire_grace_keys
  main now skew args file env = elim (load_keys file env) [
    | [] ↦ ends (some 1)
    | k ∷ ks ↦
        if args.check_expiry
        then ends (check_key_expiry cal now args.warn_days (k ∷ ks))
        else if args.check_skew
        then ends (some (check_clock_skew skew args.max_skew))
        else if args.rotate
        then elim args.old_key_id [
          | none ↦ ends (some 1)
          | some old ↦ elim args.new_key_id [
            | none ↦ ends (some 1)
            | some new ↦ if str_eq old "" || str_eq new "" then ends (some 1) else record {
              code = some 0;
              written = some (rotate_key cal now args.grace_days old new (k ∷ ks));
            }
          ]
        ]
        else if args.retire_grace
        then record { code = some 0; written = some (retire_grace_keys cal now (k ∷ ks)) }
        else ends (some 0)
  ]
