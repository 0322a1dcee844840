-- ===== src/Change/PolicyLoader.antt =====
-- apps/common/policy_loader.py: policy files that are read only with a signature. `Payload` is parsed
-- JSON or YAML; the keys are those of the loader in apps/judge/crypto.py.
pub mod Trusted
use decisionos.Common.{
  String, Bool, true, false, not, ◌||◌, Option, none, some, List, map, str_eq, truthy, contains,
  if◌then◌else◌,
}
use decisionos.Common.Text.{strip, split}
use decisionos.Judge.Keys.{Stdlib, KeyMaterial}
use decisionos.Judge.Keys.Loader.{Loader, World, init, force_reload, get}
use decisionos.Judge.Keys.Verify.{hmac_sign}

-- What the settings DECISIONOS_POLICY_ALLOWLIST, DECISIONOS_ALLOW_SCOPES and
-- DECISIONOS_POLICY_FAIL_OPEN say.
pub record Config : Type 0 where
  pub allowlist : String
  pub allow_scopes : String
  pub fail_open : Bool

-- The file beside the policy: its fields `key_id` and `hmac_sha256`.
pub data SigFile : Type 0 where
  missing unreadable : SigFile
  found : Option String → Option String → SigFile

-- The policy file: not there, not to be parsed, or its data.
pub data PolicyFile (Payload : Type 0) : Type 0 where
  absent broken : PolicyFile Payload
  parsed : Payload → PolicyFile Payload

-- `PolicySignatureError`, `FileNotFoundError`, and what else is raised.
pub data Failure : Type 0 where
  signature_error file_not_found uncaught : Failure

pub data Loaded (A : Type 0) : Type 0 where
  ok : A → Loaded A
  err : Failure → Loaded A

-- `x in [s.strip() for s in text.split(",")]`
abbrev pub listed : String → String → Bool
listed x text = contains x (map strip (split b',' text))

abbrev or_empty : Option String → String
or_empty none = ""
or_empty (some s) = s

-- `_check_allowlist`: false if it raises
abbrev pub check_allowlist : Config → String → Bool
check_allowlist cfg key_id = if str_eq cfg.allowlist "" then true else listed key_id cfg.allowlist

-- the test of the scope in `load`
abbrev pub scope_allowed : Config → Option String → Bool
scope_allowed cfg scope =
    if not (truthy scope) || str_eq cfg.allow_scopes ""
    then true
    else listed (or_empty scope) cfg.allow_scopes

module _ {Payload : Type 0} (std : Stdlib Payload) where
  -- the last tests of `_verify_signature`, on what the key loader gives
  unfoldable pub check_material : Payload → String → Option (Option KeyMaterial) → Option Failure
  check_material raw expected none = some uncaught
  check_material raw expected (some none) = some signature_error
  check_material raw expected (some (some km)) =
      if str_eq (hmac_sign std raw km.secret) expected then none else some signature_error

module _ {Payload : Type 0} (std : Stdlib Payload) (cfg : Config) where
  -- `_verify_signature`
  unfoldable pub verify_signature : World → Payload → SigFile → Loader → Option Failure × Loader
  unfolding check_material
  verify_signature w raw missing s = (if cfg.fail_open then none else some signature_error, s)
  verify_signature w raw unreadable s = (some signature_error, s)
  verify_signature w raw (found key_id expected) s =
      if not (truthy key_id) || not (truthy expected)
      then (some signature_error, s)
      else if check_allowlist cfg (or_empty key_id)
      then (let (material, s') = get std w (or_empty key_id) s in
          (check_material std raw (or_empty expected) material, s'))
      else (some signature_error, s)

  -- `PolicyLoader.load`
  unfoldable pub load :
      World → PolicyFile Payload → SigFile → Option String → Loader → Loaded Payload × Loader
  unfolding verify_signature
  load w file sig scope s =
      if scope_allowed cfg scope
      then (elim file [
        | absent ↦ (err file_not_found, s)
        | broken ↦ (err uncaught, s)
        | parsed raw ↦
            let (failure, s') = verify_signature w raw sig s in
            (elim failure [ none ↦ ok raw | some e ↦ err e ], s')
      ])
      else (err signature_error, s)

  -- `_get_loader`: the loader of the process, made at its first use
  unfoldable pub get_loader : World → Option Loader → Option Loader
  get_loader w (some s) = some s
  get_loader w none = let (raised, s) = force_reload std w init in if raised then none else some s

  -- `load_freeze_policy`, `load_ownership_policy` and `load_approval_policy`, for the list of the
  -- name that each of them asks for.
  unfoldable pub load_named :
      {A : Type 0}
      → (Payload → Option (List A))
      → World
      → PolicyFile Payload
      → SigFile
      → Option Loader
      → Loaded (List A) × Option Loader
  unfolding load get_loader
  load_named array w file sig g = elim (get_loader w g) [
    | none ↦ (err uncaught, none)
    | some s ↦
        let (result, s') = load w file sig none s in
        (
          elim result [
            | err e ↦ err e
            | ok raw ↦ elim (array raw) [ none ↦ err signature_error | some l ↦ ok l ]
          ],
          some s',
        )
  ]
