-- ===== src/Rollout/StageFile.antt =====
-- apps/experiment/stage_file.py: the stage of a rollout, in a file with a signed manifest beside it.
-- The state is what the two files hold, as text without translation of line ends; a time is that of the
-- clock at the call.
pub mod Stripped
pub mod Safe
pub mod RoundTrip
use decisionos.Common.{
  ℕ, String, Bool, true, false, not, ◌&&◌, ◌||◌, Option, none, some, List, [], ◌∷◌, str_eq, truthy,
  if◌then◌else◌,
}
use Prim.Native.String.{◌++◌ as ◌<>◌}
use decisionos.Common.Dict.{Dict, lookup, insert, has}
use decisionos.Common.Text.{strip}

-- `hashlib.sha256(token).hexdigest()` and `hmac.new(key, token, sha256).hexdigest()`.
pub record Crypto : Type 0 where
  pub sha : String → String
  pub hmac_hex : String → String → String

-- DECISIONOS_STAGE_KEYS, with the entries that are read from it, to the first that cannot be read;
-- DECISIONOS_STAGE_KEY and DECISIONOS_STAGE_KEY_ID. A variable that is not set is `none`.
pub record StageEnv : Type 0 where
  pub keys_json : Option String
  pub entries : List (Option String × Option String)
  pub key : Option String
  pub key_id : Option String

pub record StageState : Type 0 where
  pub stage : String
  pub sha256 : String
  pub mtime : ℕ

pub record Manifest : Type 0 where
  pub token_sha256 : Option String
  pub sig_hmac : Option String
  pub key_id : Option String

-- The text of the stage file with its time, and the manifest, `none` if it is missing or unreadable.
pub record Disk : Type 0 where
  pub text : Option (String × ℕ)
  pub manifest : Option Manifest

-- `_keys_configured`
abbrev pub keys_configured : StageEnv → Bool
keys_configured env = truthy env.keys_json || truthy env.key

-- the loop of `_load_keys`
unfoldable pub add_entries : List (Option String × Option String) → Dict String → Dict String
add_entries [] keys = keys
add_entries ((some kid, some secret) ∷ l) keys =
    add_entries l
      (if truthy (some kid) && truthy (some secret) then insert kid secret keys else keys)
add_entries ((_, _) ∷ l) keys = add_entries l keys

abbrev pub key_id_of : StageEnv → String
key_id_of env = elim env.key_id [ none ↦ "k1" | some k ↦ k ]

-- `keys.setdefault(kid, secret)` for a secret that is given
abbrev pub with_key : Option String → String → Dict String → Dict String
with_key none kid keys = keys
with_key (some secret) kid keys =
    if str_eq secret "" then keys else if has kid keys then keys else insert kid secret keys

-- the keys of DECISIONOS_STAGE_KEYS
abbrev pub listed_keys : StageEnv → Dict String
listed_keys env = if truthy env.keys_json then add_entries env.entries [] else []

-- `_load_keys`
unfoldable pub load_keys : StageEnv → Dict String
unfolding add_entries
load_keys env = with_key env.key (key_id_of env) (listed_keys env)

abbrev pub first_key : Dict String → Option (String × String)
first_key [] = none
first_key (e ∷ keys) = some e

-- `_current_key`: `none` is the `RuntimeError`
unfoldable pub current_key : StageEnv → Option (String × String)
current_key env =
    let keys = load_keys env in
    elim env.key_id [
      | none ↦ first_key keys
      | some preferred ↦ elim (lookup preferred keys) [
        | none ↦ first_key keys
        | some secret ↦ if str_eq preferred "" then first_key keys else some (preferred, secret)
      ]
    ]

-- `repaired.stage, repaired.mtime`
abbrev pub token_of : Option StageState → Option (String × ℕ)
token_of none = none
token_of (some s) = some (s.stage, s.mtime)

module _ (crypto : Crypto) (env : StageEnv) where
  abbrev pub signed : String → String × String → Manifest
  signed token (kid, secret) = record {
    token_sha256 = some (crypto.sha token);
    sig_hmac = some (crypto.hmac_hex secret token);
    key_id = some kid;
  }

  -- `write_stage_atomic`: `none` if it raised, which it may after the text is written
  unfoldable pub write_stage_atomic : ℕ → String → Disk → Option StageState × Disk
  write_stage_atomic now stage d =
      let token = strip stage in
      let d' = record d { text = some (token <> "\n", now) } in
      if not (keys_configured env) then (none, d) else elim (current_key env) [
        | none ↦ (none, d')
        | some key ↦ (
          some (record { stage = stage; sha256 = crypto.sha token; mtime = now }),
          record d' { manifest = some (signed token key) },
        )
      ]

  abbrev pub same_text : Option String → String → Bool
  same_text none s = false
  same_text (some t) s = str_eq t s

  -- `_verify_manifest`
  unfoldable pub verify_manifest : String → Manifest → Bool
  verify_manifest token m = same_text m.token_sha256 (crypto.sha token) && (elim m.key_id [
    | none ↦ false
    | some kid ↦ elim (lookup kid (load_keys env)) [
      | none ↦ false
      | some secret ↦ not (str_eq secret "") && same_text m.sig_hmac (crypto.hmac_hex secret token)
    ]
  ])

  abbrev stable_now : ℕ → StageState
  stable_now now = record { stage = "stable"; sha256 = crypto.sha "stable"; mtime = now }

  -- `guard_and_repair`
  unfoldable pub guard_and_repair : ℕ → Disk → Option StageState × Disk
  guard_and_repair now d =
      if keys_configured env then write_stage_atomic now "stable" d else (some (stable_now now), d)

  abbrev pub genuine : String → Option Manifest → Bool
  genuine token none = false
  genuine token (some m) = verify_manifest token m

  -- the part of `_read_or_repair` for a file that is there
  unfoldable pub read_text : ℕ → String → ℕ → Disk → Option (String × ℕ) × Disk
  read_text now token mtime d =
      if not (keys_configured env)
      then (some ("stable", now), d)
      else if genuine token d.manifest
      then (some (if str_eq token "" then "stable" else token, mtime), d)
      else (let (repaired, d') = guard_and_repair now d in (token_of repaired, d'))

  -- `_read_or_repair`
  unfoldable pub read_or_repair : ℕ → Disk → Option (String × ℕ) × Disk
  read_or_repair now d = elim d.text [
    | some (text, mtime) ↦ read_text now (strip text) mtime d
    | none ↦
        let (written, d') = write_stage_atomic now "stable" d in
        if keys_configured env
        then (elim written [ none ↦ none | some _ ↦ some ("stable", now) ], d')
        else (some ("stable", now), d)
  ]

  -- `read_stage_with_hash`, which is `read_stage_with_guard` too
  unfoldable pub read_stage_with_hash : ℕ → Disk → Option StageState × Disk
  read_stage_with_hash now d =
      let (result, d') = read_or_repair now d in
      (
        elim result [
          | none ↦ none
          | some (token, mtime) ↦
              some (record { stage = token; sha256 = crypto.sha token; mtime = mtime })
        ],
        d',
      )
