-- ===== src/Rollout/StageFile/Safe.antt =====
-- apps/experiment/stage_file.py: what a read of the stage can give.

use mathlib.Core.Path.{subst}
use decisionos.Common.{
  ℕ, ◌≡◌, ◌⊎◌, refl, inl, inr, String, Bool, true, false, not, ◌&&◌, Option, none, some, List, [],
  ◌∷◌, arith, str_eq, eq_iff, truthy, Bool-cases, Option-cases, if◌then◌else◌,
}
use decisionos.Common.Dict.{Dict, lookup, insert, has, lookup-insert}
use decisionos.Common.Text.{strip}
use decisionos.Rollout.StageFile.{
  Crypto, StageEnv, StageState, Manifest, Disk, keys_configured, add_entries, load_keys,
  current_key, key_id_of, first_key, listed_keys, with_key, write_stage_atomic, verify_manifest,
  guard_and_repair, read_text, token_of, read_or_repair, read_stage_with_hash,
}

-- All the secrets are given.
abbrev pub Given : Dict String → Type 0
Given keys = (k s : String) → lookup k keys ≡ some s → str_eq s "" ≡ false

stored-Given :
    (b : Bool) (k s : String) (keys : Dict String)
    → (b ≡ true → str_eq s "" ≡ false)
    → Given keys
    → Given (if b then insert k s keys else keys)
stored-Given true k s keys g all j t h = ground (arith, lookup-insert k j s keys, all j t, g refl)
stored-Given false k s keys g all j t h = all j t h

add_entries-Given :
    (l : List (Option String × Option String)) (keys : Dict String)
    → Given keys
    → Given (add_entries l keys)
unfolding add_entries
add_entries-Given [] keys all = all
add_entries-Given ((some kid, some secret) ∷ l) keys all = add_entries-Given l _ (
    stored-Given (truthy (some kid) && truthy (some secret)) kid secret keys (λ h. ground arith)
      all)
add_entries-Given ((none, o) ∷ l) keys all = add_entries-Given l keys all
add_entries-Given ((some k, none) ∷ l) keys all = add_entries-Given l keys all

empty-Given : Given []
unfolding lookup
empty-Given j t h = cc

listed-Given : (env : StageEnv) → Given (listed_keys env)
listed-Given env = elim (Bool-cases (truthy env.keys_json)) [
  | inl e ↦ rw e (add_entries-Given env.entries [] empty-Given)
  | inr e ↦ rw e empty-Given
]

with_key-Given :
    (o : Option String) (kid : String) (keys : Dict String)
    → Given keys
    → Given (with_key o kid keys)
with_key-Given none kid keys all = all
with_key-Given (some secret) kid keys all =
    let stored =
      stored-Given (not (str_eq secret "") && not (has kid keys)) kid secret keys
        (λ h. ground arith) all in
    λ j t h. ground (arith, stored j t, all j t)

pub load_keys-Given : (env : StageEnv) → Given (load_keys env)
unfolding load_keys
load_keys-Given env = with_key-Given env.key (key_id_of env) (listed_keys env) (listed-Given env)

first_key-lookup :
    (keys : Dict String) (kid secret : String)
    → first_key keys ≡ some (kid, secret)
    → lookup kid keys ≡ some secret
unfolding lookup
first_key-lookup [] kid secret h = cc
first_key-lookup ((j, v) ∷ keys) kid secret h = ground (arith, eq_iff j kid)

-- The key that signs is one of the keys.
pub current_key-loaded :
    (env : StageEnv) (kid secret : String)
    → current_key env ≡ some (kid, secret)
    → lookup kid (load_keys env) ≡ some secret
unfolding current_key
current_key-loaded env kid secret h = elim (Option-cases env.key_id) [
  | inl e ↦ first_key-lookup (load_keys env) kid secret (ground arith)
  | inr (k, e) ↦ elim (Option-cases (lookup k (load_keys env))) [
    | inl n ↦ first_key-lookup (load_keys env) kid secret (ground arith)
    | inr (v, f) ↦ ground (arith, first_key-lookup (load_keys env) kid secret, eq_iff k kid)
  ]
]

module _ (crypto : Crypto) (env : StageEnv) where
  -- The stage is the text of the file, and the manifest signs it under a key of the environment.
  pub record IsGenuine (d : Disk) (stage text : String) (mtime : ℕ) (m : Manifest)
      (kid secret : String) : Type 0 where
    pub written : d.text ≡ some (text, mtime)
    pub stripped : strip text ≡ stage
    pub beside : d.manifest ≡ some m
    pub named : m.key_id ≡ some kid
    pub known : lookup kid (load_keys env) ≡ some secret
    pub hashed : m.token_sha256 ≡ some (crypto.sha stage)
    pub signed : m.sig_hmac ≡ some (crypto.hmac_hex secret stage)

  abbrev pub Genuine : Disk → String → Type 0
  Genuine d stage =
      (text : String) × (mtime : ℕ) × (m : Manifest) × (kid : String) × (secret : String)
      × IsGenuine d stage text mtime m kid secret

  verify_manifest-true :
      (token : String) (m : Manifest)
      → verify_manifest crypto env token m ≡ true
      → (kid : String) × (secret : String) × (m.key_id ≡ some kid)
        × (lookup kid (load_keys env) ≡ some secret)
        × (m.token_sha256 ≡ some (crypto.sha token))
        × (m.sig_hmac ≡ some (crypto.hmac_hex secret token))
  unfolding verify_manifest
  verify_manifest-true token m h = elim (Option-cases m.key_id) [
    | inl e ↦ absurd (ground arith)
    | inr (kid, e) ↦ elim (Option-cases (lookup kid (load_keys env))) [
      | inl n ↦ absurd (ground arith)
      | inr (secret, f) ↦ elim (Option-cases m.token_sha256) [
        | inl n ↦ absurd (ground arith)
        | inr (t, g) ↦ elim (Option-cases m.sig_hmac) [
          | inl n ↦ absurd (ground arith)
          | inr (s, i) ↦ (
            kid,
            secret,
            e,
            f,
            ground (arith, eq_iff t (crypto.sha token)),
            ground (arith, eq_iff s (crypto.hmac_hex secret token)),
          )
        ]
      ]
    ]
  ]

  write-stable :
      (now : ℕ) (d : Disk) (st : StageState)
      → (write_stage_atomic crypto env now "stable" d).0 ≡ some st
      → st.stage ≡ "stable"
  unfolding write_stage_atomic
  write-stable now d st h = ground (arith, Option-cases (current_key env))

  repair-stable :
      (now : ℕ) (d : Disk) (st : StageState)
      → (guard_and_repair crypto env now d).0 ≡ some st
      → st.stage ≡ "stable"
  unfolding guard_and_repair
  repair-stable now d st h = ground (arith, write-stable now d st)

  repaired :
      (now : ℕ) (d : Disk) (stage : String) (t : ℕ)
      → token_of (guard_and_repair crypto env now d).0 ≡ some (stage, t)
      → stage ≡ "stable"
  repaired now d stage t h = elim (Option-cases (guard_and_repair crypto env now d).0) [
    | inl e ↦ absurd (ground arith)
    | inr (s, e) ↦ ground (arith, repair-stable now d s e)
  ]

  Genuine-text :
      (token stage : String)
      → (if str_eq token "" then "stable" else token) ≡ stage
      → {d : Disk} → Genuine d token
      → (stage ≡ "stable") ⊎ Genuine d stage
  Genuine-text token stage e {d} g = elim (Bool-cases (str_eq token "")) [
    | inl f ↦ inl (ground arith)
    | inr f ↦ let same : token ≡ stage = ground arith in inr (subst (Genuine d) same g)
  ]

  read_text-safe :
      (now : ℕ) (text : String) (mtime : ℕ) (d : Disk) (stage : String) (t : ℕ)
      → d.text ≡ some (text, mtime)
      → (read_text crypto env now (strip text) mtime d).0 ≡ some (stage, t)
      → (stage ≡ "stable") ⊎ Genuine d stage
  unfolding read_text
  read_text-safe now text mtime d stage t e h = elim (Bool-cases (keys_configured env)) [
    | inr off ↦ inl (ground arith)
    | inl on ↦ elim (Option-cases d.manifest) [
      | inl gone ↦ inl (repaired now d stage t (ground arith))
      | inr (m, f) ↦ elim (Bool-cases (verify_manifest crypto env (strip text) m)) [
        | inr bad ↦ inl (repaired now d stage t (ground arith))
        | inl good ↦
            let (kid, secret, named, known, hashed, signed) =
              verify_manifest-true (strip text) m good in
            Genuine-text (strip text) stage (ground arith)
              (text, mtime, m, kid, secret, ground arith)
      ]
    ]
  ]

  -- A read of the stage gives "stable", or else the text of the file, whose manifest has the hash of
  -- that text and its HMAC under a key of the environment that the manifest names.
  pub read_stage_safe :
      (now : ℕ) (d : Disk) (st : StageState)
      → (read_stage_with_hash crypto env now d).0 ≡ some st
      → (st.stage ≡ "stable") ⊎ Genuine d st.stage
  unfolding read_stage_with_hash read_or_repair
  read_stage_safe now d st h = elim (Option-cases d.text) [
    | inl e ↦ inl (ground arith)
    | inr (t, e) ↦ read_text-safe now t.0 t.1 d st.stage st.mtime (ground arith) (ground arith)
  ]
