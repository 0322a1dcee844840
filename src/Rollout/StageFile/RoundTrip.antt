-- ===== src/Rollout/StageFile/RoundTrip.antt =====
-- apps/experiment/stage_file.py: a read gives back what a write left, and repairs only once.
use Prim.Native.String.{◌++◌ as ◌<>◌}
use decisionos.Common.{
  ℕ, ◌≡◌, ap, ◌∙◌, inl, inr, String, true, false, none, some, arith, str_eq, eq_iff, Bool-cases,
  Option-cases, if◌then◌else◌,
}
use decisionos.Common.Text.{strip, lstrip, rstrip}
use decisionos.Rollout.StageFile.{
  Crypto, StageEnv, StageState, Disk, keys_configured, current_key, signed, write_stage_atomic,
  verify_manifest, guard_and_repair, genuine, read_text, read_or_repair, read_stage_with_hash,
}
use decisionos.Rollout.StageFile.Stripped.{strip_line}
use decisionos.Rollout.StageFile.Safe.{load_keys-Given, current_key-loaded}

-- What a read shows for a text without white space at its ends.
abbrev pub shown : String → String
shown token = if str_eq token "" then "stable" else token

module _ (crypto : Crypto) (env : StageEnv) where
  abbrev pub state_of : String → ℕ → StageState
  state_of stage mtime = record { stage = stage; sha256 = crypto.sha stage; mtime = mtime }

  abbrev line : String → ℕ → String × String → Disk
  line token now key = record {
    text = some (token <> "\n", now);
    manifest = some (signed crypto env token key);
  }

  -- What is signed with the current key passes the test of a read.
  signed-genuine :
      (token kid secret : String)
      → current_key env ≡ some (kid, secret)
      → verify_manifest crypto env token (signed crypto env token (kid, secret)) ≡ true
  unfolding verify_manifest
  signed-genuine token kid secret h =
      let known = current_key-loaded env kid secret h in
      ground (
        arith,
        known,
        load_keys-Given env kid secret known,
        eq_iff (crypto.sha token) (crypto.sha token),
        eq_iff (crypto.hmac_hex secret token) (crypto.hmac_hex secret token),
      )

  read-line :
      (token kid secret : String) (now now' : ℕ)
      → keys_configured env ≡ true
      → current_key env ≡ some (kid, secret)
      → strip (token <> "\n") ≡ token
      → read_stage_with_hash crypto env now' (line token now (kid, secret))
        ≡ (some (state_of (shown token) now), line token now (kid, secret))
  unfolding read_stage_with_hash read_or_repair read_text
  read-line token kid secret now now' on key same =
      ground (arith, signed-genuine token kid secret key)

  write-line :
      (now : ℕ) (stage : String) (d : Disk) (st : StageState)
      → (write_stage_atomic crypto env now stage d).0 ≡ some st
      → (kid : String) × (secret : String) × (keys_configured env ≡ true)
        × (current_key env ≡ some (kid, secret))
        × ((write_stage_atomic crypto env now stage d).1 ≡ line (strip stage) now (kid, secret))
        × (st ≡ record { stage = stage; sha256 = crypto.sha (strip stage); mtime = now })
  unfolding write_stage_atomic
  write-line now stage d st h = elim (Option-cases (current_key env)) [
    | inl e ↦ absurd (ground arith)
    | inr ((kid, secret), e) ↦ (kid, secret, ground arith, e, ground arith, ground arith)
  ]

  -- After a write that succeeds, a read gives the stage that was written, without the white space
  -- around it and "stable" in the place of nothing, with the time of the write; it changes no file.
  pub read-write_stage :
      (now now' : ℕ) (stage : String) (d : Disk) (st : StageState)
      → (write_stage_atomic crypto env now stage d).0 ≡ some st
      → read_stage_with_hash crypto env now' (write_stage_atomic crypto env now stage d).1
        ≡ (some (state_of (shown (strip stage)) now), (write_stage_atomic crypto env now stage d).1)
  read-write_stage now now' stage d st h =
      let (kid, secret, on, key, left, _) = write-line now stage d st h in
      rw left (read-line (strip stage) kid secret now now' on key (strip_line stage))

  good_read :
      (now : ℕ) (d : Disk) (text : String) (mtime : ℕ)
      → keys_configured env ≡ true
      → d.text ≡ some (text, mtime)
      → genuine crypto env (strip text) d.manifest ≡ true
      → read_stage_with_hash crypto env now d ≡ (some (state_of (shown (strip text)) mtime), d)
  unfolding read_stage_with_hash read_or_repair read_text
  good_read now d text mtime on e good = ground arith

  -- A read that writes "stable".
  Rewrites : ℕ → Disk → Type 0
  Rewrites now d =
      (s : StageState) × ((write_stage_atomic crypto env now "stable" d).0 ≡ some s)
      × (read_stage_with_hash crypto env now d
          ≡ (some (state_of "stable" now), (write_stage_atomic crypto env now "stable" d).1))

  read_again :
      (now now' : ℕ) (d : Disk) (st : StageState)
      → Rewrites now d
      → (read_stage_with_hash crypto env now d).0 ≡ some st
      → read_stage_with_hash crypto env now' (read_stage_with_hash crypto env now d).1
        ≡ (some st, (read_stage_with_hash crypto env now d).1)
  unfolding Rewrites strip lstrip rstrip
  read_again now now' d st (s, w, e) h =
      let same : state_of "stable" now ≡ st = ground arith in
      rw e (
        read-write_stage now now' "stable" d s w
        ∙ ap (λ x. (some x, (write_stage_atomic crypto env now "stable" d).1)) same)

  missing-Rewrites :
      (now : ℕ) (d : Disk) (st : StageState)
      → keys_configured env ≡ true
      → d.text ≡ none
      → (read_stage_with_hash crypto env now d).0 ≡ some st
      → Rewrites now d
  unfolding read_stage_with_hash read_or_repair Rewrites
  missing-Rewrites now d st on e h =
      elim (Option-cases (write_stage_atomic crypto env now "stable" d).0) [
        | inl n ↦ absurd (ground arith)
        | inr (s, w) ↦ (s, w, ground arith)
      ]

  tampered-Rewrites :
      (now : ℕ) (d : Disk) (text : String) (mtime : ℕ) (st : StageState)
      → keys_configured env ≡ true
      → d.text ≡ some (text, mtime)
      → genuine crypto env (strip text) d.manifest ≡ false
      → (read_stage_with_hash crypto env now d).0 ≡ some st
      → Rewrites now d
  unfolding read_stage_with_hash read_or_repair read_text guard_and_repair Rewrites
  tampered-Rewrites now d text mtime st on e bad h =
      elim (Option-cases (write_stage_atomic crypto env now "stable" d).0) [
        | inl n ↦ absurd (ground arith)
        | inr (s, w) ↦
            let (_, _, _, _, _, is) = write-line now "stable" d s w in (s, w, ground arith)
      ]

  -- With keys configured, a read that succeeds has left the files so that another one, at any time,
  -- gives the same stage, hash and time, and changes nothing: tampered files are repaired once.
  pub read_stage_twice :
      (now now' : ℕ) (d : Disk) (st : StageState)
      → keys_configured env ≡ true
      → (read_stage_with_hash crypto env now d).0 ≡ some st
      → read_stage_with_hash crypto env now' (read_stage_with_hash crypto env now d).1
        ≡ (some st, (read_stage_with_hash crypto env now d).1)
  read_stage_twice now now' d st on h = elim (Option-cases d.text) [
    | inl e ↦ read_again now now' d st (missing-Rewrites now d st on e h) h
    | inr ((text, mtime), e) ↦ elim (Bool-cases (genuine crypto env (strip text) d.manifest)) [
      | inl good ↦
          let first = good_read now d text mtime on e good in
          let second = good_read now' d text mtime on e good in
          let same : state_of (shown (strip text)) mtime ≡ st = ground (arith, first) in
          rw first (second ∙ ap (λ x. (some x, d)) same)
      | inr bad ↦ read_again now now' d st (tampered-Rewrites now d text mtime st on e bad h) h
    ]
  ]
