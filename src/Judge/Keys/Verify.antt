-- ===== src/Judge/Keys/Verify.antt =====
-- apps/judge/crypto.py: `hmac_sign`, `hmac_verify`, `verify_with_multikey`, `verify_signature_safe`. A
-- signature that is not ASCII, on which `compare_digest` raises, is one that does not match.
use decisionos.Common.{
  String, ◌≡◌, ◌≢◌, ◌↔◌, refl, Bool, true, false, Option, none, some, arith, str_eq, eq_iff,
  if◌then◌else◌,
}
use decisionos.Common.Dict.{lookup}
use decisionos.Judge.Keys.Material.{Stdlib, KeyState, active, grace, retired, KeyMaterial}
use decisionos.Judge.Keys.Loader.{Loader, World, get}
use decisionos.Judge.Keys.Loader.Reload.{reload-reload}

pub data Reason : Type 0 where
  key_missing key_retired key_grace_forbidden sig_mismatch key_grace ok : Reason

pub data Outcome : Type 0 where
  valid signature_invalid crashed : Outcome

module _ {Payload : Type 0} (std : Stdlib Payload) where
  unfoldable pub hmac_sign : Payload → String → String
  hmac_sign payload key = std.hmac_hex key (std.dumps payload)

  unfoldable pub hmac_verify : Payload → String → String → Bool
  hmac_verify payload key signature = str_eq (hmac_sign payload key) signature

  abbrev graded : KeyState → Bool × Reason
  graded grace = (true, key_grace)
  graded _ = (true, ok)

  -- the tests of `verify_with_multikey` on the key that was found
  unfoldable pub check_key : Payload → String → Bool → KeyMaterial → Bool × Reason
  unfolding hmac_verify
  check_key payload signature allow_grace km = elim km.state [
    | retired ↦ (false, key_retired)
    | grace ↦
        if allow_grace
        then (if hmac_verify payload km.secret signature
            then (true, key_grace)
            else (false, sig_mismatch))
        else (false, key_grace_forbidden)
    | active ↦ if hmac_verify payload km.secret signature then (true, ok) else (false, sig_mismatch)
  ]

  abbrev check_found : Payload → String → Bool → Option KeyMaterial → Bool × Reason
  check_found payload signature allow_grace none = (false, key_missing)
  check_found payload signature allow_grace (some km) = check_key payload signature allow_grace km

  -- `none` if the reload of the keys raised
  unfoldable pub verify_with_multikey :
      World → Payload → String → String → Bool → Loader → Option (Bool × Reason) × Loader
  verify_with_multikey w payload signature key_id allow_grace s =
      let (found, t) = get std w key_id s in
      (
        elim found [ none ↦ none | some km ↦ some (check_found payload signature allow_grace km) ],
        t,
      )

  unfoldable pub verify_signature_safe :
      World → Payload → String → String → Bool → Loader → Outcome × Loader
  unfolding verify_with_multikey
  verify_signature_safe w payload signature key_id allow_grace s =
      let (result, t) = verify_with_multikey w payload signature key_id allow_grace s in
      (
        elim result [
          | none ↦ crashed
          | some (fine, reason) ↦ if fine then valid else signature_invalid
        ],
        t,
      )

  -- What makes a signature good: a key that is not retired, a grace key only where these are
  -- allowed, and the HMAC of the payload's canonical text under it.
  pub record IsSigned (payload : Payload) (signature : String) (allow_grace : Bool)
      (km : KeyMaterial) : Type 0 where
    pub usable : km.state ≢ retired
    pub permitted : km.state ≡ grace → allow_grace ≡ true
    pub matches : std.hmac_hex km.secret (std.dumps payload) ≡ signature

  pub check_key-IsSigned :
      (payload : Payload) (signature : String) (allow_grace : Bool) (km : KeyMaterial)
      → (check_key payload signature allow_grace km).0 ≡ true
      → IsSigned payload signature allow_grace km
  unfolding check_key hmac_sign
  check_key-IsSigned payload signature allow_grace km h =
      ground (arith, eq_iff (std.hmac_hex km.secret (std.dumps payload)) signature)

  pub IsSigned-check_key :
      (payload : Payload) (signature : String) (allow_grace : Bool) (km : KeyMaterial)
      → IsSigned payload signature allow_grace km
      → (check_key payload signature allow_grace km).0 ≡ true
  unfolding check_key hmac_sign
  IsSigned-check_key payload signature allow_grace km h =
      ground (arith, eq_iff (std.hmac_hex km.secret (std.dumps payload)) signature)

  pub get-found :
      (w : World) (k : String) (s : Loader) (o : Option KeyMaterial)
      → (get std w k s).0 ≡ some o
      → lookup k (get std w k s).1.keys ≡ o
  unfolding get
  get-found w k s o h = ground arith

  valid-check_key :
      (w : World) (payload : Payload) (sig k : String) (allow_grace : Bool) (s : Loader)
      → (verify_signature_safe w payload sig k allow_grace s).0 ≡ valid
      → (km : KeyMaterial) × ((get std w k s).0 ≡ some (some km))
        × ((check_key payload sig allow_grace km).0 ≡ true)
  unfolding verify_signature_safe
  valid-check_key w payload sig k allow_grace s h = ground arith

  check_key-valid :
      (w : World) (payload : Payload) (sig k : String) (allow_grace : Bool) (s : Loader)
      (km : KeyMaterial)
      → (get std w k s).0 ≡ some (some km)
      → (check_key payload sig allow_grace km).0 ≡ true
      → (verify_signature_safe w payload sig k allow_grace s).0 ≡ valid
  unfolding verify_signature_safe
  check_key-valid w payload sig k allow_grace s km e h = ground arith

  pub keys-verify_signature_safe :
      (w : World) (payload : Payload) (sig k : String) (allow_grace : Bool) (s : Loader)
      → (verify_signature_safe w payload sig k allow_grace s).1 ≡ (get std w k s).1
  unfolding verify_signature_safe
  keys-verify_signature_safe w payload sig k allow_grace s = refl

  -- A signature passes exactly if the keys could be read, the key id names one of them, and the
  -- signature is good under it: a key that is not retired, a grace key only where these are allowed,
  -- and the HMAC of the payload's canonical text.
  pub verify_signature_safe_iff :
      (w : World) (payload : Payload) (sig k : String) (allow_grace : Bool) (s : Loader)
      → ((verify_signature_safe w payload sig k allow_grace s).0 ≡ valid) ↔ (
          (km : KeyMaterial) × ((get std w k s).0 ≡ some (some km))
          × IsSigned payload sig allow_grace km)
  verify_signature_safe_iff w payload sig k allow_grace s = (
    λ h.
        let (km, e, c) = valid-check_key w payload sig k allow_grace s h in
        (km, e, check_key-IsSigned payload sig allow_grace km c),
    λ h.
        let (km, e, c) = h in
        check_key-valid w payload sig k allow_grace s km e
          (IsSigned-check_key payload sig allow_grace km c),
  )

  -- What `hmac_sign` makes under a key that is loaded and not retired passes, also under a grace key.
  pub sign_verify :
      (w : World) (payload : Payload) (k : String) (s : Loader) (km : KeyMaterial)
      → (get std w k s).0 ≡ some (some km)
      → km.state ≢ retired
      → (verify_signature_safe w payload (hmac_sign payload km.secret) k true s).0 ≡ valid
  unfolding hmac_sign
  sign_verify w payload k s km e usable =
      check_key-valid w payload (hmac_sign payload km.secret) k true s km e (
        IsSigned-check_key payload (hmac_sign payload km.secret) true km
          (record { usable = usable; permitted = λ _. refl; matches = refl }))

  pub get-get :
      (w : World) (k k' : String) (s : Loader) (o : Option KeyMaterial)
      → (get std w k s).0 ≡ some o
      → get std w k' (get std w k s).1
        ≡ (some (lookup k' (get std w k s).1.keys), (get std w k s).1)
  unfolding get
  get-get w k k' s o h = ground (arith, reload-reload std w s)
