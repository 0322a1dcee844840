-- ===== src/Change/BreakGlass.antt =====
-- apps/ops/freeze.py, `has_valid_break_glass`: a signed manifest that lifts a freeze until it expires.
use decisionos.Common.{
  ℕ, ◌≡◌, ◌↔◌, refl, String, Bool, true, false, not, ◌&&◌, ◌||◌, Option, none, some, arith, str_eq,
  eq_iff, Option-cases, inl, inr, ◌⊎◌, if◌then◌else◌,
}
use decisionos.Common.Int.{ℤ, pos, ltb_ℤ, eqb_ℤ}
use decisionos.Judge.Keys.{Stdlib, KeyMaterial}
use decisionos.Judge.Keys.Loader.{Loader, World, init, force_reload, get}
use decisionos.Judge.Keys.Verify.{hmac_sign}

-- The file: `manifest` with its fields, and the fields of `signature`.
pub record Manifest (Payload : Type 0) : Type 0 where
  pub manifest : Payload
  pub token : Option String
  pub expires_at : Option ℤ
  pub key_id : Option String
  pub hmac_sha256 : Option String

pub data BreakGlassFile (Payload : Type 0) : Type 0 where
  absent unreadable : BreakGlassFile Payload
  read : Manifest Payload → BreakGlassFile Payload

-- What a call meets: the file, the clock, and the key sources at its two readings of them.
pub record Scene (Payload : Type 0) : Type 0 where
  pub file : BreakGlassFile Payload
  pub now : ℕ
  pub at_reload : World
  pub at_get : World

-- `signature.get("key_id", "")`
abbrev pub key_name : Option String → String
key_name none = ""
key_name (some k) = k

-- `token and token != manifest.get("token")`
abbrev pub other_token : Option String → Option String → Bool
other_token none held = false
other_token (some t) none = not (str_eq t "")
other_token (some t) (some held) = not (str_eq t "") && not (str_eq t held)

-- `not expires_at or int(expires_at) < int(time.time())`
abbrev pub expired : ℕ → Option ℤ → Bool
expired now none = true
expired now (some t) = eqb_ℤ t (pos 0) || ltb_ℤ t (pos now)

module _ {Payload : Type 0} (std : Stdlib Payload) where
  -- the last tests, on what the key loader gives; `none` if the call raised
  unfoldable pub check_signature : Manifest Payload → Option (Option KeyMaterial) → Option Bool
  check_signature m none = none
  check_signature m (some none) = some false
  check_signature m (some (some km)) = elim m.hmac_sha256 [
    | none ↦ some false
    | some signature ↦ some (str_eq (hmac_sign std m.manifest km.secret) signature)
  ]

  -- a new key loader, reloaded by force
  unfoldable pub fresh_loader : World → Option Loader
  fresh_loader w = let (raised, s) = force_reload std w init in if raised then none else some s

  unfoldable pub check_manifest : Scene Payload → Option String → Manifest Payload → Option Bool
  unfolding check_signature fresh_loader
  check_manifest c token m =
      if other_token token m.token || expired c.now m.expires_at
      then some false
      else elim (fresh_loader c.at_reload) [
        | none ↦ none
        | some s ↦ check_signature m (get std c.at_get (key_name m.key_id) s).0
      ]

  unfoldable pub has_valid_break_glass : Scene Payload → Option String → Option Bool
  unfolding check_manifest
  has_valid_break_glass c token = elim c.file [
    | absent ↦ some false
    | unreadable ↦ some false
    | read m ↦ check_manifest c token m
  ]

  -- What makes a manifest good.
  pub record Lifts (c : Scene Payload) (token : Option String) (m : Manifest Payload) (s : Loader)
      (km : KeyMaterial) (signature : String) : Type 0 where
    pub held : c.file ≡ read m
    pub same_token : other_token token m.token ≡ false
    pub unexpired : expired c.now m.expires_at ≡ false
    pub loaded : fresh_loader c.at_reload ≡ some s
    pub known : (get std c.at_get (key_name m.key_id) s).0 ≡ some (some km)
    pub signed : m.hmac_sha256 ≡ some signature
    pub matches : std.hmac_hex km.secret (std.dumps m.manifest) ≡ signature

  check_signature-true :
      (m : Manifest Payload) (o : Option (Option KeyMaterial))
      → check_signature m o ≡ some true
      → (km : KeyMaterial) × (signature : String) × (o ≡ some (some km))
        × (m.hmac_sha256 ≡ some signature)
        × (std.hmac_hex km.secret (std.dumps m.manifest) ≡ signature)
  unfolding check_signature hmac_sign
  check_signature-true m none h = cc
  check_signature-true m (some none) h = absurd (ground arith)
  check_signature-true m (some (some km)) h = elim (Option-cases m.hmac_sha256) [
    | inl e ↦ absurd (ground arith)
    | inr (signature, e) ↦ (
      km,
      signature,
      refl,
      e,
      ground (arith, eq_iff (std.hmac_hex km.secret (std.dumps m.manifest)) signature),
    )
  ]

  file_cases :
      (f : BreakGlassFile Payload)
      → (f ≡ absent) ⊎ ((f ≡ unreadable) ⊎ ((m : Manifest Payload) × (f ≡ read m)))
  file_cases absent = inl refl
  file_cases unreadable = inr (inl refl)
  file_cases (read m) = inr (inr (m, refl))

  abbrev pub Lifted : Scene Payload → Option String → Type 0
  Lifted c token =
      (m : Manifest Payload) × (s : Loader) × (km : KeyMaterial) × (signature : String) × Lifts c
        token m s km signature

  lifted :
      (c : Scene Payload) (token : Option String) (m : Manifest Payload)
      → c.file ≡ read m
      → check_manifest c token m ≡ some true
      → Lifted c token
  unfolding check_manifest
  lifted c token m e h = elim (Option-cases (fresh_loader c.at_reload)) [
    | inl none_loaded ↦ absurd (ground arith)
    | inr (s, loaded) ↦
        let (km, signature, known, signed, matches) =
          check_signature-true m (get std c.at_get (key_name m.key_id) s).0 (ground arith) in
        (m, s, km, signature, ground arith)
  ]

  -- A break-glass manifest lifts a freeze exactly if its file can be read, it names the token that is
  -- asked for, if any is, it has not expired, and its signature is the HMAC of the canonical manifest
  -- under the key that it names, which the loader knows in any state, also a retired one.
  pub has_valid_break_glass_iff :
      (c : Scene Payload) (token : Option String)
      → (has_valid_break_glass c token ≡ some true) ↔ Lifted c token
  unfolding has_valid_break_glass check_manifest check_signature hmac_sign
  has_valid_break_glass_iff c token = (
    λ h. elim (file_cases c.file) [
      | inl e ↦ absurd (ground arith)
      | inr (inl e) ↦ absurd (ground arith)
      | inr (inr (m, e)) ↦ lifted c token m e (ground arith)
    ],
    λ (m, s, km, signature, l).
        ground (arith, l, eq_iff (std.hmac_hex km.secret (std.dumps m.manifest)) signature),
  )
