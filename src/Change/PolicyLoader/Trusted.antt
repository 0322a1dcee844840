-- ===== src/Change/PolicyLoader/Trusted.antt =====
-- What apps/common/policy_loader.py takes for a policy.
use decisionos.Common.{
  String, ◌≡◌, ◌↔◌, refl, true, false, Option, none, some, arith, eq_iff, truthy,
}
use mathlib.Core.Path.{subst}
use decisionos.Judge.Keys.{Stdlib, KeyMaterial}
use decisionos.Judge.Keys.Loader.{Loader, World, get}
use decisionos.Judge.Keys.Verify.{hmac_sign}
use decisionos.Change.PolicyLoader.{
  Config, SigFile, missing, unreadable, found, PolicyFile, absent, broken, parsed, ok,
  check_allowlist, check_material, verify_signature, scope_allowed, load,
}

module _ {Payload : Type 0} (std : Stdlib Payload) (cfg : Config) (w : World) where
  -- A signature under a key that may be used and that the loader knows.
  pub record IsSignedBy (raw : Payload) (sig : SigFile) (s : Loader) (k e : String)
      (km : KeyMaterial) : Type 0 where
    pub read : sig ≡ found (some k) (some e)
    pub named : truthy (some k) ≡ true
    pub given : truthy (some e) ≡ true
    pub listed : check_allowlist cfg k ≡ true
    pub known : (get std w k s).0 ≡ some (some km)
    pub matches : std.hmac_hex km.secret (std.dumps raw) ≡ e

  abbrev pub IsSigned : Payload → SigFile → Loader → Type 0
  IsSigned raw sig s =
      (k : String) × (e : String) × (km : KeyMaterial) × IsSignedBy raw sig s k e km

  check_material-known :
      (raw : Payload) (e : String) (o : Option (Option KeyMaterial))
      → check_material std raw e o ≡ none
      → (km : KeyMaterial) × (o ≡ some (some km)) × (std.hmac_hex km.secret (std.dumps raw) ≡ e)
  unfolding check_material hmac_sign
  check_material-known raw e none h = cc
  check_material-known raw e (some none) h = cc
  check_material-known raw e (some (some km)) h =
      (km, refl, ground (arith, eq_iff (std.hmac_hex km.secret (std.dumps raw)) e))

  back :
      (raw : Payload) (k e k' e' : String) (km : KeyMaterial) (s : Loader)
      → IsSignedBy raw (found (some k) (some e)) s k' e' km
      → (verify_signature std cfg w raw (found (some k) (some e)) s).0 ≡ none
  unfolding verify_signature hmac_sign
  back raw k e k' e' km s i =
      ground (arith, i.known, eq_iff (std.hmac_hex km.secret (std.dumps raw)) e, i.listed)

  pub verify_signature_iff :
      (raw : Payload) (sig : SigFile) (s : Loader)
      → cfg.fail_open ≡ false
      → ((verify_signature std cfg w raw sig s).0 ≡ none) ↔ IsSigned raw sig s
  unfolding verify_signature
  verify_signature_iff raw missing s closed =
      (λ h. absurd (ground arith), λ t. absurd (cc t.3.read))
  verify_signature_iff raw unreadable s closed =
      (λ h. absurd (ground arith), λ t. absurd (cc t.3.read))
  verify_signature_iff raw (found none o) s closed =
      (λ h. absurd (ground arith), λ t. absurd (cc t.3.read))
  verify_signature_iff raw (found (some k) none) s closed =
      (λ h. absurd (ground arith), λ t. absurd (cc t.3.read))
  verify_signature_iff raw (found (some k) (some e)) s closed = (
    λ h.
        let (km, known, matches) = check_material-known raw e (get std w k s).0 (ground arith) in
        (k, e, km, ground arith),
    λ t. back raw k e t.0 t.1 t.2 s t.3,
  )

  -- With DECISIONOS_POLICY_FAIL_OPEN off, `load` gives back data exactly if the scope that is asked for
  -- is allowed, the file holds the data, and its signature names a key of the allowlist that the key
  -- loader knows and is the HMAC of the canonical data under that key.
  pub load_iff :
      (file : PolicyFile Payload) (sig : SigFile) (scope : Option String) (s : Loader)
      (raw : Payload)
      → cfg.fail_open ≡ false
      → ((load std cfg w file sig scope s).0 ≡ ok raw)
        ↔ ((scope_allowed cfg scope ≡ true) × (file ≡ parsed raw) × IsSigned raw sig s)
  unfolding load
  load_iff absent sig scope s raw closed = (λ h. absurd (ground arith), λ t. absurd (cc t.1))
  load_iff broken sig scope s raw closed = (λ h. absurd (ground arith), λ t. absurd (cc t.1))
  load_iff (parsed data') sig scope s raw closed =
      let (f, g) = verify_signature_iff data' sig s closed in
      (
        λ h.
            let e : data' ≡ raw = ground arith in
            (ground arith, ground arith, subst (λ d. IsSigned d sig s) e (f (ground arith))),
        λ t.
            let e : raw ≡ data' = ground (arith, t.1) in
            let signed = g (subst (λ d. IsSigned d sig s) e t.2) in ground (arith, t.0),
      )
