-- ===== src/Judge/Server/Unsigned.antt =====
-- POST /judge of apps/judge/server.py: what a judgement rests on, and what the signature leaves out.
use decisionos.Common.{
  ◌/◌, String, ◌≡◌, ◌∙◌, ap, refl, inl, inr, true, false, Option, none, some, arith, truthy,
  Option-cases,
}
use decisionos.Common.Int.{ℤ}
use decisionos.Common.Dict.{lookup}
use decisionos.Judge.Keys.{Stdlib, KeyMaterial}
use decisionos.Judge.Keys.Loader.{get}
use decisionos.Judge.Keys.Verify.{
  valid, verify_signature_safe, verify_signature_safe_iff, IsSigned, keys-verify_signature_safe,
  get-get, get-found,
}
use decisionos.Judge.NonceStore.{NonceStore, window_sec}
use decisionos.Judge.Server.{
  Parts, Request, Ambient, within_clock_skew, datetime_range, key_or_default, Server, judge, admit,
  verify, timed, headers, post_judge,
}
use decisionos.Judge.Server.Effect.{is_judged}
use decisionos.Policy.Pep.{allowed, require}
use decisionos.Policy.Pep.Grants.{Grants, enforce-Grants, require-enforce}

module _ {Payload Env S Judgement : Type 0} (std : Stdlib Payload) (nonces : NonceStore Env S)
    (parts : Payload → Parts Judgement) where
  -- What the code has established when it judges a payload.
  pub record Passed (a : Ambient Env) (payload : Payload) (sig k : String) (s after : Server S)
      : Type 0 where
    pub signed : (verify_signature_safe std a.world payload sig k true s.keys).0 ≡ valid
    pub reached : is_judged (judge std nonces parts a payload) ≡ true
    pub keys : after.keys ≡ (verify_signature_safe std a.world payload sig k true s.keys).1

  verify-Passed :
      (a : Ambient Env) (payload : Payload) (sig k n : String) (t : ℤ) (s : Server S)
      → is_judged (verify std nonces parts a payload sig k n t s).0 ≡ true
      → Passed a payload sig k s (verify std nonces parts a payload sig k n t s).1
  unfolding verify admit
  verify-Passed a payload sig k n t s h = ground arith

  timed-Passed :
      (a : Ambient Env) (payload : Payload) (sig k n : String) (raw : Option ℤ) (s : Server S)
      → is_judged (timed std nonces parts a payload sig k n raw s).0 ≡ true
      → Passed a payload sig k s (timed std nonces parts a payload sig k n raw s).1
  unfolding timed
  timed-Passed a payload sig k n none s h = cc
  timed-Passed a payload sig k n (some t) s h = ground (arith, verify-Passed a payload sig k n t s)

  headers-timed :
      (a : Ambient Env) (payload : Payload) (r : Request Payload) (s : Server S)
      → is_judged (headers std nonces parts a payload r s).0 ≡ true
      → (sig : String) × (n : String) × (raw : Option ℤ) × (r.signature ≡ some sig)
        × (truthy r.signature ≡ true)
        × (headers std nonces parts a payload r s
            ≡ timed std nonces parts a payload sig (key_or_default r.key_id) n raw s)
  unfolding headers
  headers-timed a payload r s h = elim (Option-cases r.signature) [
    | inl e ↦ absurd (ground arith)
    | inr (sig, e) ↦ elim (Option-cases r.nonce) [
      | inl f ↦ absurd (ground arith)
      | inr (n, f) ↦ elim (Option-cases r.ts_epoch) [
        | inl g ↦ absurd (ground arith)
        | inr (raw, g) ↦ (sig, n, raw, e, ground arith, ground arith)
      ]
    ]
  ]

  post_judge-headers :
      (a : Ambient Env) (r : Request Payload) (s : Server S)
      → is_judged (post_judge std nonces parts a r s).0 ≡ true
      → (payload : Payload) × (r.payload ≡ some payload)
        × (post_judge std nonces parts a r s ≡ headers std nonces parts a payload r s)
  unfolding post_judge
  post_judge-headers a r s h = ground arith

  pub post_judge-Passed :
      (a : Ambient Env) (r : Request Payload) (s : Server S)
      → is_judged (post_judge std nonces parts a r s).0 ≡ true
      → (payload : Payload) × (sig : String) × (r.payload ≡ some payload)
        × (r.signature ≡ some sig)
        × (truthy r.signature ≡ true)
        × Passed a payload sig (key_or_default r.key_id) s (post_judge std nonces parts a r s).1
  post_judge-Passed a r s h =
      let (payload, ep, same) = post_judge-headers a r s h in
      let judged' : is_judged (headers std nonces parts a payload r s).0 ≡ true = rw same at h in
      let (sig, n, raw, es, truth, eq) = headers-timed a payload r s judged' in
      (
        payload,
        sig,
        ep,
        es,
        truth,
        rw (same, eq)
            (timed-Passed a payload sig (key_or_default r.key_id) n raw s (rw eq at judged')),
      )

  judge-require :
      (a : Ambient Env) (payload : Payload)
      → is_judged (judge std nonces parts a payload) ≡ true
      → require a.scopes "judge:run" ≡ none
  unfolding judge
  judge-require a payload h = ground arith

  -- The key that a passed request was verified with.
  Passed-key :
      (a : Ambient Env) (payload : Payload) (sig k : String) (s after : Server S)
      → Passed a payload sig k s after
      → (km : KeyMaterial) × (get std a.world k after.keys ≡ (some (some km), after.keys))
        × (lookup k after.keys.keys ≡ some km)
        × IsSigned std payload sig true km
  Passed-key a payload sig k s after p =
      let (km, e, good) =
        (verify_signature_safe_iff std a.world payload sig k true s.keys).0 p.signed in
      let same : after.keys ≡ (get std a.world k s.keys).1 =
        p.keys ∙ keys-verify_signature_safe std a.world payload sig k true s.keys in
      let found = get-found std a.world k s.keys (some km) e in
      (
        km,
        rw same (get-get std a.world k k s.keys (some km) e ∙ rw found refl),
        rw same found,
        good,
      )

  -- A judgement is given only where the request carries a payload and a signature that is good under
  -- a loaded key that is not retired and that its key id names, and where DECISIONOS_ALLOW_SCOPES
  -- grants `judge:run`.
  pub judged_authorised :
      (a : Ambient Env) (r : Request Payload) (s : Server S)
      → is_judged (post_judge std nonces parts a r s).0 ≡ true
      → (payload : Payload) × (sig : String) × (km : KeyMaterial) × (r.payload ≡ some payload)
        × (r.signature ≡ some sig)
        × (lookup (key_or_default r.key_id) (post_judge std nonces parts a r s).1.keys.keys
            ≡ some km)
        × IsSigned std payload sig true km
        × Grants "judge:run" (allowed a.scopes)
  judged_authorised a r s h =
      let (payload, sig, ep, es, truth, p) = post_judge-Passed a r s h in
      let (km, e, found, good) =
        Passed-key a payload sig (key_or_default r.key_id) s (post_judge std nonces parts a r s).1
          p in
      (
        payload,
        sig,
        km,
        ep,
        es,
        found,
        good,
        (enforce-Grants a.scopes "judge:run").0
            ((require-enforce a.scopes "judge:run").0 (judge-require a payload p.reached)),
      )

  verify-judged :
      (a : Ambient Env) (payload : Payload) (sig k n : String) (t : ℤ) (s : Server S)
      → (verify_signature_safe std a.world payload sig k true s.keys).0 ≡ valid
      → is_judged (judge std nonces parts a payload) ≡ true
      → within_clock_skew a.skew_at t window_sec ≡ true
      → (nonces.seen a.env k n t (a.store_at / 1000000) s.store).0 ≡ false
      → is_judged (verify std nonces parts a payload sig k n t s).0 ≡ true
  unfolding verify admit
  verify-judged a payload sig k n t s signed reached window unseen = ground arith

  headers-judged :
      (a : Ambient Env) (payload : Payload) (sig n : String) (t : ℤ) (r : Request Payload)
      (s : Server S)
      → r.payload ≡ some payload
      → r.signature ≡ some sig
      → truthy r.signature ≡ true
      → datetime_range t ≡ true
      → is_judged (verify std nonces parts a payload sig (key_or_default r.key_id) n t s).0 ≡ true
      → is_judged
          (post_judge std nonces parts a
            (record r { nonce = some n; ts_epoch = some (some t) })
            s).0
        ≡ true
  unfolding post_judge headers timed
  headers-judged a payload sig n t r s ep es truth range h =
      rw (ep, post_judge) (rw (es, headers) (rw truth (rw (range, timed) h)))

  -- The signature does not cover the nonce or the timestamp: of a request that was judged, a copy
  -- with any nonce that the store has not seen and any timestamp in the window is judged too, also
  -- after the first one, in the same surroundings.
  pub fresh_nonce_judged :
      (a : Ambient Env) (r : Request Payload) (s : Server S) (n' : String) (t' : ℤ)
      → is_judged (post_judge std nonces parts a r s).0 ≡ true
      → datetime_range t' ≡ true
      → within_clock_skew a.skew_at t' window_sec ≡ true
      → (nonces.seen a.env
          (key_or_default r.key_id)
          n'
          t'
          (a.store_at / 1000000)
          (post_judge std nonces parts a r s).1.store).0
        ≡ false
      → is_judged
          (post_judge std nonces parts a
            (record r { nonce = some n'; ts_epoch = some (some t') })
            (post_judge std nonces parts a r s).1).0
        ≡ true
  fresh_nonce_judged a r s n' t' h range window unseen =
      let (payload, sig, ep, es, truth, p) = post_judge-Passed a r s h in
      let k = key_or_default r.key_id in
      let s' = (post_judge std nonces parts a r s).1 in
      let (km, e, found, good) = Passed-key a payload sig k s s' p in
      headers-judged a payload sig n' t' r s' ep es truth range (
        verify-judged a payload sig k n' t' s'
          ((verify_signature_safe_iff std a.world payload sig k true s'.keys).1
            (km, ap (λ x. x.0) e, good))
          p.reached window unseen)
