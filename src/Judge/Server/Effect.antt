-- ===== src/Judge/Server/Effect.antt =====
-- What POST /judge of apps/judge/server.py does to the replay store.
use decisionos.Common.{
  ◌/◌, String, ◌≡◌, ◌⊎◌, inl, inr, refl, Bool, true, false, Option, none, some, arith, Bool-cases,
  Option-cases, truthy,
}
use decisionos.Common.Int.{ℤ}
use decisionos.Judge.Keys.{Stdlib}
use decisionos.Judge.Keys.Verify.{Outcome, valid, signature_invalid, crashed, verify_signature_safe}
use decisionos.Judge.NonceStore.{NonceStore, window_sec}
use decisionos.Judge.Server.{
  Parts, Request, Ambient, Response, judged, within_clock_skew, key_or_default, Server, admit,
  verify, timed, datetime_range, headers, post_judge,
}

abbrev pub is_judged : {J : Type 0} → Response J → Bool
is_judged (judged j) = true
is_judged _ = false

-- The request names this key, this nonce and this timestamp.
pub record Names {Payload : Type 0} (r : Request Payload) (k n : String) (t : ℤ) : Type 0 where
  pub key : key_or_default r.key_id ≡ k
  pub nonce : r.nonce ≡ some n
  pub ts : r.ts_epoch ≡ some (some t)

Outcome-cases : (o : Outcome) → (o ≡ valid) ⊎ ((o ≡ signature_invalid) ⊎ (o ≡ crashed))
Outcome-cases valid = inl refl
Outcome-cases signature_invalid = inr (inl refl)
Outcome-cases crashed = inr (inr refl)

module _ {Env S : Type 0} (nonces : NonceStore Env S) where
  -- What a judgement shows: the timestamp was in the window, the store had not seen the nonce, and
  -- it has taken it in.
  pub record Fresh (a : Ambient Env) (k n : String) (t : ℤ) (before after : S) : Type 0 where
    pub in_window : within_clock_skew a.skew_at t window_sec ≡ true
    pub unseen : (nonces.seen a.env k n t (a.store_at / 1000000) before).0 ≡ false
    pub taken : after ≡ (nonces.seen a.env k n t (a.store_at / 1000000) before).1

  -- A request leaves the store alone or makes one call of it.
  abbrev pub Touched : Ambient Env → S → S → Type 0
  Touched a before after =
      (before ≡ after)
      ⊎ ((k : String) × (n : String) × (t : ℤ) × (after
            ≡ (nonces.seen a.env k n t (a.store_at / 1000000) before).1))

module _ {Payload Env S Judgement : Type 0} (std : Stdlib Payload) (nonces : NonceStore Env S)
    (parts : Payload → Parts Judgement) where
  admit-Fresh :
      (a : Ambient Env) (payload : Payload) (k n : String) (t : ℤ) (s : Server S)
      → is_judged (admit std nonces parts a payload k n t s).0 ≡ true
      → Fresh nonces a k n t s.store (admit std nonces parts a payload k n t s).1.store
  unfolding admit
  admit-Fresh a payload k n t s h = ground arith

  verify-Fresh :
      (a : Ambient Env) (payload : Payload) (sig k n : String) (t : ℤ) (s : Server S)
      → is_judged (verify std nonces parts a payload sig k n t s).0 ≡ true
      → Fresh nonces a k n t s.store (verify std nonces parts a payload sig k n t s).1.store
  unfolding verify
  verify-Fresh a payload sig k n t s h = ground (
    arith,
    admit-Fresh a payload k n t
        (record s { keys = (verify_signature_safe std a.world payload sig k true s.keys).1 }),
  )

  timed-Fresh :
      (a : Ambient Env) (payload : Payload) (sig k n : String) (t : ℤ) (s : Server S)
      → is_judged (timed std nonces parts a payload sig k n (some t) s).0 ≡ true
      → Fresh nonces a k n t s.store (timed std nonces parts a payload sig k n (some t) s).1.store
  unfolding timed
  timed-Fresh a payload sig k n t s h = elim (Bool-cases (datetime_range t)) [
    | inl e ↦ rw e (verify-Fresh a payload sig k n t s (rw e at h))
    | inr e ↦ cc (e, h)
  ]

  headers-Fresh :
      (a : Ambient Env) (payload : Payload) (r : Request Payload) (k n : String) (t : ℤ)
      (s : Server S)
      → Names r k n t
      → is_judged (headers std nonces parts a payload r s).0 ≡ true
      → Fresh nonces a k n t s.store (headers std nonces parts a payload r s).1.store
  unfolding headers
  headers-Fresh a payload r k n t s names h = elim (Option-cases r.signature) [
    | inl e ↦ ground arith
    | inr (sig, e) ↦ ground (arith, timed-Fresh a payload sig k n t s)
  ]

  pub post_judge-Fresh :
      (a : Ambient Env) (r : Request Payload) (k n : String) (t : ℤ) (s : Server S)
      → Names r k n t
      → is_judged (post_judge std nonces parts a r s).0 ≡ true
      → Fresh nonces a k n t s.store (post_judge std nonces parts a r s).1.store
  unfolding post_judge
  post_judge-Fresh a r k n t s names h = elim (Option-cases r.payload) [
    | inl e ↦ ground arith
    | inr (payload, e) ↦ ground (arith, headers-Fresh a payload r k n t s names)
  ]

  admit-Touched :
      (a : Ambient Env) (payload : Payload) (k n : String) (t : ℤ) (s : Server S)
      → Touched nonces a s.store (admit std nonces parts a payload k n t s).1.store
  unfolding admit
  admit-Touched a payload k n t s = elim (Bool-cases (within_clock_skew a.skew_at t window_sec)) [
    | inl e ↦ rw e (inr (k, n, t, refl))
    | inr e ↦ rw e (inl refl)
  ]

  verify-Touched :
      (a : Ambient Env) (payload : Payload) (sig k n : String) (t : ℤ) (s : Server S)
      → Touched nonces a s.store (verify std nonces parts a payload sig k n t s).1.store
  unfolding verify
  verify-Touched a payload sig k n t s =
      let keys' = (verify_signature_safe std a.world payload sig k true s.keys).1 in
      elim (Outcome-cases (verify_signature_safe std a.world payload sig k true s.keys).0) [
        | inl e ↦ rw (e, verify) (admit-Touched a payload k n t (record s { keys = keys' }))
        | inr o ↦ elim o [ inl e ↦ rw (e, verify) (inl refl) | inr e ↦ rw (e, verify) (inl refl) ]
      ]

  timed-Touched :
      (a : Ambient Env) (payload : Payload) (sig k n : String) (raw : Option ℤ) (s : Server S)
      → Touched nonces a s.store (timed std nonces parts a payload sig k n raw s).1.store
  unfolding timed
  timed-Touched a payload sig k n none s = inl refl
  timed-Touched a payload sig k n (some t) s = elim (Bool-cases (datetime_range t)) [
    | inl e ↦ rw e (verify-Touched a payload sig k n t s)
    | inr e ↦ rw e (inl refl)
  ]

  headers-Touched :
      (a : Ambient Env) (payload : Payload) (r : Request Payload) (s : Server S)
      → Touched nonces a s.store (headers std nonces parts a payload r s).1.store
  unfolding headers
  headers-Touched a payload r s = elim (Option-cases r.signature) [
    | inl e ↦ rw e (inl refl)
    | inr (sig, e) ↦ elim (Option-cases r.nonce) [
      | inl f ↦ rw (e, f) (inl refl)
      | inr (n, f) ↦ elim (Option-cases r.ts_epoch) [
        | inl g ↦ rw (e, f, g) (inl refl)
        | inr (raw, g) ↦ elim (Bool-cases (truthy r.signature)) [
          | inl h ↦
              rw (e, f, g)
                (rw (rw e at h) (timed-Touched a payload sig (key_or_default r.key_id) n raw s))
          | inr h ↦ rw (e, f, g) (rw (rw e at h) (inl refl))
        ]
      ]
    ]
  ]

  -- Every request leaves the store alone or makes one call of it.
  pub post_judge-Touched :
      (a : Ambient Env) (r : Request Payload) (s : Server S)
      → Touched nonces a s.store (post_judge std nonces parts a r s).1.store
  unfolding post_judge
  post_judge-Touched a r s = elim (Option-cases r.payload) [
    | inl e ↦ rw e (inl refl)
    | inr (payload, e) ↦ rw e (headers-Touched a payload r s)
  ]
