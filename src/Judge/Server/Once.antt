-- ===== src/Judge/Server/Once.antt =====
-- POST /judge of apps/judge/server.py: no request is judged twice.
use native.Mathlib.Decide.{dec_le}
use decisionos.Common.{
  ℕ, ◌+◌, ◌*◌, ◌/◌, ◌≤◌, String, ◌≡◌, ◌⊎◌, inl, inr, true, false, List, [], ◌∷◌, arith, Bool-cases,
}
use decisionos.Common.Int.{ℤ, pos, pos_part, neg_part, ◌≤ℤ◌, ◌+ℤ◌, int_laws}
use decisionos.Judge.Keys.{Stdlib}
use decisionos.Judge.NonceStore.{NonceStore, window_sec, hold_sec}
use decisionos.Judge.Server.{Parts, Request, Ambient, within_clock_skew, Server, post_judge}
use decisionos.Judge.Server.Effect.{
  is_judged, Names, Fresh, Touched, post_judge-Fresh, post_judge-Touched,
}

-- The clock does not run backwards, and a request takes at most 300 s between its two readings.
pub record Clocked {Env : Type 0} (c : ℕ) (a : Ambient Env) : Type 0 where
  pub later : c ≤ a.skew_at
  pub ordered : a.skew_at ≤ a.store_at
  pub prompt : a.store_at ≤ a.skew_at + 300000000

skew_bounds :
    (d : ℕ) (t : ℤ)
    → within_clock_skew d t window_sec ≡ true
    → (d + neg_part t * 1000000 ≤ pos_part t * 1000000 + 90000000)
      × (pos_part t * 1000000 ≤ d + neg_part t * 1000000 + 90000000)
unfolding within_clock_skew
skew_bounds d t h = ground arith

late_cases : (now : ℕ) (u : ℤ) → (pos now ≤ℤ u) ⊎ ¬ (pos now ≤ℤ u)
late_cases now u = elim (dec_le (now + neg_part u) (pos_part u)) [
  | yes p ↦ inl (omega arith)
  | no p ↦ inr (omega arith)
]

module _ {Env S : Type 0} (nonces : NonceStore Env S) where
  -- At time `c` the nonce is in the store, or its timestamp is too old for any later request.
  abbrev Spent : String → String → ℤ → ℕ → S → Type 0
  Spent k n t c s = nonces.Remembers k n t s ⊎ ¬ (pos (c / 1000000) ≤ℤ t +ℤ pos hold_sec)

  Fresh-Spent :
      (a : Ambient Env) (k n : String) (t : ℤ) (c : ℕ) (s s' : S)
      → Clocked c a
      → Fresh nonces a k n t s s'
      → Spent k n t a.store_at s'
  Fresh-Spent a k n t c s s' clock fresh =
      elim (late_cases (a.store_at / 1000000) (t +ℤ pos hold_sec)) [
        | inl p ↦ inl (
            rw fresh.taken (
              nonces.remembers_new a.env k n t (a.store_at / 1000000) s fresh.unseen
                (omega (arith, skew_bounds a.skew_at t fresh.in_window)) p))
        | inr p ↦ inr p
      ]

  Spent-Touched :
      (a : Ambient Env) (k n : String) (t : ℤ) (c : ℕ) (s s' : S)
      → Clocked c a
      → Touched nonces a s s'
      → Spent k n t c s
      → Spent k n t a.store_at s'
  Spent-Touched a k n t c s s' clock (inl e) (inl r) = inl (rw (← e) r)
  Spent-Touched a k n t c s s' clock (inl e) (inr p) = inr (omega arith)
  Spent-Touched a k n t c s s' clock (inr (k', n', t', e)) (inr p) = inr (omega arith)
  Spent-Touched a k n t c s s' clock (inr (k', n', t', e)) (inl r) =
      elim (late_cases (a.store_at / 1000000) (t +ℤ pos hold_sec)) [
        | inl p ↦
            inl (rw e (nonces.remembers_kept a.env k n k' n' t t' (a.store_at / 1000000) s r p))
        | inr p ↦ inr p
      ]

  Spent-Fresh :
      (a : Ambient Env) (k n : String) (t : ℤ) (c : ℕ) (s s' : S)
      → Clocked c a
      → Spent k n t c s
      → ¬ Fresh nonces a k n t s s'
  Spent-Fresh a k n t c s s' clock (inl r) fresh =
      elim (late_cases (a.store_at / 1000000) (t +ℤ pos hold_sec)) [
        | inl p ↦ cc (nonces.refuses a.env k n t t (a.store_at / 1000000) s r p, fresh.unseen)
        | inr p ↦ absurd (omega (int_laws, skew_bounds a.skew_at t fresh.in_window))
      ]
  Spent-Fresh a k n t c s s' clock (inr p) fresh =
      absurd (omega (int_laws, skew_bounds a.skew_at t fresh.in_window))

module _ {Payload Env S Judgement : Type 0} (std : Stdlib Payload) (nonces : NonceStore Env S)
    (parts : Payload → Parts Judgement) where
  -- The server's state after some requests, and the clock after them.
  abbrev pub serve : List (Ambient Env × Request Payload) → Server S → Server S
  serve [] s = s
  serve ((a, r) ∷ l) s = serve l (post_judge std nonces parts a r s).1

  abbrev pub clock_after : ℕ → List (Ambient Env × Request Payload) → ℕ
  clock_after c [] = c
  clock_after c ((a, r) ∷ l) = clock_after a.store_at l

  abbrev pub AllClocked : ℕ → List (Ambient Env × Request Payload) → Type 0
  AllClocked c [] = Unit
  AllClocked c ((a, r) ∷ l) = Clocked c a × AllClocked a.store_at l

  serve-Spent :
      (k n : String) (t : ℤ) (l : List (Ambient Env × Request Payload)) (c : ℕ) (s : Server S)
      → AllClocked c l
      → Spent nonces k n t c s.store
      → Spent nonces k n t (clock_after c l) (serve l s).store
  serve-Spent k n t [] c s clock spent = spent
  serve-Spent k n t ((a, r) ∷ l) c s clock spent =
      serve-Spent k n t l a.store_at (post_judge std nonces parts a r s).1 clock.1 (
        Spent-Touched nonces a k n t c s.store (post_judge std nonces parts a r s).1.store clock.0
          (post_judge-Touched std nonces parts a r s) spent)

  -- With either replay store behind it, and whatever requests come between: once a request has been
  -- judged, no later request with the same key id, nonce and timestamp is judged, as long as the
  -- clock does not run backwards and no request takes more than 300 s from the test of its
  -- timestamp to the call of the store.
  pub judged_once :
      (a a' : Ambient Env) (r r' : Request Payload) (k n : String) (t : ℤ)
      (l : List (Ambient Env × Request Payload)) (c : ℕ) (s : Server S)
      → Names r k n t
      → Names r' k n t
      → Clocked c a
      → AllClocked a.store_at l
      → Clocked (clock_after a.store_at l) a'
      → is_judged (post_judge std nonces parts a r s).0 ≡ true
      → is_judged
          (post_judge std nonces parts a' r' (serve l (post_judge std nonces parts a r s).1)).0
        ≡ false
  judged_once a a' r r' k n t l c s names names' clock clocks clock' h =
      let s₁ = (post_judge std nonces parts a r s).1 in
      let s₂ = serve l s₁ in
      elim (Bool-cases (is_judged (post_judge std nonces parts a' r' s₂).0)) [
        | inr e ↦ e
        | inl e ↦ absurd (
            Spent-Fresh nonces a' k n t (clock_after a.store_at l) s₂.store
              (post_judge std nonces parts a' r' s₂).1.store clock'
              (serve-Spent k n t l a.store_at s₁ clocks (
                Fresh-Spent nonces a k n t c s.store s₁.store clock
                  (post_judge-Fresh std nonces parts a r k n t s names h)))
              (post_judge-Fresh std nonces parts a' r' k n t s₂ names' e))
      ]
