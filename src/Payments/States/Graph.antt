-- ===== src/Payments/States/Graph.antt =====
-- The diagram that the transitions of apps/payments/state_machine.py make up.
use decisionos.Common.{
  ℕ, ◌+◌, ◌≤◌, ◌<◌, ◌≡◌, ◌↔◌, ◌⊎◌, inl, inr, refl, Option, none, some, List, [], ◌∷◌, arith, length,
  Option-cases,
}
use decisionos.Payments.States.{
  PaymentState, created, requires_action, authorized, captured, settled, canceled, charge_failed,
  payment_allowed, transition_payment,
}

-- A payment goes through these states by accepted transitions, and ends in the last of them.
abbrev pub follow : PaymentState → List PaymentState → Option PaymentState
follow s [] = some s
follow s (t ∷ l) = elim (transition_payment s t) [ none ↦ none | some u ↦ follow u l ]

abbrev rank : PaymentState → ℕ
rank created = 0
rank requires_action = 1
rank authorized = 2
rank captured = 3
rank settled = 4
rank canceled = 4
rank charge_failed = 4

transition_payment-rank :
    (s t u : PaymentState) → transition_payment s t ≡ some u → (u ≡ t) × (rank s < rank u)
unfolding transition_payment payment_allowed
transition_payment-rank s t u h = ground arith

follow-rank :
    (s : PaymentState) (l : List PaymentState) (u : PaymentState)
    → follow s l ≡ some u
    → rank s + length l ≤ rank u
follow-rank s [] u h = ground arith
follow-rank s (t ∷ l) u h = elim (Option-cases (transition_payment s t)) [
  | inl e ↦ ground arith
  | inr (v, e) ↦ ground (arith, transition_payment-rank s t v e, follow-rank v l u)
]

rank_le : (u : PaymentState) → rank u ≤ 4
rank_le created = omega arith
rank_le requires_action = omega arith
rank_le _ = omega arith

-- No run of accepted transitions is longer than four.
pub follow_bounded :
    (l : List PaymentState) (u : PaymentState) → follow created l ≡ some u → length l ≤ 4
follow_bounded l u h = ground (arith, follow-rank created l u h, rank_le u)

final_ends :
    (s : PaymentState) (l : List PaymentState) (u : PaymentState)
    → rank s ≡ 4
    → follow s l ≡ some u
    → (l ≡ []) × (u ≡ s)
unfolding transition_payment payment_allowed
final_ends s [] u e h = ground arith
final_ends s (t ∷ l) u e h = ground arith

captured_settles : (l : List PaymentState) → follow captured l ≡ some settled → l ≡ settled ∷ []
unfolding transition_payment payment_allowed
captured_settles [] h = cc
captured_settles (t ∷ l) h = ground (arith, final_ends settled l settled refl)

authorized_settles :
    (l : List PaymentState) → follow authorized l ≡ some settled → l ≡ captured ∷ (settled ∷ [])
unfolding transition_payment payment_allowed
authorized_settles [] h = cc
authorized_settles (t ∷ l) h = ground (
  arith,
  captured_settles l,
  final_ends canceled l settled refl,
  final_ends charge_failed l settled refl,
)

requires_action_settles :
    (l : List PaymentState)
    → follow requires_action l ≡ some settled
    → l ≡ authorized ∷ (captured ∷ (settled ∷ []))
unfolding transition_payment payment_allowed
requires_action_settles [] h = cc
requires_action_settles (t ∷ l) h = ground (
  arith,
  authorized_settles l,
  final_ends canceled l settled refl,
  final_ends charge_failed l settled refl,
)

created_settles :
    (l : List PaymentState)
    → follow created l ≡ some settled
    → (l ≡ authorized ∷ (captured ∷ (settled ∷ [])))
      ⊎ (l ≡ requires_action ∷ (authorized ∷ (captured ∷ (settled ∷ []))))
unfolding transition_payment payment_allowed
created_settles [] h = cc
created_settles (t ∷ l) h = ground (
  arith,
  authorized_settles l,
  requires_action_settles l,
  final_ends canceled l settled refl,
  final_ends charge_failed l settled refl,
)

settled_back :
    (l : List PaymentState)
    → (l ≡ authorized ∷ (captured ∷ (settled ∷ [])))
      ⊎ (l ≡ requires_action ∷ (authorized ∷ (captured ∷ (settled ∷ []))))
    → follow created l ≡ some settled
unfolding transition_payment payment_allowed
settled_back l (inl e) = rw e refl
settled_back l (inr e) = rw e refl

-- A payment that follows the accepted transitions is settled in just two ways: authorised, captured
-- and settled, with or without an action that was required first.
pub settled_runs :
    (l : List PaymentState)
    → (follow created l ≡ some settled) ↔ (
        (l ≡ authorized ∷ (captured ∷ (settled ∷ [])))
        ⊎ (l ≡ requires_action ∷ (authorized ∷ (captured ∷ (settled ∷ [])))))
settled_runs l = (created_settles l, λ h. settled_back l h)
