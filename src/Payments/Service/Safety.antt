-- ===== src/Payments/Service/Safety.antt =====
-- What the methods of apps/payments/core.py keep, and what a raise leaves behind.
use decisionos.Common.{ℕ, ◌≡◌, ◌≢◌, inl, inr, String, Option, some, arith, Option-cases}
use mathlib.Core.Option
use decisionos.Payments.Receipts.{generate_receipt}
use decisionos.Common.Int.{ℤ, pos, ◌≤ℤ◌}
use decisionos.Common.Dict.{lookup, insert, lookup-insert-same}
use decisionos.Payments.States.{
  PaymentState, authorized, captured, transition_payment, payment_allowed,
}
use decisionos.Payments.Models.{PaymentIntent, Charge, Refund}
use decisionos.Payments.Adapters.{
  Adapter, manual, stripe, Error, value_error, capture, captured_charge, get_adapter, refund,
  new_refund,
}
use decisionos.Payments.Service.{
  Repo, ok, raised, Draw, confirm_intent, capture_charge, desired_amount, refund_charge,
}

-- A confirmation that raises leaves the repository as it was.
pub confirm_intent-raised :
    (d : Draw) (k m : String) (r : Repo) (e : Error)
    → (confirm_intent d k m r).0 ≡ raised e
    → (confirm_intent d k m r).1 ≡ r
unfolding confirm_intent
confirm_intent-raised d k m r e h = ground arith

capture-some :
    (a : Adapter) (i : PaymentIntent) (c c' : Charge) (n : ℤ) (now : ℕ)
    → capture a i c n now ≡ some c'
    → c' ≡ captured_charge c n now
unfolding capture
capture-some a i c c' n now h = ground arith

transition_captured :
    (s u : PaymentState)
    → transition_payment s captured ≡ some u
    → (s ≡ authorized) × (u ≡ captured)
unfolding transition_payment payment_allowed
transition_captured s u h = ground arith

-- A capture that succeeds takes an authorised payment to captured, and leaves in the repository the
-- captured charge with a receipt whose total is the charge's amount.
pub capture_charge-ok :
    (d : Draw) (k : String) (a : Option ℤ) (r : Repo) (c c' : Charge) (i : PaymentIntent)
    → lookup k r.charges ≡ some c
    → lookup c.intent_id r.intents ≡ some i
    → (capture_charge d k a r).0 ≡ ok c'
    → let r' = (capture_charge d k a r).1 in
      (i.state ≡ authorized)
      × (c'.state ≡ captured)
      × (lookup c'.id r'.charges ≡ some c')
      × (c'.receipt_id ≡ some d.fresh)
      × (Option.map (λ t. t.total) (lookup d.fresh r'.receipts) ≡ some c'.amount)
      × (lookup i.id r'.intents ≡ some (record i { state = captured }))
unfolding capture_charge captured_charge generate_receipt
capture_charge-ok d k a r c c' i j e h = elim (Option-cases (get_adapter i.adapter)) [
  | inl g ↦ absurd (ground arith)
  | inr (ad, g) ↦ elim (Option-cases (capture ad i c (desired_amount a c) d.now)) [
    | inl g2 ↦ absurd (ground arith)
    | inr (c2, g2) ↦ elim (Option-cases (transition_payment i.state captured)) [
      | inl g3 ↦ absurd (ground (arith, capture-some ad i c c2 (desired_amount a c) d.now g2))
      | inr (u, g3) ↦ grind (
        arith,
        lookup-insert-same,
        capture-some ad i c c2 (desired_amount a c) d.now g2,
        transition_captured i.state u g3,
      )
    ]
  ]
]

-- The manual adapter: a capture of a payment that is captured already raises, and yet it has
-- overwritten the amount of the charge.
pub capture_charge_overwrites :
    (d : Draw) (k : String) (n : ℤ) (r : Repo) (c : Charge) (i : PaymentIntent)
    → lookup k r.charges ≡ some c
    → lookup c.intent_id r.intents ≡ some i
    → get_adapter i.adapter ≡ some manual
    → i.state ≡ captured
    → n ≢ pos 0
    → let (res, r') = capture_charge d k (some n) r in
      (res ≡ raised (value_error "transition"))
      × (Option.map (λ b. b.amount) (lookup k r'.charges) ≡ some n)
      × (lookup c.intent_id r'.intents ≡ some i)
unfolding capture_charge capture captured_charge transition_payment payment_allowed
capture_charge_overwrites d k n r c i h j e s z = grind (arith, lookup-insert-same)

-- A refund that the service makes through the Stripe adapter is of the charge's amount at most; it
-- is in the repository as a refund of that charge, and nothing else has changed there.
pub refund_charge-ok :
    (d : Draw) (k : String) (n : ℤ) (why : Option String) (r : Repo) (c : Charge)
    (i : PaymentIntent) (f : Refund)
    → lookup k r.charges ≡ some c
    → lookup c.intent_id r.intents ≡ some i
    → get_adapter i.adapter ≡ some stripe
    → (refund_charge d k n why r).0 ≡ ok f
    → (f.amount ≤ℤ c.amount)
      × (f.amount ≡ n)
      × (f.charge_id ≡ c.id)
      × ((refund_charge d k n why r).1 ≡ record r { refunds = insert f.id f r.refunds })
unfolding refund_charge refund new_refund
refund_charge-ok d k n why r c i f j e g h = ground arith

-- The refunds of a charge are not added up: a refund that was made can be made again, for the same
-- amount, as a further refund.
pub refund_charge-again :
    (d d' : Draw) (k : String) (n : ℤ) (why : Option String) (r : Repo) (f : Refund)
    → (refund_charge d k n why r).0 ≡ ok f
    → (refund_charge d' k n why (refund_charge d k n why r).1).0
      ≡ ok (record f { id = d'.fresh; created_at = d'.now; processed_at = some d'.now })
unfolding refund_charge refund new_refund
refund_charge-again d d' k n why r f h = ground arith
