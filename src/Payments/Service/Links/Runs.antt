-- ===== src/Payments/Service/Links/Runs.antt =====
-- `capture_charge` of apps/payments/core.py keeps the references, and so does any run of requests.
use decisionos.Common.{ℕ, ◌≡◌, String, Option, some, List, [], ◌∷◌, arith, inl, inr, Option-cases}
use decisionos.Common.Int.{ℤ}
use decisionos.Common.Dict.{lookup, insert, lookup-empty, lookup-insert-same}
use decisionos.Payments.States.{captured, PaymentState, transition_payment}
use decisionos.Payments.Models.{PaymentIntent, Charge, Refund, Receipt}
use decisionos.Payments.Adapters.{Adapter, get_adapter, capture, captured_charge}
use decisionos.Payments.Receipts.{default_rules, generate_receipt}
use decisionos.Payments.Service.{Repo, Draw, capture_charge, desired_amount}
use decisionos.Payments.Service.Links.{
  IsLinked, carry, put_intent-IsLinked, put_charge-IsLinked, put_receipt-IsLinked, Request, create,
  confirm, capture_, refund_, update, settle, after,
}
use decisionos.Payments.Service.Links.Methods.{
  create_intent-IsLinked, confirm_intent-IsLinked, refund_charge-IsLinked,
  process_refund_update-IsLinked, post_settlement-IsLinked,
}

capture-some :
    (a : Adapter) (i : PaymentIntent) (c c' : Charge) (n : ℤ) (now : ℕ)
    → capture a i c n now ≡ some c'
    → (c'.id ≡ c.id) × (c'.intent_id ≡ c.intent_id) × (c'.state ≡ captured)
unfolding capture captured_charge
capture-some a i c c' n now h = ground arith

module _ (d : Draw) (k : String) (n : Option ℤ) (r : Repo) (v : IsLinked r) (c c' : Charge)
    (i : PaymentIntent) (a : Adapter) (e : lookup k r.charges ≡ some c)
    (g : lookup c.intent_id r.intents ≡ some i) (h : get_adapter i.adapter ≡ some a)
    (t : capture a i c (desired_amount n c) d.now ≡ some c') where
  facts : (c'.id ≡ k) × (c'.intent_id ≡ c.intent_id) × (c'.state ≡ captured)
  facts = ground (arith, capture-some a i c c' (desired_amount n c) d.now t, v.charge_ids k c e)

  -- The repository after each write, in turn.
  abbrev written : Repo
  written = record r { charges = insert k c' r.charges }

  written-IsLinked : IsLinked written
  written-IsLinked =
      carry (ground (arith, facts)) (put_charge-IsLinked r v c' (ground (arith, facts)))

  abbrev rewritten : Repo
  rewritten = record written { charges = insert c'.id c' written.charges }

  rewritten-IsLinked : IsLinked rewritten
  rewritten-IsLinked = put_charge-IsLinked written written-IsLinked c' (ground (arith, facts))

  abbrev moved_intent : PaymentState → PaymentIntent
  moved_intent u = record i { state = u }

  abbrev moved : PaymentState → Repo
  moved u = record rewritten { intents = insert i.id (moved_intent u) rewritten.intents }

  moved-IsLinked : (u : PaymentState) → IsLinked (moved u)
  moved-IsLinked u = put_intent-IsLinked rewritten rewritten-IsLinked (moved_intent u)

  abbrev receipted_charge : Charge
  receipted_charge = record c' { receipt_id = some d.fresh }

  abbrev receipted : PaymentState → Repo
  receipted u = record (moved u) { charges = insert c'.id receipted_charge (moved u).charges }

  receipted-IsLinked : (u : PaymentState) → IsLinked (receipted u)
  receipted-IsLinked u = put_charge-IsLinked (moved u) (moved-IsLinked u) receipted_charge (
      ground (
        arith,
        facts,
        v.intent_ids c.intent_id i g,
        lookup-insert-same i.id (moved_intent u) rewritten.intents,
      ))

  abbrev receipt : PaymentState → Receipt
  receipt u = generate_receipt default_rules (moved_intent u) c' "KR" d.fresh d.now

  filed-IsLinked :
      (u : PaymentState)
      → IsLinked (record (receipted u) {
        receipts = insert (receipt u).id (receipt u) (receipted u).receipts;
      })
  unfolding generate_receipt
  filed-IsLinked u =
      put_receipt-IsLinked (receipted u) (receipted-IsLinked u) (receipt u)
        (ground (arith, lookup-insert-same c'.id receipted_charge (moved u).charges))

  captured-IsLinked : IsLinked (capture_charge d k n r).1
  unfolding capture_charge generate_receipt
  captured-IsLinked = elim (Option-cases (transition_payment i.state captured)) [
    | inl x ↦ carry (ground (arith, facts)) written-IsLinked
    | inr (u, x) ↦ carry (ground (arith, facts)) (filed-IsLinked u)
  ]

pub capture_charge-IsLinked :
    (d : Draw) (k : String) (n : Option ℤ) (r : Repo)
    → IsLinked r
    → IsLinked (capture_charge d k n r).1
unfolding capture_charge generate_receipt
capture_charge-IsLinked d k n r v = elim (Option-cases (lookup k r.charges)) [
  | inl e ↦ carry (ground arith) v
  | inr (c, e) ↦ elim (Option-cases (lookup c.intent_id r.intents)) [
    | inl g ↦ carry (ground arith) v
    | inr (i, g) ↦ elim (Option-cases (get_adapter i.adapter)) [
      | inl h ↦ carry (ground arith) v
      | inr (a, h) ↦ elim (Option-cases (capture a i c (desired_amount n c) d.now)) [
        | inl t ↦ carry (ground arith) v
        | inr (c', t) ↦ captured-IsLinked d k n r v c c' i a e g h t
      ]
    ]
  ]
]

-- Every request keeps the references, whether its method returns or raises.
pub after-IsLinked : (q : Request) (r : Repo) → IsLinked r → IsLinked (after q r)
after-IsLinked (create d o n cur cust m a) r v = create_intent-IsLinked d o n cur cust m a r v
after-IsLinked (confirm d k m) r v = confirm_intent-IsLinked d k m r v
after-IsLinked (capture_ d k n) r v = capture_charge-IsLinked d k n r v
after-IsLinked (refund_ d k n why) r v = refund_charge-IsLinked d k n why r v
after-IsLinked (update k s) r v = process_refund_update-IsLinked k s r v
after-IsLinked (settle k) r v = post_settlement-IsLinked k r v

-- The repository of a service that has just started.
abbrev pub empty : Repo
empty = record { intents = []; charges = []; refunds = []; receipts = [] }

empty-IsLinked : IsLinked empty
empty-IsLinked = record {
  intent_ids = λ k i h. ground (arith, lookup-empty {V = PaymentIntent} k);
  charge_ids = λ k c h. ground (arith, lookup-empty {V = Charge} k);
  refund_ids = λ k f h. ground (arith, lookup-empty {V = Refund} k);
  receipt_ids = λ k t h. ground (arith, lookup-empty {V = Receipt} k);
  charge_intents = λ k c h. ground (arith, lookup-empty {V = Charge} k);
  refund_charges = λ k f h. ground (arith, lookup-empty {V = Refund} k);
  receipt_charges = λ k t h. ground (arith, lookup-empty {V = Receipt} k);
}

abbrev pub run : List Request → Repo → Repo
run [] r = r
run (q ∷ l) r = run l (after q r)

run_from : (l : List Request) (r : Repo) → IsLinked r → IsLinked (run l r)
run_from [] r v = v
run_from (q ∷ l) r v = run_from l (after q r) (after-IsLinked q r v)

-- Whatever requests a new service serves, in any order, and whichever of them raise: every record
-- stands under its id, every charge is of an intent that is there, and every refund and every receipt
-- of a charge that is there.
pub run-IsLinked : (l : List Request) → IsLinked (run l empty)
run-IsLinked l = run_from l empty empty-IsLinked
