-- ===== src/Payments/Service/Links.antt =====
-- The references between the records of apps/payments/core.py.
pub mod Methods
pub mod Runs
use decisionos.Common.{
  ℕ, ◌≡◌, refl, sym, String, Bool, true, false, Option, none, some, arith, is_some, if◌then◌else◌,
  inl, inr, Bool-cases, Option-cases,
}
use mathlib.Core.Path.{subst}
use decisionos.Common.Int.{ℤ}
use decisionos.Common.Dict.{Dict, lookup, insert, has, lookup-insert, lookup-insert-same, dict_laws}
use text.Mathlib.TextEquality.{eq_iff}
use decisionos.Payments.States.{
  settled, PaymentState, RefundState, transition_refund, transition_payment,
}
use decisionos.Payments.Models.{PaymentIntent, Charge, Refund, Receipt}
use decisionos.Payments.Adapters.{
  Adapter, get_adapter, registry, authorize, authorized_charge, capture, captured_charge, refund,
  new_refund,
}
use decisionos.Payments.Receipts.{generate_receipt}
use decisionos.Payments.Service.{
  Repo, Draw, new_intent, create_intent, confirm_intent, capture_charge, refund_charge,
  process_refund_update, post_settlement,
}

-- Every record stands under its own id, every charge is of an intent that is there, and every refund
-- and every receipt of a charge that is there.
pub record IsLinked (r : Repo) : Type 0 where
  pub intent_ids : (k : String) (i : PaymentIntent) → lookup k r.intents ≡ some i → i.id ≡ k
  pub charge_ids : (k : String) (c : Charge) → lookup k r.charges ≡ some c → c.id ≡ k
  pub refund_ids : (k : String) (f : Refund) → lookup k r.refunds ≡ some f → f.id ≡ k
  pub receipt_ids : (k : String) (t : Receipt) → lookup k r.receipts ≡ some t → t.id ≡ k
  pub charge_intents :
      (k : String) (c : Charge) → lookup k r.charges ≡ some c → has c.intent_id r.intents ≡ true
  pub refund_charges :
      (k : String) (f : Refund) → lookup k r.refunds ≡ some f → has f.charge_id r.charges ≡ true
  pub receipt_charges :
      (k : String) (t : Receipt) → lookup k r.receipts ≡ some t → has t.charge_id r.charges ≡ true

-- A request to the service.
pub data Request : Type 0 where
  create : Draw → String → ℤ → String → Option String → Dict String → String → Request
  confirm : Draw → String → String → Request
  capture_ : Draw → String → Option ℤ → Request
  refund_ : Draw → String → ℤ → Option String → Request
  update : String → RefundState → Request
  settle : String → Request

-- The repository after it, whether the method returned or raised.
abbrev pub after : Request → Repo → Repo
after (create d o n cur cust m a) r = (create_intent d o n cur cust m a r).1
after (confirm d k m) r = (confirm_intent d k m r).1
after (capture_ d k n) r = (capture_charge d k n r).1
after (refund_ d k n why) r = (refund_charge d k n why r).1
after (update k s) r = (process_refund_update k s r).1
after (settle k) r = (post_settlement k r).1

module _ (r : Repo) (v : IsLinked r) where
  pub put_intent-IsLinked :
      (i : PaymentIntent) → IsLinked (record r { intents = insert i.id i r.intents })
  put_intent-IsLinked i = record {
    intent_ids = λ k j h. grind (arith, eq_iff, lookup-insert, v.intent_ids);
    charge_ids = v.charge_ids;
    refund_ids = v.refund_ids;
    receipt_ids = v.receipt_ids;
    charge_intents = λ k j h. grind (arith, eq_iff, lookup-insert, v.charge_intents);
    refund_charges = v.refund_charges;
    receipt_charges = v.receipt_charges;
  }

  pub put_charge-IsLinked :
      (c : Charge)
      → has c.intent_id r.intents ≡ true
      → IsLinked (record r { charges = insert c.id c r.charges })
  put_charge-IsLinked c e = record {
    intent_ids = v.intent_ids;
    charge_ids = λ k j h. grind (arith, eq_iff, lookup-insert, v.charge_ids);
    refund_ids = v.refund_ids;
    receipt_ids = v.receipt_ids;
    charge_intents = λ k j h. grind (arith, eq_iff, lookup-insert, v.charge_intents);
    refund_charges = λ k j h. grind (arith, eq_iff, lookup-insert, v.refund_charges);
    receipt_charges = λ k j h. grind (arith, eq_iff, lookup-insert, v.receipt_charges);
  }

  pub put_refund-IsLinked :
      (f : Refund)
      → has f.charge_id r.charges ≡ true
      → IsLinked (record r { refunds = insert f.id f r.refunds })
  put_refund-IsLinked f e = record {
    intent_ids = v.intent_ids;
    charge_ids = v.charge_ids;
    refund_ids = λ k j h. grind (arith, eq_iff, lookup-insert, v.refund_ids);
    receipt_ids = v.receipt_ids;
    charge_intents = v.charge_intents;
    refund_charges = λ k j h. grind (arith, eq_iff, lookup-insert, v.refund_charges);
    receipt_charges = v.receipt_charges;
  }

  pub put_receipt-IsLinked :
      (t : Receipt)
      → has t.charge_id r.charges ≡ true
      → IsLinked (record r { receipts = insert t.id t r.receipts })
  put_receipt-IsLinked t e = record {
    intent_ids = v.intent_ids;
    charge_ids = v.charge_ids;
    refund_ids = v.refund_ids;
    receipt_ids = λ k j h. grind (arith, eq_iff, lookup-insert, v.receipt_ids);
    charge_intents = v.charge_intents;
    refund_charges = v.refund_charges;
    receipt_charges = λ k j h. grind (arith, eq_iff, lookup-insert, v.receipt_charges);
  }

pub carry : {r r' : Repo} → r' ≡ r → IsLinked r → IsLinked r'
carry e v = subst IsLinked (sym e) v
