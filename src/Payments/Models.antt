-- ===== src/Payments/Models.antt =====
-- apps/payments/models.py: the records of the service. Amounts are Python integers, times are ticks
-- of the clock, and ids, which the code draws from `uuid4`, are given where a record is made.
use decisionos.Common.{ℕ, String, Option}
use decisionos.Common.Int.{ℤ}
use decisionos.Common.Dict.{Dict}
use decisionos.Payments.States.{PaymentState, RefundState}

pub record PaymentIntent : Type 0 where
  pub id : String
  pub org_id : String
  pub amount : ℤ
  pub currency : String
  pub customer_ref : Option String
  pub metadata : Dict String
  pub created_at : ℕ
  pub state : PaymentState
  pub payment_method : Option String
  pub adapter : String

pub record Charge : Type 0 where
  pub id : String
  pub intent_id : String
  pub amount : ℤ
  pub currency : String
  pub adapter : String
  pub state : PaymentState
  pub created_at : ℕ
  pub captured_at : Option ℕ
  pub settled_at : Option ℕ
  pub receipt_id : Option String

pub record Refund : Type 0 where
  pub id : String
  pub charge_id : String
  pub amount : ℤ
  pub currency : String
  pub reason : Option String
  pub state : RefundState
  pub created_at : ℕ
  pub processed_at : Option ℕ

pub record Receipt : Type 0 where
  pub id : String
  pub charge_id : String
  pub org_id : String
  pub total : ℤ
  pub tax_amount : ℤ
  pub currency : String
  pub issued_at : ℕ
  pub pdf_uri : Option String
  pub json_uri : Option String
