-- ===== src/Payments/Service.antt =====
-- apps/payments/core.py: the payment service. A method takes the repository and gives its result,
-- or the exception, with the repository that it leaves: what was written before a raise stays.
mod Monad
pub mod Safety
pub mod Links
use Prim.Native.String.{◌++◌}
use decisionos.Common.{
  ℕ, String, Bool, true, false, Option, none, some, List, [], ◌∷◌, leb, str_eq, is_some,
  if◌then◌else◌,
}
use decisionos.Common.Int.{ℤ, pos, eqb_ℤ}
use decisionos.Common.Dict.{Dict, lookup, insert, has, values}
use decisionos.Payments.States.{
  PaymentState, created, requires_action, authorized, captured, settled, canceled, charge_failed,
  RefundState, transition_payment, transition_refund,
}
use decisionos.Payments.Models.{PaymentIntent, Charge, Refund, Receipt}
use decisionos.Payments.Adapters.{
  Adapter, Error, key_error, value_error, invalid_transition, AdapterResult, registry, get_adapter,
  authorize, capture, refund,
}
use decisionos.Payments.Receipts.{TaxRule, generate_receipt, default_rules}
use decisionos.Payments.Service.Monad.{◌>>=◌, ◌>>◌}
pub use decisionos.Payments.Service.Monad.{
  Repo, Result, ok, raised, M, pure, raise, gets, modify, or_raise,
}

-- What a method draws from outside: the id of a new record, and the clock.
pub record Draw : Type 0 where
  pub fresh : String
  pub now : ℕ

abbrev set_intent_state : PaymentState → PaymentIntent → PaymentIntent
set_intent_state s i = record i { state = s }

abbrev set_method : String → PaymentIntent → PaymentIntent
set_method m i = record i { payment_method = some m }

abbrev set_charge_state : PaymentState → Charge → Charge
set_charge_state s c = record c { state = s }

abbrev set_receipt : String → Charge → Charge
set_receipt k c = record c { receipt_id = some k }

abbrev set_refund_state : RefundState → Refund → Refund
set_refund_state s c = record c { state = s }

abbrev pub require_intent : String → M PaymentIntent
require_intent intent_id = do
  found ← gets (λ r. lookup intent_id r.intents)
  or_raise found (key_error "intent_not_found")

abbrev pub require_charge : String → M Charge
require_charge charge_id = do
  found ← gets (λ r. lookup charge_id r.charges)
  or_raise found (key_error "charge_not_found")

abbrev pub require_refund : String → M Refund
require_refund refund_id = do
  found ← gets (λ r. lookup refund_id r.refunds)
  or_raise found (key_error "refund_not_found")

unfoldable pub get_receipt : String → M Receipt
get_receipt receipt_id = do
  found ← gets (λ r. lookup receipt_id r.receipts)
  or_raise found (key_error "receipt_not_found")

abbrev pub adapter_of : String → M Adapter
adapter_of name = or_raise (get_adapter name) (value_error "unknown_adapter")

abbrev pub put_intent : String → PaymentIntent → M Unit
put_intent k i = modify (λ r. record r { intents = insert k i r.intents })

abbrev pub put_charge : String → Charge → M Unit
put_charge k c = modify (λ r. record r { charges = insert k c r.charges })

abbrev pub put_refund : String → Refund → M Unit
put_refund k c = modify (λ r. record r { refunds = insert k c r.refunds })

abbrev pub put_receipt : String → Receipt → M Unit
put_receipt k c = modify (λ r. record r { receipts = insert k c r.receipts })

abbrev pub new_intent :
    Draw → String → ℤ → String → Option String → Dict String → String → PaymentIntent
new_intent d org_id amount currency customer_ref metadata adapter_name = record {
  id = d.fresh;
  org_id = org_id;
  amount = amount;
  currency = currency;
  customer_ref = customer_ref;
  metadata = metadata;
  created_at = d.now;
  state = created;
  payment_method = none;
  adapter = adapter_name;
}

unfoldable pub create_intent :
    Draw → String → ℤ → String → Option String → Dict String → String → M PaymentIntent
create_intent d org_id amount currency customer_ref metadata adapter_name =
    let intent = new_intent d org_id amount currency customer_ref metadata adapter_name in
    if has adapter_name registry
    then (do put_intent d.fresh intent; pure intent)
    else raise (value_error "unknown_adapter")

abbrev put_charge_if_any : Option Charge → M Unit
put_charge_if_any none = pure tt
put_charge_if_any (some c) = put_charge c.id c

unfoldable pub confirm_intent : Draw → String → String → M PaymentIntent
confirm_intent d intent_id payment_method = do
  intent ← require_intent intent_id
  adapter ← adapter_of intent.adapter
  let result = authorize adapter intent payment_method d.fresh d.now
  state ← or_raise (transition_payment intent.state result.state) (value_error "transition")
  let confirmed = set_method payment_method (set_intent_state state intent)
  put_intent confirmed.id confirmed
  put_charge_if_any result.charge
  pure confirmed

-- `amount or charge.amount`
abbrev pub desired_amount : Option ℤ → Charge → ℤ
desired_amount none charge = charge.amount
desired_amount (some a) charge = if eqb_ℤ a (pos 0) then charge.amount else a

-- `if charge.state == PaymentState.CAPTURED: ...`
abbrev issue_receipt : Draw → PaymentIntent → Charge → PaymentState → M Charge
issue_receipt d intent charge captured = do
  let receipt = generate_receipt default_rules intent charge "KR" d.fresh d.now
  let receipted = set_receipt receipt.id charge
  put_charge receipted.id receipted
  put_receipt receipt.id receipt
  pure receipted
issue_receipt d intent charge _ = pure charge

-- The adapter changes the charge of the repository itself, so the first `put_charge` is there before
-- the transition is checked.
unfoldable pub capture_charge : Draw → String → Option ℤ → M Charge
capture_charge d charge_id amount = do
  charge ← require_charge charge_id
  intent ← require_intent charge.intent_id
  adapter ← adapter_of intent.adapter
  result ←
      or_raise (capture adapter intent charge (desired_amount amount charge) d.now)
        (value_error "capture_amount_exceeds_intent")
  put_charge charge_id result
  state ← or_raise (transition_payment intent.state result.state) (value_error "transition")
  let moved = set_intent_state state intent
  put_charge result.id result
  put_intent moved.id moved
  issue_receipt d moved result result.state

unfoldable pub refund_charge : Draw → String → ℤ → Option String → M Refund
refund_charge d charge_id amount reason = do
  charge ← require_charge charge_id
  intent ← require_intent charge.intent_id
  adapter ← adapter_of intent.adapter
  refunded ←
      or_raise (refund adapter charge amount reason d.fresh d.now)
        (value_error "refund_amount_exceeds_charge")
  put_refund refunded.id refunded
  pure refunded

unfoldable pub process_refund_update : String → RefundState → M Refund
process_refund_update refund_id target_state = do
  found ← require_refund refund_id
  state ← or_raise (transition_refund found.state target_state) invalid_transition
  let moved = set_refund_state state found
  put_refund moved.id moved
  pure moved

unfoldable pub post_settlement : String → M Charge
post_settlement charge_id = do
  charge ← require_charge charge_id
  let done = set_charge_state settled charge
  put_charge done.id done
  intent ← require_intent done.intent_id
  let closed = set_intent_state settled intent
  put_intent closed.id closed
  pure done

abbrev pub get_charge : String → M Charge
get_charge = require_charge

-- The last of a stable sort by `created_at`.
abbrev later : Charge → Option Charge → Charge
later c none = c
later c (some e) = if leb c.created_at e.created_at then e else c

abbrev pub latest : String → List Charge → Option Charge
latest intent_id [] = none
latest intent_id (c ∷ l) =
    let rest = latest intent_id l in
    if str_eq c.intent_id intent_id then some (later c rest) else rest

unfoldable pub latest_charge_for_intent : String → M (Option Charge)
latest_charge_for_intent intent_id = gets (λ r. latest intent_id (values r.charges))
