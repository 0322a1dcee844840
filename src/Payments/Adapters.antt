-- ===== src/Payments/Adapters.antt =====
-- apps/payments/adapters: the registry, and the three adapters that register themselves. `fresh` is
-- the id and `now` the clock that a new record takes.

use text.Mathlib.Text.{starts_with}
use decisionos.Common.{ℕ, String, Bool, true, false, Option, none, some, [], if◌then◌else◌}
use decisionos.Common.Int.{ℤ, ltb_ℤ}
use decisionos.Common.Dict.{Dict, lookup, insert}
use decisionos.Payments.States.{
  PaymentState, authorized, captured, canceled, charge_failed, refunded,
}
use decisionos.Payments.Models.{PaymentIntent, Charge, Refund}

pub data Adapter : Type 0 where
  manual stripe generic_pg : Adapter

pub data Error : Type 0 where
  key_error value_error : String → Error
  invalid_transition : Error

abbrev pub Registry : Type 0
Registry = Dict Adapter

unfoldable pub register_adapter : String → Adapter → Registry → Registry
register_adapter name adapter registry = insert name adapter registry

-- The registry once the three modules have been imported.
unfoldable pub registry : Registry
unfolding register_adapter insert
registry =
    register_adapter "generic_pg" Adapter.generic_pg
      (register_adapter "stripe_stub" stripe (register_adapter "manual_stub" manual []))

-- `none` is the `ValueError` of `get_adapter`.
unfoldable pub get_adapter : String → Option Adapter
unfolding registry lookup
get_adapter name = lookup name registry

abbrev pub name_of : Adapter → String
name_of manual = "manual_stub"
name_of stripe = "stripe_stub"
name_of generic_pg = "generic_pg"

pub record AdapterResult : Type 0 where
  pub state : PaymentState
  pub charge : Option Charge
  pub requires_action : Bool
  pub error : Option String

-- The charge and the result that every adapter makes where it authorises.
unfoldable pub authorized_charge : Adapter → PaymentIntent → String → ℕ → Charge
authorized_charge a intent fresh now = record {
  id = fresh;
  intent_id = intent.id;
  amount = intent.amount;
  currency = intent.currency;
  adapter = name_of a;
  state = authorized;
  created_at = now;
  captured_at = none;
  settled_at = none;
  receipt_id = none;
}

abbrev approval : Adapter → PaymentIntent → String → ℕ → AdapterResult
approval a intent fresh now = record {
  state = authorized;
  charge = some (authorized_charge a intent fresh now);
  requires_action = false;
  error = none;
}

unfoldable pub authorize : Adapter → PaymentIntent → String → String → ℕ → AdapterResult
unfolding authorized_charge
authorize manual intent payment_method fresh now = approval manual intent fresh now
authorize generic_pg intent payment_method fresh now = approval generic_pg intent fresh now
authorize stripe intent payment_method fresh now =
    if starts_with payment_method "tok_fail"
    then record {
      state = charge_failed;
      charge = none;
      requires_action = false;
      error = some "card_declined";
    }
    else if starts_with payment_method "tok_3ds"
    then record {
      state = PaymentState.requires_action;
      charge = none;
      requires_action = true;
      error = none;
    }
    else approval stripe intent fresh now

-- It changes the charge that it is given, which is the one in the repository.
unfoldable pub captured_charge : Charge → ℤ → ℕ → Charge
captured_charge base amount now = record base {
  amount = amount;
  state = captured;
  captured_at = some now;
}

-- `none` is the `ValueError` `capture_amount_exceeds_intent`.
unfoldable pub capture : Adapter → PaymentIntent → Charge → ℤ → ℕ → Option Charge
unfolding captured_charge
capture manual intent charge amount now = some (captured_charge charge amount now)
capture generic_pg intent charge amount now = some (captured_charge charge amount now)
capture stripe intent charge amount now =
    if ltb_ℤ intent.amount amount then none else some (captured_charge charge amount now)

unfoldable pub new_refund : Charge → ℤ → Option String → String → ℕ → Refund
new_refund charge amount reason fresh now = record {
  id = fresh;
  charge_id = charge.id;
  amount = amount;
  currency = charge.currency;
  reason = reason;
  state = refunded;
  created_at = now;
  processed_at = some now;
}

-- `none` is the `ValueError` `refund_amount_exceeds_charge`.
unfoldable pub refund : Adapter → Charge → ℤ → Option String → String → ℕ → Option Refund
unfolding new_refund
refund manual charge amount reason fresh now = some (new_refund charge amount reason fresh now)
refund generic_pg charge amount reason fresh now = some (new_refund charge amount reason fresh now)
refund stripe charge amount reason fresh now =
    if ltb_ℤ charge.amount amount then none else some (new_refund charge amount reason fresh now)

-- `void`, of every adapter
unfoldable pub void : Adapter → PaymentIntent → AdapterResult
void a intent = record { state = canceled; charge = none; requires_action = false; error = none }
