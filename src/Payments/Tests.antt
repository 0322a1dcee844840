-- ===== src/Payments/Tests.antt =====
-- The theorems on apps/payments at concrete inputs.
use decisionos.Common.{◌≡◌, refl, none, some, List, [], ◌∷◌}
use mathlib.Core.Option
use decisionos.Payments.Receipts.{generate_receipt}
use decisionos.Common.Int.{pos}
use decisionos.Common.Dict.{lookup, insert}
use decisionos.Payments.States.{authorized, captured, refunded, transition_payment, payment_allowed}
use decisionos.Payments.Models.{PaymentIntent, Charge, Refund}
use decisionos.Payments.Adapters.{get_adapter, registry, register_adapter, capture, captured_charge}
use decisionos.Payments.Service.{Repo, Draw, capture_charge}
use decisionos.Payments.Service.Safety.{capture_charge-ok}
use decisionos.Payments.Service.Links.{IsLinked, Request, create, confirm, capture_}
use decisionos.Payments.Service.Links.Runs.{run, empty, run-IsLinked}

abbrev draw : Draw
draw = record { fresh = "r1"; now = 50 }

abbrev intent : PaymentIntent
intent = record {
  id = "i1";
  org_id = "o";
  amount = pos 100;
  currency = "KRW";
  customer_ref = none;
  metadata = [];
  created_at = 1;
  state = authorized;
  payment_method = some "card";
  adapter = "stripe_stub";
}

abbrev charge : Charge
charge = record {
  id = "c1";
  intent_id = "i1";
  amount = pos 100;
  currency = "KRW";
  adapter = "stripe_stub";
  state = authorized;
  created_at = 2;
  captured_at = none;
  settled_at = none;
  receipt_id = none;
}

abbrev repo : Repo
repo = record empty { intents = ("i1", intent) ∷ []; charges = ("c1", charge) ∷ [] }

-- The charge after a capture of 80.
abbrev taken : Charge
taken = record charge {
  amount = pos 80;
  state = captured;
  captured_at = some 50;
  receipt_id = some "r1";
}

abbrev run_requests : List Request
run_requests =
    create draw "o" (pos 5) "KRW" none [] "manual_stub"
    ∷ (confirm draw "r1" "card" ∷ (capture_ draw "r1" none ∷ []))

run-IsLinked_example : IsLinked (run run_requests empty)
run-IsLinked_example = run-IsLinked run_requests

capture_charge-ok_example :
    let r' = (capture_charge draw "c1" (some (pos 80)) repo).1 in
    (intent.state ≡ authorized)
    × (taken.state ≡ captured)
    × (lookup "c1" r'.charges ≡ some taken)
    × (taken.receipt_id ≡ some "r1")
    × (Option.map (λ t. t.total) (lookup "r1" r'.receipts) ≡ some (pos 80))
    × (lookup "i1" r'.intents ≡ some (record intent { state = captured }))
unfolding capture_charge capture captured_charge transition_payment payment_allowed generate_receipt
    get_adapter registry register_adapter lookup insert
capture_charge-ok_example =
    capture_charge-ok draw "c1" (some (pos 80)) repo charge taken intent refl refl refl

abbrev refunded_charge : Refund
refunded_charge = record {
  id = "r1";
  charge_id = "c1";
  amount = pos 40;
  currency = "KRW";
  reason = none;
  state = refunded;
  created_at = 50;
  processed_at = some 50;
}

abbrev manual_intent : PaymentIntent
manual_intent = record intent { adapter = "manual_stub"; state = captured }

abbrev captured_repo : Repo
captured_repo = record repo { intents = ("i1", manual_intent) ∷ [] }
