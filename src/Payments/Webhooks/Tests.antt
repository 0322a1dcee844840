-- ===== src/Payments/Webhooks/Tests.antt =====
-- The theorems on the webhooks of apps/payments at concrete inputs.
use decisionos.Common.{◌≡◌, refl, none, some, List, [], ◌∷◌, arith}
use decisionos.Common.Int.{pos}
use decisionos.Common.Dict.{lookup, insert}
use decisionos.Payments.States.{authorized, refunded}
use decisionos.Payments.Models.{PaymentIntent, Charge, Refund}
use decisionos.Payments.Adapters.{get_adapter, registry, register_adapter}
use decisionos.Payments.Idempotency.{get, set}
use decisionos.Payments.Service.{post_settlement}
use decisionos.Payments.Webhooks.{
  Event, Library, WebhookEnvelope, WebhookEvent, parse, verify_webhook, map_event_to_state, Gateway,
  duplicate, process, handle_webhook, settle_charge, update_refund,
}
use decisionos.Payments.Webhooks.Delivery.{Delivery, deliver, handle_webhook-once}

abbrev event : Event
event = record {
  idempotency_key = some (some "e1");
  id = none;
  type = some "payment_failed";
  data_charge_id = some "c1";
  charge_id = none;
  data_refund_id = none;
  refund_id = none;
}

-- Every text is this event.
abbrev lib : Library
lib = record { loads = λ s. some event; hmac = λ k m. m }

abbrev envelope : WebhookEnvelope
envelope = record {
  adapter = "stripe_stub";
  headers = ("Stripe-Signature", "t=1") ∷ [];
  payload = "{}";
  idempotency_key = none;
}

abbrev parsed : WebhookEvent
parsed = record {
  adapter = "stripe_stub";
  event_type = "payment_failed";
  body = event;
  idempotency_key = "e1";
}

abbrev intent : PaymentIntent
intent = record {
  id = "i1";
  org_id = "o";
  amount = pos 100;
  currency = "KRW";
  customer_ref = none;
  metadata = [];
  created_at = 1;
  state = authorized;
  payment_method = some "card";
  adapter = "stripe_stub";
}

abbrev charge : Charge
charge = record {
  id = "c1";
  intent_id = "i1";
  amount = pos 100;
  currency = "KRW";
  adapter = "stripe_stub";
  state = authorized;
  created_at = 2;
  captured_at = none;
  settled_at = none;
  receipt_id = none;
}

abbrev refund : Refund
refund = record {
  id = "f1";
  charge_id = "c1";
  amount = pos 40;
  currency = "KRW";
  reason = none;
  state = refunded;
  created_at = 50;
  processed_at = some 50;
}

abbrev gateway : Gateway
gateway = record {
  repo = record {
    intents = ("i1", intent) ∷ [];
    charges = ("c1", charge) ∷ [];
    refunds = ("f1", refund) ∷ [];
    receipts = [];
  };
  seen = [];
  store = [];
}

-- The same envelope again, and one of another key.
abbrev between : List Delivery
between =
    record { secret = ""; token = "v"; time = 150; envelope = envelope }
    ∷ record {
      secret = "";
      token = "w";
      time = 200;
      envelope = record envelope { idempotency_key = some "other" };
    }
    ∷ []

handle_webhook-once_example :
    let g' = deliver lib between (handle_webhook lib "" "t" 100 envelope gateway).1 in
    let again = handle_webhook lib "" "u" 3700 envelope g' in
    (again.0 ≡ duplicate) × (again.1.repo ≡ g'.repo)
unfolding handle_webhook parse verify_webhook get_adapter registry register_adapter lookup insert
    get set process map_event_to_state settle_charge update_refund post_settlement
handle_webhook-once_example =
    handle_webhook-once lib "" "t" "" "u" 100 3700 envelope envelope gateway parsed parsed
      "payment_failed" between refl refl refl (omega arith) (omega arith, (omega arith, tt)) refl

abbrev refund_event : WebhookEvent
refund_event = record parsed {
  event_type = "refund_succeeded";
  body = record event { type = some "refund_succeeded"; data_refund_id = some "f1" };
}
