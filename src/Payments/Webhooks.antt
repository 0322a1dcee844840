-- ===== src/Payments/Webhooks.antt =====
-- apps/payments/webhooks.py, `verify_webhook` of the adapters, and `handle_webhook` of
-- apps/gateway/routers/payments.py.
mod Tests
pub mod Delivery
use Prim.Native.String.{◌++◌}
use text.Mathlib.Text.{starts_with}
use decisionos.Common.{
  ℕ, String, Bool, true, false, Option, none, some, truthy, or_text, str_eq, is_some, if◌then◌else◌,
}
use decisionos.Common.Dict.{Dict, lookup, insert, has}
use decisionos.Payments.States.{
  PaymentState, settled, charge_failed, RefundState, refunded, refund_failed,
}
use decisionos.Payments.Adapters.{
  Adapter, manual, stripe, generic_pg, Error, key_error, value_error, invalid_transition,
  get_adapter,
}
use decisionos.Payments.Idempotency.{Store, get, set}
use decisionos.Payments.Service.{Repo, Result, ok, raised, post_settlement, process_refund_update}

-- What the code reads of an event, the object that `json.loads` gives. A key that is not there is
-- `none`, and `some none` is a null.
pub record Event : Type 0 where
  pub idempotency_key : Option (Option String)
  pub id : Option String
  pub type : Option String
  pub data_charge_id : Option String
  pub charge_id : Option String
  pub data_refund_id : Option String
  pub refund_id : Option String

-- `json.loads`, where `none` is its `ValueError`, and the hex digest of `hmac.new` with a secret.
pub record Library : Type 0 where
  pub loads : String → Option Event
  pub hmac : String → String → String

pub record WebhookEnvelope : Type 0 where
  pub adapter : String
  pub headers : Dict String
  pub payload : String
  pub idempotency_key : Option String

-- The event without the keys that the code does not read of `{"event": ..., "payload": ...}`.
abbrev no_fields : Event
no_fields = record {
  idempotency_key = none;
  id = none;
  type = none;
  data_charge_id = none;
  charge_id = none;
  data_refund_id = none;
  refund_id = none;
}

abbrev setdefault_key : String → Option (Option String) → Option (Option String)
setdefault_key token none = some (some token)
setdefault_key token (some k) = some k

abbrev with_token : String → Event → Event
with_token token e = record e { idempotency_key = setdefault_key token e.idempotency_key }

abbrev header : String → Dict String → String
header name headers = elim (lookup name headers) [ none ↦ "" | some v ↦ v ]

-- The secret of an adapter, and the token of `secrets.token_hex`.
unfoldable pub verify_webhook :
    Library → String → String → Adapter → Dict String → String → Option Event
verify_webhook lib secret token manual headers payload = some no_fields
verify_webhook lib secret token stripe headers payload =
    if starts_with (header "Stripe-Signature" headers) "t="
    then elim (lib.loads payload) [ none ↦ none | some e ↦ some (with_token token e) ]
    else none
verify_webhook lib secret token generic_pg headers payload =
    let signature = header "X-PG-Signature" headers in
    let timestamp = header "X-PG-Timestamp" headers in
    if str_eq signature ""
    then none
    else if str_eq timestamp ""
    then none
    else if str_eq (lib.hmac secret (timestamp ++ ("." ++ payload))) signature
    then lib.loads payload
    else none

pub record WebhookEvent : Type 0 where
  pub adapter : String
  pub event_type : String
  pub body : Event
  pub idempotency_key : String

abbrev or_else : {A : Type 0} → A → Option A → A
or_else default none = default
or_else default (some v) = v

-- `event.get("idempotency_key") or event.get("id")`, empty where the code has none.
abbrev event_key : Event → String
event_key e =
    let given = or_else "" (or_else none e.idempotency_key) in
    if str_eq given "" then or_else "" e.id else given

abbrev setdefault : String → String → Dict String → Dict String
setdefault key value seen = if has key seen then seen else insert key value seen

-- `none` is a `ValueError`, of the adapter or of the missing key.
unfoldable pub parse :
    Library
    → String
    → String
    → String
    → Dict String
    → String
    → Dict String
    → Option WebhookEvent × Dict String
parse lib secret token adapter_name headers payload seen = elim (get_adapter adapter_name) [
  | none ↦ (none, seen)
  | some a ↦ elim (verify_webhook lib secret token a headers payload) [
    | none ↦ (none, seen)
    | some e ↦ if str_eq (event_key e) "" then (none, seen) else (
      some (record {
        adapter = adapter_name;
        event_type = or_else "unknown" e.type;
        body = e;
        idempotency_key = event_key e;
      }),
      setdefault (event_key e) adapter_name seen,
    )
  ]
]

unfoldable pub is_duplicate : WebhookEvent → Dict String → Bool
is_duplicate event seen = elim (lookup event.idempotency_key seen) [
  | none ↦ false
  | some a ↦ str_eq a event.adapter
]

unfoldable pub map_event_to_state : String → Option PaymentState × Option RefundState
map_event_to_state event_type =
    if str_eq event_type "payment_succeeded"
    then (some settled, none)
    else if str_eq event_type "payment_failed"
    then (some charge_failed, none)
    else if str_eq event_type "refund_succeeded"
    then (none, some refunded)
    else if str_eq event_type "refund_failed"
    then (none, some refund_failed)
    else (none, none)

-- The service, `_seen` of the processor, and the idempotency store.
pub record Gateway : Type 0 where
  pub repo : Repo
  pub seen : Dict String
  pub store : Store

-- `crashed` is an exception that the handler does not catch.
pub data Reply : Type 0 where
  bad_request duplicate crashed : Reply
  processed : String → Reply

-- `a or b` on ids that may be missing; an empty one is no id.
abbrev id_or : Option String → Option String → String
id_or a b = let first = or_else "" a in if str_eq first "" then or_else "" b else first

-- A `KeyError` is swallowed, with what was written before it.
unfoldable pub settle_charge : Option PaymentState → String → Repo → Repo
settle_charge none charge_id r = r
settle_charge (some s) charge_id r =
    if str_eq charge_id "" then r else (post_settlement charge_id r).1

abbrev caught : {A : Type 0} → Result A × Repo → Bool × Repo
caught (ok a, r) = (true, r)
caught (raised (key_error e), r) = (true, r)
caught (raised (value_error e), r) = (true, r)
caught (raised invalid_transition, r) = (false, r)

-- False where the exception escapes.
unfoldable pub update_refund : Option RefundState → String → Repo → Bool × Repo
update_refund none refund_id r = (true, r)
update_refund (some s) refund_id r =
    if str_eq refund_id "" then (true, r) else caught (process_refund_update refund_id s r)

abbrev pub envelope_key : WebhookEnvelope → WebhookEvent → String
envelope_key envelope event =
    let given = or_else "" envelope.idempotency_key in
    if str_eq given "" then event.idempotency_key else given

-- What the handler does with an event that is no duplicate.
unfoldable pub process : ℕ → String → WebhookEvent → Gateway → Reply × Gateway
process now key event g =
    let states = map_event_to_state event.event_type in
    let paid =
      settle_charge states.0 (id_or event.body.data_charge_id event.body.charge_id) g.repo in
    let (fine, repo) =
      update_refund states.1 (id_or event.body.data_refund_id event.body.refund_id) paid in
    if fine
    then (
      processed event.event_type,
      record g { repo = repo; store = set now key event.event_type g.store },
    )
    else (crashed, record g { repo = repo })

unfoldable pub handle_webhook :
    Library → String → String → ℕ → WebhookEnvelope → Gateway → Reply × Gateway
handle_webhook lib secret token now envelope g =
    let (parsed, seen) =
      parse lib secret token envelope.adapter envelope.headers envelope.payload g.seen in
    let noted : Gateway = record g { seen = seen } in
    elim parsed [
      | none ↦ (bad_request, noted)
      | some event ↦
          let key = envelope_key envelope event in
          let (found, store) = get now key noted.store in
          let looked : Gateway = record noted { store = store } in
          if is_some found then (duplicate, looked) else process now key event looked
    ]
