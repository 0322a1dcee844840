-- ===== src/Payments/Webhooks/Delivery.antt =====
-- What a delivery of a webhook does: `handle_webhook` of apps/gateway/routers/payments.py.
use decisionos.Common.{
  ℕ, ◌+◌, ◌≤◌, ◌≡◌, ◌≢◌, ◌⊎◌, inl, inr, refl, sym, String, true, Option, none, some, List, [], ◌∷◌,
  false, is_some, str_eq, All, Option-cases, Bool-cases, arith, eq_iff,
}
use mathlib.Core.Path.{subst}
use decisionos.Common.Dict.{Dict, lookup, lookup-insert-same}
use decisionos.Payments.States.{
  settled, refund_pending, refunded, refund_failed, transition_refund, refund_allowed,
}
use decisionos.Payments.Models.{PaymentIntent, Charge, Refund}
use decisionos.Payments.Idempotency.{
  IdempotencyRecord, Store, get, set, hour, lookup-set, get_keeps, set_keeps, get_found,
}
use decisionos.Payments.Service.{post_settlement, process_refund_update}
use decisionos.Payments.Webhooks.{
  Library, WebhookEnvelope, WebhookEvent, parse, is_duplicate, map_event_to_state, Gateway,
  duplicate, crashed, processed, settle_charge, update_refund, envelope_key, process,
  handle_webhook,
}

-- The event that an envelope is parsed to.
abbrev pub event_of : Library → String → String → WebhookEnvelope → Option WebhookEvent
event_of lib secret token e = (parse lib secret token e.adapter e.headers e.payload []).0

parse_event :
    (lib : Library) (secret token a : String) (h : Dict String) (p : String) (seen : Dict String)
    → (parse lib secret token a h p seen).0 ≡ (parse lib secret token a h p []).0
unfolding parse
parse_event lib secret token a h p seen = ground arith

-- Every parse notes the key of the event that it gives, so that the processor takes the event itself
-- for a duplicate, the first time too, where no other adapter has used the key.
pub parse-is_duplicate :
    (lib : Library) (secret token : String) (e : WebhookEnvelope) (seen : Dict String)
    (event : WebhookEvent)
    → (parse lib secret token e.adapter e.headers e.payload seen).0 ≡ some event
    → lookup event.idempotency_key seen ≡ none
    → is_duplicate event (parse lib secret token e.adapter e.headers e.payload seen).1 ≡ true
unfolding parse is_duplicate
parse-is_duplicate lib secret token e seen event h n = grind (arith, lookup-insert-same, eq_iff)

processed_stores :
    (now : ℕ) (key : String) (event : WebhookEvent) (g : Gateway) (name : String)
    → (process now key event g).0 ≡ processed name
    → (process now key event g).1.store ≡ set now key event.event_type g.store
unfolding process
processed_stores now key event g name h = ground arith

-- What is kept of a response that was set at a time.
abbrev kept : ℕ → String → IdempotencyRecord
kept now response = record { response = response; created_at = now }

handled_kept :
    (lib : Library) (secret token : String) (now : ℕ) (e : WebhookEnvelope) (g : Gateway)
    (event : WebhookEvent) (name : String)
    → event_of lib secret token e ≡ some event
    → (handle_webhook lib secret token now e g).0 ≡ processed name
    → lookup (envelope_key e event) (handle_webhook lib secret token now e g).1.store
      ≡ some (kept now event.event_type)
unfolding handle_webhook
handled_kept lib secret token now e g event name p h =
    let key = envelope_key e event in
    let looked : Gateway = record g {
      seen = (parse lib secret token e.adapter e.headers e.payload g.seen).1;
      store = (get now key g.store).1;
    } in
    ground (
      arith,
      parse_event lib secret token e.adapter e.headers e.payload g.seen,
      processed_stores now key event looked name,
      lookup-set now key event.event_type (get now key g.store).1,
    )

kept_duplicate :
    (lib : Library) (secret token : String) (later : ℕ) (r : IdempotencyRecord)
    (e : WebhookEnvelope) (g : Gateway) (event : WebhookEvent)
    → event_of lib secret token e ≡ some event
    → later ≤ r.created_at + hour
    → lookup (envelope_key e event) g.store ≡ some r
    → let again = handle_webhook lib secret token later e g in
      (again.0 ≡ duplicate) × (again.1.repo ≡ g.repo)
unfolding handle_webhook
kept_duplicate lib secret token later r e g event p l q = ground (
  arith,
  parse_event lib secret token e.adapter e.headers e.payload g.seen,
  get_found later (envelope_key e event) r g.store l q,
)

process_keeps :
    (now : ℕ) (k key : String) (r : IdempotencyRecord) (event : WebhookEvent) (g : Gateway)
    → str_eq k key ≡ false
    → lookup key g.store ≡ some r
    → lookup key (process now k event g).1.store ≡ some r
unfolding process
process_keeps now k key r event g n q =
    ground (arith, set_keeps now k key event.event_type r g.store n q)

-- A delivery of any other key.
other_key :
    (now : ℕ) (k key : String) (r : IdempotencyRecord) (store : Store)
    → now ≤ r.created_at + hour
    → lookup key store ≡ some r
    → is_some (get now k store).0 ≡ false
    → str_eq k key ≡ false
unfolding get
other_key now k key r store l q n = ground (arith, eq_iff k key)

handle_webhook_keeps :
    (lib : Library) (secret token key : String) (now : ℕ) (r : IdempotencyRecord)
    (e : WebhookEnvelope) (g : Gateway)
    → now ≤ r.created_at + hour
    → lookup key g.store ≡ some r
    → lookup key (handle_webhook lib secret token now e g).1.store ≡ some r
unfolding handle_webhook
handle_webhook_keeps lib secret token key now r e g l q =
    elim (Option-cases (parse lib secret token e.adapter e.headers e.payload g.seen).0) [
      | inl bad ↦ ground arith
      | inr (event, good) ↦
          let k = envelope_key e event in
          let looked : Gateway = record g {
            seen = (parse lib secret token e.adapter e.headers e.payload g.seen).1;
            store = (get now k g.store).1;
          } in
          let still = get_keeps now k key r g.store l q in
          elim (Bool-cases (is_some (get now k g.store).0)) [
            | inl found ↦ ground arith
            | inr new ↦
                let other = other_key now k key r g.store l q new in
                ground (arith, process_keeps now k key r event looked other still)
          ]
    ]

-- A delivery as the handler meets it: the secret of the adapter, the token, the time and the envelope.
pub record Delivery : Type 0 where
  pub secret : String
  pub token : String
  pub time : ℕ
  pub envelope : WebhookEnvelope

unfoldable pub deliver : Library → List Delivery → Gateway → Gateway
deliver lib [] g = g
deliver lib (d ∷ ds) g = deliver lib ds (handle_webhook lib d.secret d.token d.time d.envelope g).1

deliver_keeps :
    (lib : Library) (key : String) (r : IdempotencyRecord) (ds : List Delivery) (g : Gateway)
    → All (λ d. d.time ≤ r.created_at + hour) ds
    → lookup key g.store ≡ some r
    → lookup key (deliver lib ds g).store ≡ some r
unfolding deliver
deliver_keeps lib key r [] g l q = q
deliver_keeps lib key r (d ∷ ds) g l q =
    deliver_keeps lib key r ds (handle_webhook lib d.secret d.token d.time d.envelope g).1 l.1
      (handle_webhook_keeps lib d.secret d.token key d.time r d.envelope g l.0 q)

-- A delivery that has been processed is not processed again for an hour, whatever is delivered in the
-- meantime: after any deliveries at times up to an hour later, of this and of other keys, an envelope
-- with its key, however it is signed and parsed, is answered as a duplicate, and no payment, refund or
-- receipt changes.
pub handle_webhook-once :
    (lib : Library) (secret token secret' token' : String) (now later : ℕ) (e e' : WebhookEnvelope)
    (g : Gateway) (event event' : WebhookEvent) (name : String) (between : List Delivery)
    → event_of lib secret token e ≡ some event
    → event_of lib secret' token' e' ≡ some event'
    → envelope_key e' event' ≡ envelope_key e event
    → later ≤ now + hour
    → All (λ d. d.time ≤ now + hour) between
    → (handle_webhook lib secret token now e g).0 ≡ processed name
    → let g' = deliver lib between (handle_webhook lib secret token now e g).1 in
      let again = handle_webhook lib secret' token' later e' g' in
      (again.0 ≡ duplicate) × (again.1.repo ≡ g'.repo)
handle_webhook-once lib secret token secret' token' now later e e' g event event' name between p p'
      k l ls h =
    let first = (handle_webhook lib secret token now e g).1 in
    let r = kept now event.event_type in
    let there = handled_kept lib secret token now e g event name p h in
    let still = deliver_keeps lib (envelope_key e event) r between first ls there in
    kept_duplicate lib secret' token' later r e' (deliver lib between first) event' p' l
      (subst (λ key. lookup key (deliver lib between first).store ≡ some r) (sym k) still)

-- The events of a payment, that it has succeeded and that it has failed alike, settle the payment
-- that the charge belongs to, whatever state it was in.
pub process_settles :
    (now : ℕ) (key : String) (event : WebhookEvent) (g : Gateway) (c : Charge) (i : PaymentIntent)
    (k : String)
    → (event.event_type ≡ "payment_succeeded") ⊎ (event.event_type ≡ "payment_failed")
    → event.body.data_charge_id ≡ some k
    → k ≢ ""
    → lookup k g.repo.charges ≡ some c
    → lookup c.intent_id g.repo.intents ≡ some i
    → let (reply, g') = process now key event g in
      (reply ≡ processed event.event_type)
      × (lookup c.id g'.repo.charges ≡ some (record c { state = settled }))
      × (lookup i.id g'.repo.intents ≡ some (record i { state = settled }))
unfolding process settle_charge update_refund map_event_to_state post_settlement
process_settles now key event g c i k t d n h j = grind (arith, lookup-insert-same, eq_iff)

refund_event :
    (name : String)
    → (name ≡ "refund_succeeded") ⊎ (name ≡ "refund_failed")
    → (map_event_to_state name ≡ (none, some refunded))
      ⊎ (map_event_to_state name ≡ (none, some refund_failed))
unfolding map_event_to_state
refund_event name (inl t) = inl (rw t refl)
refund_event name (inr t) = inr (rw t refl)

-- The news that a refund was made crashes the handler where the refund is no longer pending, which
-- every refund that the adapters make is from the start; the key is not stored, so that the next
-- delivery crashes again.
pub process_crashes :
    (now : ℕ) (key : String) (event : WebhookEvent) (g : Gateway) (f : Refund) (k : String)
    → (event.event_type ≡ "refund_succeeded") ⊎ (event.event_type ≡ "refund_failed")
    → event.body.data_refund_id ≡ some k
    → k ≢ ""
    → lookup k g.repo.refunds ≡ some f
    → f.state ≢ refund_pending
    → process now key event g ≡ (crashed, g)
unfolding process settle_charge update_refund process_refund_update transition_refund refund_allowed
process_crashes now key event g f k t d n h p =
    ground (arith, refund_event event.event_type t, eq_iff k "")
