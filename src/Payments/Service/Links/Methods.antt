-- ===== src/Payments/Service/Links/Methods.antt =====
-- The methods of apps/payments/core.py keep the references, all but `capture_charge`.
use decisionos.Common.{ℕ, ◌≡◌, String, Option, some, arith, inl, inr, Bool-cases, Option-cases}
use decisionos.Common.Int.{ℤ}
use decisionos.Common.Dict.{Dict, lookup, insert, has, lookup-insert-same}
use decisionos.Payments.States.{settled, RefundState, transition_refund, transition_payment}
use decisionos.Payments.Models.{PaymentIntent, Charge}
use decisionos.Payments.Adapters.{
  Adapter, get_adapter, registry, authorize, authorized_charge, refund, new_refund,
}
use decisionos.Payments.Service.{
  Repo, Draw, new_intent, create_intent, confirm_intent, refund_charge, process_refund_update,
  post_settlement,
}
use decisionos.Payments.Service.Links.{
  IsLinked, carry, put_intent-IsLinked, put_charge-IsLinked, put_refund-IsLinked,
}

pub create_intent-IsLinked :
    (d : Draw) (o : String) (n : ℤ) (cur : String) (cust : Option String) (m : Dict String)
    (a : String) (r : Repo)
    → IsLinked r
    → IsLinked (create_intent d o n cur cust m a r).1
unfolding create_intent
create_intent-IsLinked d o n cur cust m a r v = elim (Bool-cases (has a registry)) [
  | inl e ↦ rw (create_intent, e) (put_intent-IsLinked r v (new_intent d o n cur cust m a))
  | inr e ↦ rw (create_intent, e) v
]

authorize-charge :
    (a : Adapter) (i : PaymentIntent) (m fresh : String) (now : ℕ) (c : Charge)
    → (authorize a i m fresh now).charge ≡ some c
    → c.intent_id ≡ i.id
unfolding authorize authorized_charge
authorize-charge a i m fresh now c h = ground arith

pub confirm_intent-IsLinked :
    (d : Draw) (k m : String) (r : Repo) → IsLinked r → IsLinked (confirm_intent d k m r).1
unfolding confirm_intent
confirm_intent-IsLinked d k m r v = elim (Option-cases (lookup k r.intents)) [
  | inl e ↦ carry (ground arith) v
  | inr (i, e) ↦ elim (Option-cases (get_adapter i.adapter)) [
    | inl g ↦ carry (ground arith) v
    | inr (a, g) ↦
        let res = authorize a i m d.fresh d.now in
        elim (Option-cases (transition_payment i.state res.state)) [
          | inl t ↦ carry (ground arith) v
          | inr (u, t) ↦
              let i' : PaymentIntent = record i { state = u; payment_method = some m } in
              let v' = put_intent-IsLinked r v i' in
              elim (Option-cases res.charge) [
                | inl n ↦ carry (ground arith) v'
                | inr (c, n) ↦ carry (ground arith) (
                    put_charge-IsLinked (record r { intents = insert i.id i' r.intents }) v' c
                      (ground (
                        arith,
                        authorize-charge a i m d.fresh d.now c n,
                        lookup-insert-same i.id i' r.intents,
                      )))
              ]
        ]
  ]
]

pub refund_charge-IsLinked :
    (d : Draw) (k : String) (n : ℤ) (why : Option String) (r : Repo)
    → IsLinked r
    → IsLinked (refund_charge d k n why r).1
unfolding refund_charge refund new_refund
refund_charge-IsLinked d k n why r v = elim (Option-cases (lookup k r.charges)) [
  | inl e ↦ carry (ground arith) v
  | inr (c, e) ↦ elim (Option-cases (lookup c.intent_id r.intents)) [
    | inl g ↦ carry (ground arith) v
    | inr (i, g) ↦ elim (Option-cases (get_adapter i.adapter)) [
      | inl h ↦ carry (ground arith) v
      | inr (a, h) ↦ elim (Option-cases (refund a c n why d.fresh d.now)) [
        | inl t ↦ carry (ground arith) v
        | inr (f, t) ↦
            carry (ground arith) (put_refund-IsLinked r v f (ground (arith, v.charge_ids k c e)))
      ]
    ]
  ]
]

pub process_refund_update-IsLinked :
    (k : String) (s : RefundState) (r : Repo)
    → IsLinked r
    → IsLinked (process_refund_update k s r).1
unfolding process_refund_update
process_refund_update-IsLinked k s r v = elim (Option-cases (lookup k r.refunds)) [
  | inl e ↦ carry (ground arith) v
  | inr (f, e) ↦ elim (Option-cases (transition_refund f.state s)) [
    | inl g ↦ carry (ground arith) v
    | inr (s', g) ↦
        carry (ground arith)
          (put_refund-IsLinked r v (record f { state = s' }) (v.refund_charges k f e))
  ]
]

pub post_settlement-IsLinked :
    (k : String) (r : Repo) → IsLinked r → IsLinked (post_settlement k r).1
unfolding post_settlement
post_settlement-IsLinked k r v = elim (Option-cases (lookup k r.charges)) [
  | inl e ↦ carry (ground arith) v
  | inr (c, e) ↦
      let c' : Charge = record c { state = settled } in
      let v' = put_charge-IsLinked r v c' (v.charge_intents k c e) in
      elim (Option-cases (lookup c.intent_id r.intents)) [
        | inl g ↦ carry (ground arith) v'
        | inr (i, g) ↦ carry (ground arith) (
            put_intent-IsLinked (record r { charges = insert c.id c' r.charges }) v'
              (record i { state = settled }))
      ]
]
