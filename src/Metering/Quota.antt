-- ===== src/Metering/Quota.antt =====
-- apps/limits/quota.py: quotas on what a tenant uses. Amounts are whole numbers of the least unit,
-- below zero where something is given back.
pub mod Decisions
use decisionos.Common.{
  ℕ, String, Bool, true, false, ◌&&◌, Option, none, some, List, [], ◌∷◌, str_eq, if◌then◌else◌,
}
use decisionos.Common.Int.{ℤ, pos, ◌+ℤ◌, ltb_ℤ}
use decisionos.Common.Dict.{Dict, lookup}

pub record QuotaRule : Type 0 where
  pub soft : ℤ
  pub hard : ℤ

abbrev pub QuotaConfig : Type 0
QuotaConfig = Dict QuotaRule

pub data Action : Type 0 where
  allow throttle deny : Action

-- A metric without a rule has infinite limits, `none`.
pub record QuotaDecision : Type 0 where
  pub metric : String
  pub used : ℤ
  pub rule : Option QuotaRule
  pub action : Action

-- An amount under the pair of a tenant and a metric.
pub record Entry : Type 0 where
  pub tenant : String
  pub metric : String
  pub amount : ℤ

-- The dict of `InMemoryQuotaState`.
abbrev pub QuotaState : Type 0
QuotaState = List Entry

abbrev pub is_of : String → String → Entry → Bool
is_of tenant metric e = str_eq e.tenant tenant && str_eq e.metric metric

unfoldable pub get : String → String → QuotaState → ℤ
get tenant metric [] = pos 0
get tenant metric (e ∷ s) = if is_of tenant metric e then e.amount else get tenant metric s

unfoldable pub put : String → String → ℤ → QuotaState → QuotaState
put tenant metric v [] = record { tenant = tenant; metric = metric; amount = v } ∷ []
put tenant metric v (e ∷ s) =
    let rest = put tenant metric v s in
    if is_of tenant metric e then record e { amount = v } ∷ s else e ∷ rest

unfoldable pub add : String → String → ℤ → QuotaState → ℤ × QuotaState
add tenant metric amount s =
    let cur = get tenant metric s +ℤ amount in (cur, put tenant metric cur s)

unfoldable pub decide_quota : ℤ → QuotaRule → Action
decide_quota used rule =
    if ltb_ℤ rule.hard used then deny else if ltb_ℤ rule.soft used then throttle else allow

abbrev pub action_for : Option QuotaRule → ℤ → Action
action_for none used = allow
action_for (some rule) used = decide_quota used rule

-- The loop of `apply_quota_batch`.
unfoldable pub apply_quota_batch :
    String → Dict ℤ → QuotaConfig → QuotaState → List QuotaDecision × QuotaState
apply_quota_batch tenant [] cfg s = ([], s)
apply_quota_batch tenant ((metric, delta) ∷ deltas) cfg s =
    let (used, s') = add tenant metric delta s in
    let (out, end) = apply_quota_batch tenant deltas cfg s' in
    let rule = lookup metric cfg in
    (record { metric = metric; used = used; rule = rule; action = action_for rule used } ∷ out, end)
