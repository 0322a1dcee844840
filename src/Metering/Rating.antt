-- ===== src/Metering/Rating.antt =====
-- apps/rating/plans.py and engine.py: what the hourly sums cost under a plan. Usage and rates are
-- whole numbers of their least units, for which the code's floats and its rounding are exact.
pub mod Subtotal
use decisionos.Common.{ℕ, ◌+◌, ◌-◌, ◌*◌, String, Option, none, some, List, [], ◌∷◌}
use decisionos.Common.Dict.{Dict, lookup, insert, values}
use decisionos.Metering.Reconcile.{MeterBucket}

pub record MetricPlan : Type 0 where
  pub included : ℕ
  pub overage_rate : ℕ

pub record Plan : Type 0 where
  pub name : String
  pub metrics : Dict MetricPlan

pub record LineItem : Type 0 where
  pub metric : String
  pub usage : ℕ
  pub included : ℕ
  pub overage_units : ℕ
  pub overage_rate : ℕ
  pub amount : ℕ

pub record RatingResult : Type 0 where
  pub subtotal : ℕ
  pub items : List LineItem

abbrev pub or_zero : Option ℕ → ℕ
or_zero none = 0
or_zero (some n) = n

-- The loop of `_sum_usage_by_metric`.
unfoldable pub sum_usage : List MeterBucket → Dict ℕ → Dict ℕ
sum_usage [] agg = agg
sum_usage (b ∷ l) agg = sum_usage l (insert b.metric (or_zero (lookup b.metric agg) + b.sum) agg)

-- `_sum_usage_by_metric`
unfoldable pub sum_usage_by_metric : Dict MeterBucket → Dict ℕ
unfolding sum_usage
sum_usage_by_metric buckets = sum_usage (values buckets) []

-- A metric that the plan does not name costs nothing.
unfoldable pub line_item : String → ℕ → Option MetricPlan → LineItem
line_item metric used none = record {
  metric = metric;
  usage = used;
  included = 0;
  overage_units = 0;
  overage_rate = 0;
  amount = 0;
}
line_item metric used (some mp) = record {
  metric = metric;
  usage = used;
  included = mp.included;
  overage_units = used - mp.included;
  overage_rate = mp.overage_rate;
  amount = (used - mp.included) * mp.overage_rate;
}

-- The loop of `rate_from_buckets`, with the subtotal so far.
unfoldable pub rate_usage : Plan → Dict ℕ → ℕ → RatingResult
rate_usage plan [] subtotal = record { subtotal = subtotal; items = [] }
rate_usage plan ((metric, used) ∷ usage) subtotal =
    let item = line_item metric used (lookup metric plan.metrics) in
    let rest = rate_usage plan usage (subtotal + item.amount) in
    record rest { items = item ∷ rest.items }

unfoldable pub rate_from_buckets : Plan → Dict MeterBucket → RatingResult
rate_from_buckets plan buckets = rate_usage plan (sum_usage_by_metric buckets) 0
