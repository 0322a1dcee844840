-- ===== src/Metering/Rating/Subtotal.antt =====
-- What the line items of apps/rating/engine.py add up to.
use decisionos.Common.{
  ℕ, ◌+◌, ◌-◌, ◌*◌, ◌≤◌, ◌≡◌, refl, sym, ◌∙◌, inl, inr, false, str_eq, eq_iff, Bool-cases,
  if◌then◌else◌, String, Option, none, some, List, [], ◌∷◌, arith, All,
}
use mathlib.Core.Path.{subst}
use decisionos.Common.Dict.{Dict, lookup, insert, values, lookup-insert, lookup-empty}
use decisionos.Metering.Reconcile.{MeterBucket}
use decisionos.Metering.Rating.{
  Plan, MetricPlan, LineItem, or_zero, sum_usage, sum_usage_by_metric, line_item, rate_usage,
  rate_from_buckets,
}

-- The usage that the items of a metric hold.
abbrev pub usage_of : String → List LineItem → ℕ
usage_of m [] = 0
usage_of m (i ∷ l) = if str_eq i.metric m then i.usage + usage_of m l else usage_of m l

-- No two items are of one metric.
abbrev pub AllDistinct : List LineItem → Type 0
AllDistinct [] = Unit {0}
AllDistinct (i ∷ l) = All (λ j. str_eq i.metric j.metric ≡ false) l × AllDistinct l

-- The sums of the buckets of a metric.
abbrev pub summed_of : String → Dict MeterBucket → ℕ
summed_of m [] = 0
summed_of m ((k, b) ∷ l) = if str_eq b.metric m then b.sum + summed_of m l else summed_of m l

abbrev pub total_amount : List LineItem → ℕ
total_amount [] = 0
total_amount (i ∷ l) = i.amount + total_amount l

lookup-sum_usage :
    (m : String) (l : Dict MeterBucket) (d : Dict ℕ)
    → or_zero (lookup m (sum_usage (values l) d)) ≡ or_zero (lookup m d) + summed_of m l
unfolding sum_usage
lookup-sum_usage m [] d = omega arith
lookup-sum_usage m ((k, b) ∷ l) d = ground (
  arith,
  lookup-sum_usage m l (insert b.metric (or_zero (lookup b.metric d) + b.sum) d),
  lookup-insert b.metric m (or_zero (lookup b.metric d) + b.sum) d,
  eq_iff b.metric m,
)

-- The keys of a dict are distinct.
IsDict : Dict ℕ → Type 0
IsDict [] = Unit {0}
IsDict ((k, v) ∷ d) = All (λ e. str_eq k e.0 ≡ false) d × IsDict d

insert-apart :
    (j k : String) (v : ℕ) (d : Dict ℕ)
    → str_eq j k ≡ false
    → All (λ e. str_eq j e.0 ≡ false) d
    → All (λ e. str_eq j e.0 ≡ false) (insert k v d)
unfolding insert
insert-apart j k v [] n a = (n, tt)
insert-apart j k v ((i, w) ∷ d) n a = elim (Bool-cases (str_eq i k)) [
  | inl y ↦ rw y a
  | inr z ↦ rw z (a.0, insert-apart j k v d n a.1)
]

insert-IsDict : (k : String) (v : ℕ) (d : Dict ℕ) → IsDict d → IsDict (insert k v d)
unfolding insert IsDict
insert-IsDict k v [] i = (tt, tt)
insert-IsDict k v ((j, w) ∷ d) i = elim (Bool-cases (str_eq j k)) [
  | inl y ↦ rw y i
  | inr z ↦ rw z (insert-apart j k v d z i.0, insert-IsDict k v d i.1)
]

sum_usage-IsDict : (l : List MeterBucket) (d : Dict ℕ) → IsDict d → IsDict (sum_usage l d)
unfolding sum_usage
sum_usage-IsDict [] d i = i
sum_usage-IsDict (b ∷ l) d i =
    sum_usage-IsDict l _ (insert-IsDict b.metric (or_zero (lookup b.metric d) + b.sum) d i)

-- A line is rated by the plan: exactly what is used past what is included, at the plan's rate, and
-- nothing where the plan does not name the metric.
abbrev pub RatedBy : Option MetricPlan → LineItem → Type 0
RatedBy none i = i.amount ≡ 0
RatedBy (some mp) i =
    (i.included ≡ mp.included)
    × (i.overage_rate ≡ mp.overage_rate)
    × (i.amount ≡ i.overage_units * mp.overage_rate)
    × (mp.included ≤ i.usage → i.usage ≡ mp.included + i.overage_units)
    × (i.usage ≤ mp.included → (i.overage_units ≡ 0) × (i.amount ≡ 0))

abbrev pub Rated : Plan → LineItem → Type 0
Rated plan i = RatedBy (lookup i.metric plan.metrics) i

sub_zero : (n a : ℕ) → n ≤ a → n - a ≡ 0
sub_zero n a h = omega arith

no_overage : (n a r : ℕ) → n ≤ a → (n - a) * r ≡ 0
no_overage n a r h = rw (sub_zero n a h) (omega arith)

line_item-RatedBy : (k : String) (n : ℕ) (p : Option MetricPlan) → RatedBy p (line_item k n p)
unfolding line_item
line_item-RatedBy k n none = refl
line_item-RatedBy k n (some mp) = (
  refl,
  refl,
  refl,
  λ h. omega arith,
  λ h. (sub_zero n mp.included h, no_overage n mp.included mp.overage_rate h),
)

metric-line_item : (k : String) (n : ℕ) (p : Option MetricPlan) → (line_item k n p).metric ≡ k
unfolding line_item
metric-line_item k n none = refl
metric-line_item k n (some mp) = refl

line_item-Rated :
    (plan : Plan) (k : String) (n : ℕ) → Rated plan (line_item k n (lookup k plan.metrics))
line_item-Rated plan k n =
    let p = lookup k plan.metrics in
    subst (λ m. RatedBy (lookup m plan.metrics) (line_item k n p)) (sym (metric-line_item k n p))
      (line_item-RatedBy k n p)

usage-line_item : (k : String) (n : ℕ) (p : Option MetricPlan) → (line_item k n p).usage ≡ n
unfolding line_item
usage-line_item k n none = refl
usage-line_item k n (some mp) = refl

lookup-other :
    (m : String) (d : Dict ℕ) → All (λ e. str_eq m e.0 ≡ false) d → or_zero (lookup m d) ≡ 0
unfolding lookup
lookup-other m [] a = refl
lookup-other m ((k, n) ∷ d) a = ground (arith, lookup-other m d a.1, eq_iff m k, eq_iff k m)

rate_usage-usage :
    (plan : Plan) (m : String) (d : Dict ℕ) (s : ℕ)
    → IsDict d
    → usage_of m (rate_usage plan d s).items ≡ or_zero (lookup m d)
unfolding rate_usage lookup IsDict
rate_usage-usage plan m [] s i = refl
rate_usage-usage plan m ((k, n) ∷ d) s i =
    let item = line_item k n (lookup k plan.metrics) in
    let rest = rate_usage-usage plan m d (s + item.amount) i.1 in
    let gone = lookup-other k d i.0 in
    let same = metric-line_item k n (lookup k plan.metrics) in
    let used = usage-line_item k n (lookup k plan.metrics) in ground (arith, eq_iff k m)

rate_usage-apart :
    (plan : Plan) (m : String) (d : Dict ℕ) (s : ℕ)
    → All (λ e. str_eq m e.0 ≡ false) d
    → All (λ j. str_eq m j.metric ≡ false) (rate_usage plan d s).items
unfolding rate_usage
rate_usage-apart plan m [] s a = tt
rate_usage-apart plan m ((k, n) ∷ d) s a = (
  subst (λ x. str_eq m x ≡ false) (sym (metric-line_item k n (lookup k plan.metrics))) a.0,
  rate_usage-apart plan m d (s + (line_item k n (lookup k plan.metrics)).amount) a.1,
)

rate_usage-AllDistinct :
    (plan : Plan) (d : Dict ℕ) (s : ℕ) → IsDict d → AllDistinct (rate_usage plan d s).items
unfolding rate_usage IsDict
rate_usage-AllDistinct plan [] s i = tt
rate_usage-AllDistinct plan ((k, n) ∷ d) s i =
    let s' = s + (line_item k n (lookup k plan.metrics)).amount in
    (
      subst (λ x. All (λ j. str_eq x j.metric ≡ false) (rate_usage plan d s').items)
          (sym (metric-line_item k n (lookup k plan.metrics))) (rate_usage-apart plan k d s' i.0),
      rate_usage-AllDistinct plan d s' i.1,
    )

rate_usage-lem :
    (plan : Plan) (d : Dict ℕ) (s : ℕ)
    → let r = rate_usage plan d s in
      (r.subtotal ≡ s + total_amount r.items) × All (Rated plan) r.items
unfolding rate_usage
rate_usage-lem plan [] s = ground arith
rate_usage-lem plan ((k, n) ∷ d) s =
    let item = line_item k n (lookup k plan.metrics) in
    let (sum, rated) = rate_usage-lem plan d (s + item.amount) in
    (ground (arith, sum), (line_item-Rated plan k n, rated))

-- A rating has at most one line item for a metric, which holds all the usage of the buckets of the
-- metric; the subtotal is the sum of the amounts, and each item is rated by the plan.
pub rate_from_buckets-Rated :
    (plan : Plan) (buckets : Dict MeterBucket)
    → let r = rate_from_buckets plan buckets in
      AllDistinct r.items
      × ((m : String) → usage_of m r.items ≡ summed_of m buckets)
      × (r.subtotal ≡ total_amount r.items)
      × All (Rated plan) r.items
unfolding rate_from_buckets sum_usage_by_metric IsDict
rate_from_buckets-Rated plan buckets =
    let i = sum_usage-IsDict (values buckets) [] tt in
    let (sum, rated) = rate_usage-lem plan (sum_usage_by_metric buckets) 0 in
    (
      rate_usage-AllDistinct plan (sum_usage_by_metric buckets) 0 i,
      λ m.
          rate_usage-usage plan m (sum_usage_by_metric buckets) 0 i
          ∙ lookup-sum_usage m buckets []
          ∙ ground (arith, lookup-empty {V = ℕ} m),
      ground (arith, sum),
      rated,
    )
