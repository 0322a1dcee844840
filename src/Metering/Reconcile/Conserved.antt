-- ===== src/Metering/Reconcile/Conserved.antt =====
-- No event of apps/metering/reconcile.py is lost or counted twice.

use mathlib.Core.Path.{subst}
use decisionos.Common.{
  sym, true, count, ltb, leb, ℕ, ◌+◌, ◌≡◌, refl, String, Bool, false, List, [], ◌∷◌, arith, length,
  Bool-cases, inl, inr, if◌then◌else◌, ◌&&◌,
}
use decisionos.Common.Dict.{Dict, lookup, insert}
use decisionos.Metering.Ingest.{MeterEvent, Library, filter_idempotent, filter_idempotent_with}
use decisionos.Metering.Ingest.Once.{firsts, filter_idempotent_with_lem}
use decisionos.Metering.Reconcile.Buckets.{Holds, sum_up-new_Holds}
use decisionos.Metering.Reconcile.{
  WatermarkPolicy, classify, is_dropped, is_kept_late, MeterBucket, filled, bucket_key, into_bucket,
  sum_up, aggregate_hourly, ReconcileReportV2, sum_in_time, aggregate_hourly_with_watermark,
}

-- The events of all buckets, and the values.
abbrev pub counted : Dict MeterBucket → ℕ
counted [] = 0
counted ((k, b) ∷ d) = b.count + counted d

abbrev pub summed : Dict MeterBucket → ℕ
summed [] = 0
summed ((k, b) ∷ d) = b.sum + summed d

abbrev pub values_of : List MeterEvent → ℕ
values_of [] = 0
values_of (ev ∷ l) = ev.value + values_of l

into_slot :
    (ev : MeterEvent) (key : String) (d : Dict MeterBucket)
    → (counted (insert key (filled ev (lookup key d)) d) ≡ counted d + 1)
      × (summed (insert key (filled ev (lookup key d)) d) ≡ summed d + ev.value)
unfolding insert lookup filled
into_slot ev key [] = ground arith
into_slot ev key ((k, b) ∷ d) = ground (arith, into_slot ev key d)

sum_up-conserved :
    (lib : Library) (l : List MeterEvent) (d : Dict MeterBucket)
    → (counted (sum_up lib l d) ≡ counted d + length l)
      × (summed (sum_up lib l d) ≡ summed d + values_of l)
unfolding sum_up
sum_up-conserved lib [] d = ground arith
sum_up-conserved lib (ev ∷ l) d =
    ground
      (arith, sum_up-conserved lib l (into_bucket lib ev d), into_slot ev (bucket_key lib ev) d)

-- The hourly buckets hold every event but the duplicates, whose number is reported, and their sums
-- add up to the values of the events that are the first with their key.
pub aggregate_hourly-conserved :
    (lib : Library) (l : List MeterEvent)
    → let r = aggregate_hourly lib l in
      (counted r.buckets + r.duplicates ≡ length l)
      × (summed r.buckets ≡ values_of (firsts lib l []))
unfolding aggregate_hourly filter_idempotent
aggregate_hourly-conserved lib l = ground (
  arith,
  filter_idempotent_with_lem lib [] l,
  sum_up-conserved lib (filter_idempotent_with lib [] l).0.0 [],
)

-- An event that the watermark drops: the policy drops what is too late, and its lag is over.
abbrev pub drops : WatermarkPolicy → ℕ → MeterEvent → Bool
drops policy now ev = policy.drop_too_late && ltb (ev.ts + policy.max_lag_sec) now

-- An event that is late, within the lag.
abbrev pub is_late : WatermarkPolicy → ℕ → MeterEvent → Bool
is_late policy now ev = ltb ev.ts now && leb now (ev.ts + policy.max_lag_sec)

drops-classify :
    (policy : WatermarkPolicy) (now : ℕ) (ev : MeterEvent)
    → drops policy now ev ≡ is_dropped (classify policy ev.ts now) && policy.drop_too_late
unfolding classify
drops-classify policy now ev = ground arith

is_late-classify :
    (policy : WatermarkPolicy) (now : ℕ) (ev : MeterEvent)
    → is_late policy now ev ≡ is_kept_late (classify policy ev.ts now)
unfolding classify
is_late-classify policy now ev = ground arith

late_in_time :
    (policy : WatermarkPolicy) (now : ℕ) (ev : MeterEvent)
    → drops policy now ev ≡ true
    → is_late policy now ev ≡ false
late_in_time policy now ev h = ground arith

abbrev pub in_time : WatermarkPolicy → ℕ → List MeterEvent → List MeterEvent
in_time policy now [] = []
in_time policy now (ev ∷ l) =
    let rest = in_time policy now l in if drops policy now ev then rest else ev ∷ rest

sum_in_time-conserved :
    (lib : Library) (policy : WatermarkPolicy) (now : ℕ) (l : List MeterEvent)
    (r : ReconcileReportV2)
    → let r' = sum_in_time lib policy now l r in
      (r'.buckets ≡ sum_up lib (in_time policy now l) r.buckets)
      × (r'.counters.duplicates ≡ r.counters.duplicates)
      × (r'.counters.late_dropped + length (in_time policy now l)
          ≡ r.counters.late_dropped + length l)
      × (r'.counters.late_kept ≡ r.counters.late_kept + count (is_late policy now) l)
unfolding sum_in_time sum_up
sum_in_time-conserved lib policy now [] r = ground arith
sum_in_time-conserved lib policy now (ev ∷ l) r = elim (Bool-cases (drops policy now ev)) [
  | inl e ↦ ground (
    arith,
    drops-classify policy now ev,
    late_in_time policy now ev e,
    sum_in_time-conserved lib policy now l
        (record r { counters = record r.counters { late_dropped = r.counters.late_dropped + 1 } }),
  )
  | inr e ↦ ground (
    arith,
    drops-classify policy now ev,
    is_late-classify policy now ev,
    sum_in_time-conserved lib policy now l (record {
      buckets = into_bucket lib ev r.buckets;
      counters = record r.counters {
        late_kept =
            if is_kept_late (classify policy ev.ts now)
            then r.counters.late_kept + 1
            else r.counters.late_kept;
      };
    }),
  )
]

in_time_all :
    (policy : WatermarkPolicy) (now : ℕ) (l : List MeterEvent)
    → policy.drop_too_late ≡ false
    → in_time policy now l ≡ l
in_time_all policy now [] h = refl
in_time_all policy now (ev ∷ l) h = ground (arith, in_time_all policy now l h)

-- With a watermark every event is in a bucket, or counted as a duplicate, or counted as dropped. The
-- events in the buckets are those that are the first with their key and are not dropped, as those past
-- the lag are by a policy that drops what is too late: under every key of a tenant, a metric and an hour the
-- bucket has the number, the sum, the least and the greatest value of just the events of the key, and the
-- window of their hour. The events that are late within the lag are counted, and where the policy keeps
-- what is late the buckets are those of `aggregate_hourly`.
pub aggregate_hourly_with_watermark-conserved :
    (lib : Library) (l : List MeterEvent) (now : ℕ) (policy : WatermarkPolicy)
    → let r = aggregate_hourly_with_watermark lib l now policy in
      (counted r.buckets + r.counters.duplicates + r.counters.late_dropped ≡ length l)
      × (summed r.buckets ≡ values_of (in_time policy now (firsts lib l [])))
      × ((k : String) → Holds lib k (in_time policy now (firsts lib l [])) (lookup k r.buckets))
      × (r.counters.late_kept ≡ count (is_late policy now) (firsts lib l []))
      × (policy.drop_too_late ≡ false
          → (r.buckets ≡ (aggregate_hourly lib l).buckets) × (r.counters.late_dropped ≡ 0))
unfolding aggregate_hourly_with_watermark filter_idempotent aggregate_hourly
aggregate_hourly_with_watermark-conserved lib l now policy =
    let uniq = (filter_idempotent_with lib [] l).0.0 in
    let start : ReconcileReportV2 = record {
      buckets = [];
      counters = record {
        duplicates = (filter_idempotent_with lib [] l).0.1;
        late_kept = 0;
        late_dropped = 0;
      };
    } in
    let run = sum_in_time-conserved lib policy now uniq start in
    let all = filter_idempotent_with_lem lib [] l in
    let sums = sum_up-conserved lib (in_time policy now uniq) [] in
    (
      ground (arith, run, all, sums),
      ground (arith, run, all, sums),
      λ k.
          let held = sum_up-new_Holds lib k (in_time policy now uniq) in
          subst (λ x. Holds lib k (in_time policy now (firsts lib l [])) (lookup k x)) (sym run.0)
            (subst
              (λ x.
                Holds lib k (in_time policy now x)
                  (lookup k (sum_up lib (in_time policy now uniq) [])))
              all.0 held),
      ground (arith, run, all),
      λ h. ground (arith, run, in_time_all policy now uniq h),
    )
