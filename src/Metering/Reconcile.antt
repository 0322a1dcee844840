-- ===== src/Metering/Reconcile.antt =====
-- apps/metering/watermark.py and reconcile.py: events summed by the hour, with those that come too
-- late dropped. The sums are whole numbers, exact where the code's floats are.
pub mod Buckets
pub mod Conserved
use Prim.Native.String.{◌++◌ as ◌<>◌}
use decisionos.Common.{
  ℕ, ◌+◌, ◌-◌, ◌*◌, ◌/◌, String, Bool, true, false, ◌&&◌, Option, none, some, List, [], ◌∷◌, leb,
  if◌then◌else◌,
}
use decisionos.Common.Dict.{Dict, lookup, insert}
use decisionos.Metering.Ingest.{MeterEvent, Library, filter_idempotent}

pub record WatermarkPolicy : Type 0 where
  pub max_lag_sec : ℕ
  pub drop_too_late : Bool

pub data Lateness : Type 0 where
  on_time late_kept late_dropped : Lateness

unfoldable pub classify : WatermarkPolicy → ℕ → ℕ → Lateness
classify policy event_ts now =
    if leb now event_ts
    then on_time
    else if leb (now - event_ts) policy.max_lag_sec
    then late_kept
    else late_dropped

abbrev pub floor_hour : ℕ → ℕ
floor_hour ts = ts / 3600 * 3600

pub record MeterBucket : Type 0 where
  pub tenant : String
  pub metric : String
  pub window_start : ℕ
  pub window_end : ℕ
  pub count : ℕ
  pub sum : ℕ
  pub min : ℕ
  pub max : ℕ

-- The key of an event's bucket.
abbrev pub bucket_key : Library → MeterEvent → String
bucket_key lib ev = ev.tenant <> ("|" <> (ev.metric <> ("|" <> lib.isoformat (floor_hour ev.ts))))

abbrev least : ℕ → ℕ → ℕ
least a b = if leb a b then a else b

abbrev most : ℕ → ℕ → ℕ
most a b = if leb a b then b else a

-- The event in its slot: a new one, or the one that the key has.
unfoldable pub filled : MeterEvent → Option MeterBucket → MeterBucket
filled ev none = record {
  tenant = ev.tenant;
  metric = ev.metric;
  window_start = floor_hour ev.ts;
  window_end = floor_hour ev.ts + 3600;
  count = 1;
  sum = ev.value;
  min = ev.value;
  max = ev.value;
}
filled ev (some b) = record {
  tenant = ev.tenant;
  metric = ev.metric;
  window_start = floor_hour ev.ts;
  window_end = floor_hour ev.ts + 3600;
  count = b.count + 1;
  sum = b.sum + ev.value;
  min = least b.min ev.value;
  max = most b.max ev.value;
}

abbrev pub into_bucket : Library → MeterEvent → Dict MeterBucket → Dict MeterBucket
into_bucket lib ev agg = let key = bucket_key lib ev in insert key (filled ev (lookup key agg)) agg

-- The loop of `aggregate_hourly`.
unfoldable pub sum_up : Library → List MeterEvent → Dict MeterBucket → Dict MeterBucket
sum_up lib [] agg = agg
sum_up lib (ev ∷ l) agg = sum_up lib l (into_bucket lib ev agg)

pub record ReconcileReport : Type 0 where
  pub buckets : Dict MeterBucket
  pub duplicates : ℕ

unfoldable pub aggregate_hourly : Library → List MeterEvent → ReconcileReport
aggregate_hourly lib events =
    let (uniq, dup) = filter_idempotent lib events in
    record { buckets = sum_up lib uniq []; duplicates = dup }

pub record ReconcileCounters : Type 0 where
  pub duplicates : ℕ
  pub late_kept : ℕ
  pub late_dropped : ℕ

pub record ReconcileReportV2 : Type 0 where
  pub buckets : Dict MeterBucket
  pub counters : ReconcileCounters

abbrev pub is_dropped : Lateness → Bool
is_dropped late_dropped = true
is_dropped _ = false

abbrev pub is_kept_late : Lateness → Bool
is_kept_late late_kept = true
is_kept_late _ = false

-- The loop of `aggregate_hourly_with_watermark`.
unfoldable pub sum_in_time :
    Library → WatermarkPolicy → ℕ → List MeterEvent → ReconcileReportV2 → ReconcileReportV2
sum_in_time lib policy now [] r = r
sum_in_time lib policy now (ev ∷ l) r =
    let cls = classify policy ev.ts now in
    let c = r.counters in
    let dropped : ReconcileReportV2 = record r {
      counters = record c { late_dropped = c.late_dropped + 1 };
    } in
    let kept : ReconcileReportV2 = record {
      buckets = into_bucket lib ev r.buckets;
      counters = record c { late_kept = if is_kept_late cls then c.late_kept + 1 else c.late_kept };
    } in
    sum_in_time lib policy now l (if is_dropped cls && policy.drop_too_late then dropped else kept)

unfoldable pub aggregate_hourly_with_watermark :
    Library → List MeterEvent → ℕ → WatermarkPolicy → ReconcileReportV2
aggregate_hourly_with_watermark lib events now policy =
    let (uniq, dup) = filter_idempotent lib events in
    sum_in_time lib policy now uniq (record {
      buckets = [];
      counters = record { duplicates = dup; late_kept = 0; late_dropped = 0 };
    })
