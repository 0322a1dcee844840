-- ===== src/Metering/Tests.antt =====
-- The theorems on apps/metering and apps/limits at concrete inputs.

use decisionos.Common.{
  All, count, ℕ, ◌+◌, ◌≡◌, refl, String, true, false, List, [], ◌∷◌, length, str_eq,
}
use decisionos.Common.Int.{ℤ, pos, ◌+ℤ◌}
use decisionos.Common.Dict.{Dict, lookup}
use decisionos.Metering.Ingest.{MeterEvent, Library, filter_idempotent_with}
use decisionos.Metering.Ingest.Once.{firsts, filter_idempotent_with_lem}
use decisionos.Metering.Reconcile.{
  WatermarkPolicy, aggregate_hourly, aggregate_hourly_with_watermark,
}
use decisionos.Metering.Reconcile.Buckets.{Holds}
use decisionos.Metering.Reconcile.Conserved.{
  counted, summed, values_of, in_time, is_late, aggregate_hourly_with_watermark-conserved,
}
use decisionos.Metering.Rating.{Plan, rate_from_buckets}
use decisionos.Metering.Rating.Subtotal.{
  AllDistinct, usage_of, summed_of, total_amount, Rated, rate_from_buckets-Rated,
}
use decisionos.Metering.Quota.{QuotaConfig, QuotaState, get, apply_quota_batch}
use decisionos.Metering.Quota.Decisions.{Each, added, apply_quota_batch_lem}

-- A library whose digest is the text itself.
abbrev lib : Library
lib = record { sha256 = λ s. s; isoformat = λ n. "hour" }

abbrev event : String → ℕ → ℕ → MeterEvent
event id ts value = record { tenant = "t"; metric = "calls"; corr_id = id; ts = ts; value = value }

-- The second event is the first once more, and the last one is too late.
abbrev events : List MeterEvent
events = event "a" 7000 3 ∷ (event "a" 7000 3 ∷ (event "b" 7100 4 ∷ (event "c" 10 9 ∷ [])))

filter_idempotent_with_lem_example :
    let ((taken, dup), store') = filter_idempotent_with lib [] events in
    (taken ≡ firsts lib events [])
    × (length taken + dup ≡ 4)
    × (filter_idempotent_with lib store' events ≡ (([], 4), store'))
filter_idempotent_with_lem_example = filter_idempotent_with_lem lib [] events

abbrev policy : WatermarkPolicy
policy = record { max_lag_sec = 900; drop_too_late = true }

aggregate_hourly_with_watermark-conserved_example :
    let r = aggregate_hourly_with_watermark lib events 7200 policy in
    (counted r.buckets + r.counters.duplicates + r.counters.late_dropped ≡ 4)
    × (summed r.buckets ≡ values_of (in_time policy 7200 (firsts lib events [])))
    × ((k : String) → Holds lib k (in_time policy 7200 (firsts lib events [])) (lookup k r.buckets))
    × (r.counters.late_kept ≡ count (is_late policy 7200) (firsts lib events []))
    × (true ≡ false
        → (r.buckets ≡ (aggregate_hourly lib events).buckets) × (r.counters.late_dropped ≡ 0))
aggregate_hourly_with_watermark-conserved_example =
    aggregate_hourly_with_watermark-conserved lib events 7200 policy

abbrev config : QuotaConfig
config = ("calls", record { soft = pos 5; hard = pos 8 }) ∷ []

abbrev deltas : Dict ℤ
deltas = ("calls", pos 3) ∷ (("bytes", pos 100) ∷ [])

abbrev used : QuotaState
used = record { tenant = "t"; metric = "calls"; amount = pos 6 } ∷ []

apply_quota_batch_lem_example :
    let (out, s') = apply_quota_batch "t" deltas config used in
    Each "t" config used deltas out
    × ((m : String) → get "t" m s' ≡ get "t" m used +ℤ added m deltas)
    × ((t' m : String) → str_eq "t" t' ≡ false → get t' m s' ≡ get t' m used)
unfolding lookup
apply_quota_batch_lem_example = apply_quota_batch_lem "t" deltas config used (refl, (refl, tt))

abbrev plan : Plan
plan = record {
  name = "basic";
  metrics = ("calls", record { included = 5; overage_rate = 2 }) ∷ [];
}

rate_from_buckets-Rated_example :
    let buckets = (aggregate_hourly lib events).buckets in
    let r = rate_from_buckets plan buckets in
    AllDistinct r.items
    × ((m : String) → usage_of m r.items ≡ summed_of m buckets)
    × (r.subtotal ≡ total_amount r.items)
    × All (Rated plan) r.items
rate_from_buckets-Rated_example = rate_from_buckets-Rated plan (aggregate_hourly lib events).buckets
