-- ===== src/Metering.antt =====
-- apps/metering, apps/limits and apps/rating: events are ingested once, summed by the hour, held
-- against quotas and rated.

mod Tests
pub mod Ingest
pub mod Reconcile
pub mod Quota
pub mod Rating
