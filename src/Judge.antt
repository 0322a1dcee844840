-- ===== src/Judge.antt =====
-- apps/judge: the parts of the judge, one module each.
mod Tests
pub mod Replay
pub mod Redis
pub mod NonceStore
pub mod Keys
pub mod Quorum
pub mod Breaker
pub mod TokenBucket
pub mod Server
pub mod Slo
