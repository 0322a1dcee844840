-- ===== src/Cards.antt =====
-- apps/ops/cache: the cards of the operations pages, sent as what has changed.
mod Tests
pub mod Delta
