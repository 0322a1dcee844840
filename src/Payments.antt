-- ===== src/Payments.antt =====
-- apps/payments: the payment service, one module for each of its parts.
mod Tests
pub mod States
pub mod Models
pub mod Adapters
pub mod Receipts
pub mod Idempotency
pub mod Service
pub mod Webhooks
