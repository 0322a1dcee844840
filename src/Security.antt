-- ===== src/Security.antt =====
-- Security: the circuit breaker of the PII middleware (apps/security/pii_circuit_breaker.py) and the
-- rotation of signing keys (scripts/ops/key_rotation.py).
pub mod PiiBreaker
pub mod KeyRotation
mod Tests
