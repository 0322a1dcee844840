-- ===== src/Policy.antt =====
-- apps/policy: the parts of the policy engine, one module each.
mod Tests
pub mod Pdp
pub mod Pep
pub mod Rbac
