-- ===== src/Change.antt =====
-- The governance of changes: signed policy files (apps/common/policy_loader.py), and freeze windows
-- and break-glass manifests (apps/ops/freeze.py); the approvals of policies
-- (scripts/ci/check_multisig.py), with the patterns of their files in Globs.
pub mod PolicyLoader
pub mod BreakGlass
pub mod Windows
pub mod Freeze
pub mod Globs
pub mod Multisig
mod Tests
