-- ===== src/Rollout.antt =====
-- The rollout of changes: the signed stage file (apps/experiment/stage_file.py) and the controllers of
-- traffic (apps/experiment/controller.py).
pub mod StageFile
pub mod Controller
mod Tests
