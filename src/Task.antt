-- ===== src/Task.antt =====
-- The task artifact of a feature: attachment, approval and queueing (packages/domain/src/task).
pub mod Approval
mod Tests
