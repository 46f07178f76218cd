-- ===== src/Task/Approval/Change.antt =====
-- packages/domain/src/task/task-approval-service.ts: `removeTask`, `invalidateApproval`, `replaceTask`.
pub mod Remove
pub mod Invalidate
pub mod Replace
pub mod Replacement
