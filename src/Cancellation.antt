-- ===== src/Cancellation.antt =====
-- apps/worker/src/process/cancellation-controller.ts and apps/worker/src/runtime/job-command-worker.ts:
-- the owner stops a development attempt.
pub mod World
pub mod Persist
pub mod Controller
pub mod Commands
pub mod Signals
pub mod Stopping
pub mod Running
pub mod Owned
pub mod Ended
pub mod Cancelled
mod Tests
