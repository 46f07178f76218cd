-- ===== src/Github.antt =====
-- apps/worker/src/github: following the open pull requests.
pub mod Backoff
pub mod Poll
pub mod Store
pub mod Handoff
mod Tests
