-- ===== src/Github/Handoff.antt =====
-- apps/worker/src/github/pr-handoff-worker.ts, `handoff`, over pr-handoff-store.ts: from a developed
-- branch to a pull request. Each write commits on its own. Git and GitHub are given from outside, with a
-- state of their own; a call that throws answers `none`, and the pull requests that are asked for are
-- recorded. A handoff's operation key is its attempt's id.
pub mod Store
pub mod Worker
pub mod Steps
pub mod Created
pub mod Begun
pub mod Completed
pub mod Repeat
mod Tests
