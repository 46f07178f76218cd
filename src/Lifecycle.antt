-- ===== src/Lifecycle.antt =====
-- The life of a feature as its owner sees it: a walk along the table of allowed transitions, one
-- version at a time; and the writes of the services and workers, in any order.
pub mod Legal
pub mod Writes
pub mod Refines
mod Tests
