-- ===== src/Feature.antt =====
-- The feature lifecycle (packages/domain/src/feature).
pub mod State
pub mod Transition
pub mod Names
pub mod Machine
mod Tests
