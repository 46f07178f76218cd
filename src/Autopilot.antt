-- ===== src/Autopilot.antt =====
-- packages/autopilot: the values of a parsed task file, the check of the dependencies between its
-- requirements, and the check of the whole document.
pub mod Json
pub mod Graph
pub mod Requirement
pub mod Document
mod Tests
