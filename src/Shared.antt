-- ===== src/Shared.antt =====
-- packages/shared: the keys that make repeated operations collapse.
pub mod OperationKey
mod Tests
