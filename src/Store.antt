-- ===== src/Store.antt =====
-- The database that the services work on (packages/database/src): the rows, transactions, and the
-- queries and updates of the repositories.
pub mod Rows
pub mod Tx
pub mod Repositories
pub mod Inserts
