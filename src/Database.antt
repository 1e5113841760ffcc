-- ===== src/Database.antt =====
-- packages/cemp-database: the repositories over the local database.
pub mod Table
pub mod Errors
pub mod Leases
pub mod MessageStates
pub mod Messages
pub mod Balances
pub mod WatchedOutpoints
pub mod OutgoingTransactions
