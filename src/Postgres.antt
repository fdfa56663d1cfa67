-- ===== src/Postgres.antt =====
-- internal/persistence/postgres over the tables of the migrations 00003 to 00005.
pub mod Tables
pub mod Transactions
pub mod Wallets
pub mod Users
pub mod Migrate
pub mod Pool
pub mod SyncState
pub mod AuditLog
