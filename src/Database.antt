-- ===== src/Database.antt =====
-- backend/internal/platform/database and backend/postgres/sqlc: tables, queries and transactions.
pub mod Tables
pub mod Tx
pub mod Queries
pub mod Ledger
pub mod LedgerRepository
