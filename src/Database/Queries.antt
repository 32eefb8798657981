-- ===== src/Database/Queries.antt =====
-- The statements of backend/postgres/sqlc. Each is one call of the server, which may fail; `:one`
-- gives `sql.ErrNoRows` when no row fits. A row lock (FOR UPDATE) changes no value.
pub mod Accounts
pub mod Entries
pub mod Orders
pub mod Payees
pub mod Standing
pub mod Users
