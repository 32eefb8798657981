-- ===== src/Account.antt =====
-- backend/internal/account: ownership of accounts, and the IBANs of the demo bank.
pub mod Ownership
pub mod Iban
