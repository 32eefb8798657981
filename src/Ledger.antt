-- ===== src/Ledger.antt =====
-- backend/internal/ledger: amounts, and the posting rules of a transfer.
pub mod Money
pub mod Posting
pub mod Port
pub mod Service
