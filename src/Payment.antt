-- ===== src/Payment.antt =====
-- backend/internal/payment: the payment lifecycle, and the service that confirms and books orders.
pub mod Lifecycle
pub mod Create
pub mod Input
pub mod Intent
pub mod Payee
pub mod Reasons
pub mod Outbox
pub mod Booking
pub mod Service
pub mod Standing
