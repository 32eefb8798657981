-- ===== src/Card.antt =====
-- The virtual cards of backend/internal/card/service.go. Number has the number of a card with its check
-- digit, Secrets the packages for keyed hashes, encryption and password hashes with what is built on
-- them, Store the statements of backend/internal/platform/database/cards.go, and Service the service.
pub mod Number
pub mod Secrets
pub mod Derived
pub mod Store
pub mod Service
pub mod Steps
pub mod Reveal
pub mod Authorize
pub mod Cancel
