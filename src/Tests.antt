-- ===== src/Tests.antt =====
-- Concrete inputs, and the theorems applied to them.
mod Numbers
mod Bank
mod Transactions
mod Rules
mod Movements
mod Payments
mod Creation
mod Recurring
mod Publishing
mod Cards
