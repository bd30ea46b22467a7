-- ===== src/Couriers.antt =====
-- The courier application (couriers/).
pub mod Records
pub mod Dispatch
pub mod Ledger
pub mod Settling
pub mod Tokens
pub mod Evidence
pub mod Receipts
pub mod Asks
pub mod Payments
pub mod Webhook
