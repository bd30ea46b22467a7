-- ===== src/Smartfood.antt =====
-- The Telegram shop (smartfood/): the points club, the settlement of an order's points and the
-- queue of orders to dispatch.
pub mod Loyalty
pub mod PointSettlement
pub mod DispatchJobs
pub mod Cart
pub mod OrderInput
pub mod Desk
pub mod Checkout
pub mod Handling
pub mod Outbox
