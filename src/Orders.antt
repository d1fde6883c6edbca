-- ===== src/Orders.antt =====
-- lib/orders: payment orders.
pub mod Status
pub mod Notify
pub mod Provider
pub mod Expiry
pub mod Close
pub mod Slots
pub mod Create
pub mod Paid
