-- ===== src/Refunds.antt =====
-- Refunds of paid orders.
pub mod Status
pub mod Amount
pub mod Notify
pub mod Service
