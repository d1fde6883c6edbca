-- ===== src/EasyPay.antt =====
-- lib/easypay: orders that came in by the EasyPay protocol, and how their merchants are told.
pub mod Marker
pub mod Notify
pub mod Sign
