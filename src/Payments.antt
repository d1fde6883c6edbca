-- ===== src/Payments.antt =====
-- lib/payments: the channels.
pub mod ChannelCodes
pub mod Routes
