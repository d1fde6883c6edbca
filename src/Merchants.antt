-- ===== src/Merchants.antt =====
-- What is asked of a merchant.
pub mod Profile
