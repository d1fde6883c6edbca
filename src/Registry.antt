-- ===== src/Registry.antt =====
-- apps/registry: the plugin registry.
pub mod Payouts
pub mod Review
