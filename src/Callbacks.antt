-- ===== src/Callbacks.antt =====
-- lib/callbacks/service.ts: telling merchants of orders that have ended.
pub mod Config
pub mod Claim
pub mod Plan
pub mod Dispatch
pub mod Worker
