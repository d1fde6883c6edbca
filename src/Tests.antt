-- ===== src/Tests.antt =====
-- Runs and examples on the sample database.
mod Orders
mod Callbacks
mod Finance
mod Refunds
mod Idempotency
mod Permissions
mod EasyPay
mod Create
mod Registry
mod Sealed
mod CtfBills
