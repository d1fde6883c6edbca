-- ===== src/Finance.antt =====
-- lib/finance: fees, the merchants' ledger, settlements and balances.
pub mod Calculations
pub mod Ledger
