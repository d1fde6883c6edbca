-- ===== src/Finance/Calculations.antt =====
-- lib/finance/calculations.ts, over whole cents. The source computes in doubles and rounds every
-- result to cents; sums of cents are exact there too. A fee is rounded half up from its exact value.
pub mod Fees
pub mod Digest
pub mod Balances
