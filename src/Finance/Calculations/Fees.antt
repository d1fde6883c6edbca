-- ===== src/Finance/Calculations/Fees.antt =====
-- lib/finance/calculations.ts, calculatePaymentFeeSnapshot.
use nova_pay.Base.{ℕ, ◌+◌, ◌*◌, ◌/◌, ◌≤◌, ◌≡◌, arith}
use nova_pay.Base.Int.{ℤ, pos, ◌+ℤ◌, ◌-ℤ◌, ◌≤ℤ◌, pos_part, int_laws}

-- `Math.max(x, 0)`
abbrev pub at_least_zero : ℤ → ℕ
at_least_zero = pos_part

-- `roundMoney(amount * rate)`, for an amount in cents and a rate in ten-thousandths
unfoldable pub round_fee : ℕ → ℕ → ℕ
round_fee amount rate = (amount * rate + 5000) / 10000

pub record FeeSnapshot : Type 0 where
  pub fee_rate : ℕ
  pub fee_amount : ℕ
  pub net_amount : ℤ

unfoldable pub calculate_payment_fee_snapshot : ℤ → ℤ → FeeSnapshot
unfolding round_fee
calculate_payment_fee_snapshot amount rate =
    let gross = at_least_zero amount in
    let fee_rate = at_least_zero rate in
    let fee_amount = round_fee gross fee_rate in
    record {
      fee_rate = fee_rate;
      fee_amount = fee_amount;
      net_amount = pos gross -ℤ pos fee_amount;
    }

-- What the merchant gets and the fee make up the amount, to the cent.
pub fee-net_sum :
    (amount : ℕ) (rate : ℤ)
    → let s = calculate_payment_fee_snapshot (pos amount) rate in
      s.net_amount +ℤ pos s.fee_amount ≡ pos amount
unfolding calculate_payment_fee_snapshot
fee-net_sum amount rate = omega int_laws

mul_bound : (amount rate : ℕ) → rate ≤ 10000 → amount * rate ≤ amount * 10000
mul_bound amount rate h = grind arith

-- At a rate of at most one, the fee is at most the amount, so the merchant never pays for an order.
-- The fee is within half a cent of the exact one.
pub fee_bounds :
    (amount rate : ℕ)
    → rate ≤ 10000
    → let s = calculate_payment_fee_snapshot (pos amount) (pos rate) in
      (s.fee_amount ≤ amount)
      × (pos 0 ≤ℤ s.net_amount)
      × (10000 * s.fee_amount ≤ amount * rate + 5000)
      × (amount * rate ≤ 10000 * s.fee_amount + 5000)
unfolding calculate_payment_fee_snapshot ◌-ℤ◌
fee_bounds amount rate h = ground (arith, mul_bound amount rate h)
