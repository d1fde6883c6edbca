-- ===== src/Tests/Finance.antt =====
-- The ledger and the calculations on sample entries.
use nova_pay.Base.{
  ◌≡◌, refl, String, Bool, false, some, none, [], ◌∷◌, ltb, if◌then◌else◌, arith, ◌≤◌, ◌*◌, ◌+◌,
}
use nova_pay.Base.Int.{pos, ◌-ℤ◌, ◌≤ℤ◌}
use nova_pay.Store.Schema.{
  capture_key, fee_key, refund_key, payment_capture, payment_fee, credit, debit,
}
use nova_pay.Store.Sample.{env, paid_order, merchant, refund}
use nova_pay.Finance.Ledger.{post_order, post_refund}
use nova_pay.Finance.Ledger.Upsert.{find_entry}
use nova_pay.Finance.Ledger.Laws.{posted, post_order-posted, post_order-others, post_refund-posted}
use nova_pay.Finance.Calculations.Fees.{calculate_payment_fee_snapshot, fee_bounds}
use nova_pay.Finance.Calculations.Digest.{
  FinanceDigestEntry, build_settlement_digest, settlement_balance, digest-net,
}
use nova_pay.Finance.Calculations.Balances.{
  DailyBalanceSeed, build_daily_balance_snapshots, last_closing, balance, snapshots-last_closing,
}

post_order-posted_example :
    (posted (capture_key "o2") (post_order env paid_order merchant []) ≡ some (pos 10000))
    × (posted (fee_key "o2") (post_order env paid_order merchant [])
        ≡ (if ltb 0 150 then some (pos 0 -ℤ pos 150) else none))
post_order-posted_example = post_order-posted env paid_order merchant []

post_order-others_example :
    find_entry
      (refund_key "r1")
      (post_order env paid_order merchant (post_refund env refund paid_order merchant []))
    ≡ find_entry (refund_key "r1") (post_refund env refund paid_order merchant [])
post_order-others_example =
    post_order-others env paid_order merchant (post_refund env refund paid_order merchant [])
      (refund_key "r1") (λ e. cc) (λ e. cc)

post_refund-posted_example :
    (posted
        (refund_key "r1")
        (post_refund env refund paid_order merchant (post_order env paid_order merchant []))
      ≡ some (pos 0 -ℤ pos 4000))
    × (find_entry
          (capture_key "o2")
          (post_refund env refund paid_order merchant (post_order env paid_order merchant []))
        ≡ find_entry (capture_key "o2") (post_order env paid_order merchant []))
post_refund-posted_example =
    post_refund-posted env refund paid_order merchant (post_order env paid_order merchant [])
      (capture_key "o2") (λ e. cc)

fee_bounds_example :
    let s = calculate_payment_fee_snapshot (pos 10000) (pos 150) in
    (s.fee_amount ≤ 10000)
    × (pos 0 ≤ℤ s.net_amount)
    × (10000 * s.fee_amount ≤ 10000 * 150 + 5000)
    × (10000 * 150 ≤ 10000 * s.fee_amount + 5000)
fee_bounds_example = fee_bounds 10000 150 (omega arith)

abbrev capture : FinanceDigestEntry
capture = record { type = payment_capture; direction = credit; amount = pos 10000 }

abbrev fee : FinanceDigestEntry
fee = record { type = payment_fee; direction = debit; amount = pos 150 }

digest-net_example :
    (build_settlement_digest (capture ∷ fee ∷ [])).net_amount
    ≡ settlement_balance (capture ∷ fee ∷ [])
digest-net_example = digest-net (capture ∷ fee ∷ []) (refl, (refl, tt))

abbrev day : DailyBalanceSeed
day = record {
  merchant_id = "m1";
  currency = "CNY";
  day_key = "2026-01-02";
  credit_amount = pos 10000;
  debit_amount = pos 150;
}

abbrev day_before : DailyBalanceSeed
day_before = record day { day_key = "2026-01-01"; debit_amount = pos 4000 }

abbrev never : String → String → Bool
never a b = false

snapshots-last_closing_example :
    last_closing "m1:CNY" (pos 0) (build_daily_balance_snapshots never (day ∷ day_before ∷ []))
    ≡ balance "m1:CNY" (day ∷ day_before ∷ [])
snapshots-last_closing_example = snapshots-last_closing never "m1:CNY" (day ∷ day_before ∷ [])
