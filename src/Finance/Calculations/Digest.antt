-- ===== src/Finance/Calculations/Digest.antt =====
-- lib/finance/calculations.ts, buildSettlementDigest.
use nova_pay.Base.{◌≡◌, List, [], ◌∷◌, ap, ◌∙◌}
use nova_pay.Base.Int.{ℤ, pos, ◌+ℤ◌, ◌-ℤ◌, int_laws, +ℤ_assoc}
use nova_pay.Base.Sort.{All}
use nova_pay.Store.Schema.{
  MerchantLedgerEntryType, payment_capture, payment_fee, refund, settlement_payout, adjustment,
  MerchantLedgerDirection, credit, debit,
}

pub record FinanceDigestEntry : Type 0 where
  pub type : MerchantLedgerEntryType
  pub direction : MerchantLedgerDirection
  pub amount : ℤ

-- The five sums of the loop.
pub record Sums : Type 0 where
  pub gross : ℤ
  pub refunds : ℤ
  pub fees : ℤ
  pub adjustments : ℤ
  pub payouts : ℤ

-- `entry.direction === "DEBIT" ? -amount : amount`
abbrev pub signed : MerchantLedgerDirection → ℤ → ℤ
signed debit amount = pos 0 -ℤ amount
signed credit amount = amount

unfoldable pub add_entry : MerchantLedgerEntryType → MerchantLedgerDirection → ℤ → Sums → Sums
add_entry payment_capture direction amount s = record s { gross = s.gross +ℤ amount }
add_entry payment_fee direction amount s = record s { fees = s.fees +ℤ amount }
add_entry refund direction amount s = record s { refunds = s.refunds +ℤ amount }
add_entry settlement_payout direction amount s = record s { payouts = s.payouts +ℤ amount }
add_entry adjustment direction amount s = record s {
  adjustments = s.adjustments +ℤ signed direction amount;
}

unfoldable pub sum_entries : List FinanceDigestEntry → Sums → Sums
sum_entries [] s = s
sum_entries (e ∷ es) s = sum_entries es (add_entry e.type e.direction e.amount s)

pub record SettlementDigest : Type 0 where
  pub gross_amount : ℤ
  pub refund_amount : ℤ
  pub fee_amount : ℤ
  pub adjustment_amount : ℤ
  pub net_amount : ℤ
  pub payout_amount : ℤ

abbrev no_sums : Sums
no_sums = record {
  gross = pos 0;
  refunds = pos 0;
  fees = pos 0;
  adjustments = pos 0;
  payouts = pos 0;
}

unfoldable pub build_settlement_digest : List FinanceDigestEntry → SettlementDigest
build_settlement_digest entries =
    let s = sum_entries entries no_sums in
    record {
      gross_amount = s.gross;
      refund_amount = s.refunds;
      fee_amount = s.fees;
      adjustment_amount = s.adjustments;
      net_amount = s.gross -ℤ s.refunds -ℤ s.fees +ℤ s.adjustments;
      payout_amount = s.payouts;
    }

-- The direction that the services give each type of entry.
abbrev pub UsualDirection : MerchantLedgerEntryType → MerchantLedgerDirection → Type 0
UsualDirection payment_capture d = d ≡ credit
UsualDirection payment_fee d = d ≡ debit
UsualDirection refund d = d ≡ debit
UsualDirection settlement_payout d = d ≡ debit
UsualDirection adjustment d = Unit

abbrev pub HasUsualDirection : FinanceDigestEntry → Type 0
HasUsualDirection e = UsualDirection e.type e.direction

-- An entry's effect on the merchant's balance; payouts do not count towards a settlement.
abbrev effect : MerchantLedgerEntryType → MerchantLedgerDirection → ℤ → ℤ
effect settlement_payout direction amount = pos 0
effect _ direction amount = signed direction amount

abbrev pub settlement_balance : List FinanceDigestEntry → ℤ
settlement_balance [] = pos 0
settlement_balance (e ∷ es) = effect e.type e.direction e.amount +ℤ settlement_balance es

abbrev net : Sums → ℤ
net s = s.gross -ℤ s.refunds -ℤ s.fees +ℤ s.adjustments

add_entry-net :
    (t : MerchantLedgerEntryType) (d : MerchantLedgerDirection) (a : ℤ) (s : Sums)
    → UsualDirection t d
    → net (add_entry t d a s) ≡ net s +ℤ effect t d a
unfolding add_entry
add_entry-net payment_capture credit a s h = omega int_laws
add_entry-net payment_capture debit a s h = cc
add_entry-net payment_fee credit a s h = cc
add_entry-net payment_fee debit a s h = omega int_laws
add_entry-net refund credit a s h = cc
add_entry-net refund debit a s h = omega int_laws
add_entry-net settlement_payout d a s h = omega int_laws
add_entry-net adjustment credit a s h = omega int_laws
add_entry-net adjustment debit a s h = omega int_laws

sum_entries-net :
    (es : List FinanceDigestEntry) (s : Sums)
    → All HasUsualDirection es
    → net (sum_entries es s) ≡ net s +ℤ settlement_balance es
unfolding sum_entries
sum_entries-net [] s h = omega int_laws
sum_entries-net (e ∷ es) s (u, h) =
    sum_entries-net es (add_entry e.type e.direction e.amount s) h
    ∙ ap (λ z. z +ℤ settlement_balance es) (add_entry-net e.type e.direction e.amount s u)
    ∙ +ℤ_assoc (net s) (effect e.type e.direction e.amount) (settlement_balance es)

-- The net amount of a settlement is the sum of the effects of its entries, credits less debits with
-- payouts left out, if each entry has the direction that the services give its type.
pub digest-net :
    (entries : List FinanceDigestEntry)
    → All HasUsualDirection entries
    → (build_settlement_digest entries).net_amount ≡ settlement_balance entries
unfolding build_settlement_digest
digest-net entries h = sum_entries-net entries no_sums h ∙ omega int_laws
