-- ===== src/Registry/Payouts/Memory.antt =====
-- createInMemoryBalanceLedger of apps/registry/lib/payouts/balance-ledger.ts.
use nova_pay.Base.{
  ℕ, String, Bool, not, Option, none, some, List, [], ◌∷◌, ◌++◌, str_eq, if◌then◌else◌,
}
use nova_pay.Base.Int.{pos, ltb_ℤ}
use nova_pay.Base.Rows.{find, update_first}
use nova_pay.Registry.Payouts.{
  LedgerEntry, PayoutRequest, BalanceSnapshot, CreditInput, PayoutInput, PayoutAnswer, success,
  refused, insufficient_balance, invalid_amount, not_found, invalid_state, approved, rejected,
  is_pending_review, entry_of, pending_of, compute_held_credits_from_entries, snapshot, new_entry,
  new_request, debit_entry,
}
use nova_pay.Registry.Payouts.Sums.{sum_if}

pub record MemoryLedger : Type 0 where
  pub entries : List LedgerEntry
  pub payouts : List PayoutRequest
  pub seen_refs : List String

unfoldable pub has_ref : String → List String → Bool
has_ref ref [] = Bool.false
has_ref ref (r ∷ refs) = if str_eq r ref then Bool.true else has_ref ref refs

unfoldable pub compute_balance : MemoryLedger → String → String → ℕ → ℕ → BalanceSnapshot
compute_balance s developer currency hold_days now =
    snapshot (sum_if (entry_of developer currency) (λ e. e.amount_cents) s.entries)
      (sum_if (pending_of developer currency) (λ p. p.amount_cents) s.payouts)
      (compute_held_credits_from_entries s.entries developer currency hold_days now) currency

-- `if (existing) return`
unfoldable pub credit_unless :
    Option LedgerEntry → LedgerEntry → MemoryLedger → LedgerEntry × MemoryLedger
credit_unless (some existing) entry s = (existing, s)
credit_unless none entry s = (
  entry,
  record s { entries = s.entries ++ entry ∷ []; seen_refs = entry.external_ref ∷ s.seen_refs },
)

unfoldable pub credit : CreditInput → String → ℕ → MemoryLedger → LedgerEntry × MemoryLedger
unfolding credit_unless has_ref
credit input id now s =
    credit_unless
      (if has_ref input.external_ref s.seen_refs
        then find (λ e. str_eq e.external_ref input.external_ref) s.entries
        else none)
      (new_entry input id now) s

unfoldable pub submit_payout :
    PayoutInput → ℕ → ℕ → String → ℕ → MemoryLedger → PayoutAnswer × MemoryLedger
submit_payout input hold_days now id stamp s =
    if not (ltb_ℤ (pos 0) input.amount_cents)
    then (refused invalid_amount, s)
    else if ltb_ℤ (compute_balance s input.developer_id input.currency hold_days now).available
        input.amount_cents
    then (refused insufficient_balance, s)
    else (
      success (new_request input id stamp),
      record s { payouts = s.payouts ++ new_request input id stamp ∷ [] },
    )

abbrev pub approved_request : Option String → ℕ → PayoutRequest → PayoutRequest
approved_request remark now p = record p { state = approved; admin_note = remark; updated_at = now }

abbrev pub rejected_request : String → ℕ → PayoutRequest → PayoutRequest
rejected_request remark now p = record p {
  state = rejected;
  admin_note = some remark;
  updated_at = now;
}

unfoldable pub approve_found :
    Option PayoutRequest → Option String → String → ℕ → MemoryLedger → PayoutAnswer × MemoryLedger
approve_found none remark id now s = (refused not_found, s)
approve_found (some p) remark id now s =
    if not (is_pending_review p.state) then (refused invalid_state, s) else (
      success (approved_request remark now p),
      record {
        entries = s.entries ++ debit_entry p id now ∷ [];
        payouts = update_first (λ q. str_eq q.id p.id) (approved_request remark now) s.payouts;
        seen_refs = p.id ∷ s.seen_refs;
      },
    )

unfoldable pub approve_payout :
    String → Option String → String → ℕ → MemoryLedger → PayoutAnswer × MemoryLedger
unfolding approve_found
approve_payout request_id remark id now s =
    approve_found (find (λ p. str_eq p.id request_id) s.payouts) remark id now s

unfoldable pub reject_found :
    Option PayoutRequest → String → ℕ → MemoryLedger → PayoutAnswer × MemoryLedger
reject_found none remark now s = (refused not_found, s)
reject_found (some p) remark now s =
    if not (is_pending_review p.state) then (refused invalid_state, s) else (
      success (rejected_request remark now p),
      record s {
        payouts = update_first (λ q. str_eq q.id p.id) (rejected_request remark now) s.payouts;
      },
    )

unfoldable pub reject_payout : String → String → ℕ → MemoryLedger → PayoutAnswer × MemoryLedger
unfolding reject_found
reject_payout request_id remark now s =
    reject_found (find (λ p. str_eq p.id request_id) s.payouts) remark now s
