-- ===== src/Registry/Payouts/Stored.antt =====
-- createPrismaBalanceLedger of apps/registry/lib/payouts/balance-ledger.ts, over its two tables. The
-- column `externalRef` is unique. A payout is updated by its key. The columns `developerId` and
-- `payoutAccountId` are foreign keys, to two tables of which only the ids matter here.
use nova_pay.Base.{
  ℕ, String, Bool, ◌&&◌, not, Option, none, some, List, [], ◌∷◌, ◌++◌, str_eq, keep, is_some,
  if◌then◌else◌,
}
use nova_pay.Base.Int.{pos, ltb_ℤ}
use nova_pay.Base.Rows.{find, update_first}
use nova_pay.Registry.Payouts.{
  LedgerEntry, PayoutRequest, BalanceSnapshot, CreditInput, PayoutInput, PayoutAnswer, success,
  refused, threw, insufficient_balance, invalid_amount, not_found, invalid_state, approved,
  rejected, is_pending_review, entry_of, pending_of, compute_held_credits_from_entries, snapshot,
  new_entry, new_request, debit_entry,
}
use nova_pay.Registry.Payouts.Sums.{sum_all}

pub record LedgerTables : Type 0 where
  pub entries : List LedgerEntry
  pub payouts : List PayoutRequest
  pub developers : List String
  pub payout_accounts : List String

-- A row that a foreign key refers to is there.
unfoldable pub is_present : String → List String → Bool
is_present id ids = is_some (find (λ x. str_eq x id) ids)

abbrev pub find_ref : String → List LedgerEntry → Option LedgerEntry
find_ref ref entries = find (λ e. str_eq e.external_ref ref) entries

unfoldable pub compute_balance : LedgerTables → String → String → ℕ → ℕ → BalanceSnapshot
compute_balance s developer currency hold_days now =
    let entries = keep (entry_of developer currency) s.entries in
    snapshot (sum_all (λ e. e.amount_cents) entries)
      (sum_all (λ p. p.amount_cents) (keep (pending_of developer currency) s.payouts))
      (compute_held_credits_from_entries entries developer currency hold_days now) currency

-- `none` is Prisma's error for a developer that is not there.
unfoldable pub credit_unless :
    Option LedgerEntry → LedgerEntry → LedgerTables → Option LedgerEntry × LedgerTables
credit_unless (some existing) entry s = (some existing, s)
credit_unless none entry s =
    if not (is_present entry.developer_id s.developers)
    then (none, s)
    else (some entry, record s { entries = s.entries ++ entry ∷ [] })

unfoldable pub credit : CreditInput → String → ℕ → LedgerTables → Option LedgerEntry × LedgerTables
unfolding credit_unless
credit input id now s =
    credit_unless (find_ref input.external_ref s.entries) (new_entry input id now) s

-- Both rows that a payout refers to are there.
unfoldable pub has_owner : PayoutInput → LedgerTables → Bool
has_owner input s =
    is_present input.developer_id s.developers
    && is_present input.payout_account_id s.payout_accounts

unfoldable pub submit_payout :
    PayoutInput → ℕ → ℕ → String → ℕ → LedgerTables → PayoutAnswer × LedgerTables
submit_payout input hold_days now id stamp s =
    if not (ltb_ℤ (pos 0) input.amount_cents)
    then (refused invalid_amount, s)
    else if ltb_ℤ (compute_balance s input.developer_id input.currency hold_days now).available
        input.amount_cents
    then (refused insufficient_balance, s)
    else if not (has_owner input s)
    then (threw, s)
    else (
      success (new_request input id stamp),
      record s { payouts = s.payouts ++ new_request input id stamp ∷ [] },
    )

abbrev pub approved_row : Option String → ℕ → PayoutRequest → PayoutRequest
approved_row remark now p = record p {
  state = approved;
  admin_note = remark;
  processed_at = some now;
  updated_at = now;
}

abbrev pub rejected_row : String → ℕ → PayoutRequest → PayoutRequest
rejected_row remark now p = record p {
  state = rejected;
  admin_note = some remark;
  processed_at = some now;
  updated_at = now;
}

abbrev pub set_payout :
    PayoutRequest → (PayoutRequest → PayoutRequest) → LedgerTables → LedgerTables
set_payout p f s = record s { payouts = update_first (λ q. str_eq q.id p.id) f s.payouts }

-- The debit is a second statement: where its key is taken, the payout stays approved. Its developer is
-- there, since the payout refers to it.
unfoldable pub approve_found :
    Option PayoutRequest → Option String → String → ℕ → LedgerTables → PayoutAnswer × LedgerTables
approve_found none remark id now s = (refused not_found, s)
approve_found (some p) remark id now s =
    let s' = set_payout p (approved_row remark now) s in
    if not (is_pending_review p.state)
    then (refused invalid_state, s)
    else if is_some (find_ref p.id s.entries)
    then (threw, s')
    else (
      success (approved_row remark now p),
      record s' { entries = s.entries ++ debit_entry p id now ∷ [] },
    )

unfoldable pub approve_payout :
    String → Option String → String → ℕ → LedgerTables → PayoutAnswer × LedgerTables
unfolding approve_found
approve_payout request_id remark id now s =
    approve_found (find (λ p. str_eq p.id request_id) s.payouts) remark id now s

unfoldable pub reject_found :
    Option PayoutRequest → String → ℕ → LedgerTables → PayoutAnswer × LedgerTables
reject_found none remark now s = (refused not_found, s)
reject_found (some p) remark now s =
    if not (is_pending_review p.state)
    then (refused invalid_state, s)
    else (success (rejected_row remark now p), set_payout p (rejected_row remark now) s)

unfoldable pub reject_payout : String → String → ℕ → LedgerTables → PayoutAnswer × LedgerTables
unfolding reject_found
reject_payout request_id remark now s =
    reject_found (find (λ p. str_eq p.id request_id) s.payouts) remark now s
