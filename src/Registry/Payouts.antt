-- ===== src/Registry/Payouts.antt =====
-- apps/registry/lib/payouts/balance-ledger.ts: the balance of a developer and the requests for payouts.
-- An operation gets what it reads of its surroundings: the clock, the id of a new row and the days of
-- the hold. Amounts are cents.
pub mod Sums
pub mod Memory
pub mod Stored
pub mod Views
pub mod Same
pub mod Balances
pub mod Laws
pub mod Kept
pub mod Reach
use nova_pay.Base.{
  ℕ, ◌+◌, ◌*◌, String, Bool, true, false, ◌&&◌, Option, List, str_eq, ltb, ◌==◌, if◌then◌else◌,
}
use nova_pay.Base.Int.{ℤ, pos, ◌+ℤ◌, ◌-ℤ◌, ltb_ℤ}
use Sums.{sum_if}

pub record LedgerEntry : Type 0 where
  pub id : String
  pub developer_id : String
  pub amount_cents : ℤ
  pub currency : String
  pub reason : String
  pub external_ref : String
  pub occurred_at : ℕ

pub data PayoutState : Type 0 where
  pending_review approved rejected processing completed failed : PayoutState

pub record PayoutRequest : Type 0 where
  pub id : String
  pub developer_id : String
  pub payout_account_id : String
  pub amount_cents : ℤ
  pub currency : String
  pub state : PayoutState
  pub admin_note : Option String
  pub created_at : ℕ
  pub updated_at : ℕ
  pub processed_at : Option ℕ

pub record BalanceSnapshot : Type 0 where
  pub available : ℤ
  pub frozen : ℤ
  pub total : ℤ
  pub currency : String

pub data PayoutError : Type 0 where
  insufficient_balance invalid_amount not_found invalid_state : PayoutError

-- `threw` is Prisma's error for a second row with a unique key, or for a foreign key to no row.
pub data PayoutAnswer : Type 0 where
  success : PayoutRequest → PayoutAnswer
  refused : PayoutError → PayoutAnswer
  threw : PayoutAnswer

pub record CreditInput : Type 0 where
  pub developer_id : String
  pub amount_cents : ℤ
  pub currency : String
  pub reason : String
  pub external_ref : String

pub record PayoutInput : Type 0 where
  pub developer_id : String
  pub payout_account_id : String
  pub amount_cents : ℤ
  pub currency : String

unfoldable pub is_pending_review : PayoutState → Bool
is_pending_review pending_review = true
is_pending_review _ = false

abbrev pub entry_of : String → String → LedgerEntry → Bool
entry_of developer currency e = str_eq e.developer_id developer && str_eq e.currency currency

abbrev pub pending_of : String → String → PayoutRequest → Bool
pending_of developer currency p =
    str_eq p.developer_id developer && (str_eq p.currency currency && is_pending_review p.state)

-- The condition in the loop of computeHeldCreditsFromEntries, in milliseconds.
abbrev pub is_held : String → String → ℕ → ℕ → LedgerEntry → Bool
is_held developer currency hold_days now e =
    str_eq e.developer_id developer
    && (str_eq e.currency currency
        && (ltb_ℤ (pos 0) e.amount_cents
            && (str_eq e.reason "LICENSE_SALE" && ltb now (e.occurred_at + hold_days * 86400000))))

unfoldable pub compute_held_credits_from_entries : List LedgerEntry → String → String → ℕ → ℕ → ℤ
unfolding sum_if
compute_held_credits_from_entries entries developer currency hold_days now =
    if hold_days == 0
    then pos 0
    else sum_if (is_held developer currency hold_days now) (λ e. e.amount_cents) entries

abbrev pub snapshot : ℤ → ℤ → ℤ → String → BalanceSnapshot
snapshot total frozen held currency = record {
  total = total;
  frozen = frozen +ℤ held;
  available = total -ℤ frozen -ℤ held;
  currency = currency;
}

abbrev pub new_entry : CreditInput → String → ℕ → LedgerEntry
new_entry input id now = record {
  id = id;
  developer_id = input.developer_id;
  amount_cents = input.amount_cents;
  currency = input.currency;
  reason = input.reason;
  external_ref = input.external_ref;
  occurred_at = now;
}

abbrev pub new_request : PayoutInput → String → ℕ → PayoutRequest
new_request input id now = record {
  id = id;
  developer_id = input.developer_id;
  payout_account_id = input.payout_account_id;
  amount_cents = input.amount_cents;
  currency = input.currency;
  state = pending_review;
  admin_note = Option.none;
  created_at = now;
  updated_at = now;
  processed_at = Option.none;
}

-- The debit of an approved payout.
abbrev pub debit_entry : PayoutRequest → String → ℕ → LedgerEntry
debit_entry p id now = record {
  id = id;
  developer_id = p.developer_id;
  amount_cents = pos 0 -ℤ p.amount_cents;
  currency = p.currency;
  reason = "PAYOUT_APPROVED";
  external_ref = p.id;
  occurred_at = now;
}
