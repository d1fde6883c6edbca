-- ===== src/Registry/Payouts/Same.antt =====
-- The in-memory ledger of the tests against the stored one.
use nova_pay.Base.{ℕ, ◌≡◌, refl, sym, ap, ◌∙◌, String, true, Option, none, some, map, is_some}
use nova_pay.Registry.Payouts.{
  LedgerEntry, PayoutRequest, CreditInput, PayoutInput, PayoutAnswer, success, refused, threw,
  approved, rejected, pending_of,
}
use nova_pay.Registry.Payouts.Balances.{compute_balance_lem}
use nova_pay.Registry.Payouts.Memory.{MemoryLedger, has_ref}
use nova_pay.Registry.Payouts.Memory
use nova_pay.Registry.Payouts.Stored.{LedgerTables, find_ref, is_present, has_owner}
use nova_pay.Registry.Payouts.Stored
use nova_pay.Registry.Payouts.Sums.{sum_if}
use nova_pay.Registry.Payouts.Views.{view, sum_if-view}

unfoldable pub view_answer : PayoutAnswer → PayoutAnswer
view_answer (success p) = success (view p)
view_answer (refused e) = refused e
view_answer threw = threw

-- The same entries, the same payouts, and the references seen are those of the entries.
pub record Same (m : MemoryLedger) (s : LedgerTables) : Type 0 where
  pub entries : m.entries ≡ s.entries
  pub payouts : map view m.payouts ≡ map view s.payouts
  pub refs : (ref : String) → has_ref ref m.seen_refs ≡ is_some (find_ref ref s.entries)

-- One call of an operation that changes the ledger, with what it reads of its surroundings.
pub data Operation : Type 0 where
  credit_op : CreditInput → String → ℕ → Operation
  submit_op : PayoutInput → ℕ → ℕ → String → ℕ → Operation
  approve_op : String → Option String → String → ℕ → Operation
  reject_op : String → String → ℕ → Operation

pub data Reply : Type 0 where
  entry_reply : Option LedgerEntry → Reply
  payout_reply : PayoutAnswer → Reply

abbrev as_entry {ℓ} : {S : Type ℓ} → Option LedgerEntry × S → Reply × S
as_entry (e, s) = (entry_reply e, s)

abbrev some_entry {ℓ} : {S : Type ℓ} → LedgerEntry × S → Reply × S
some_entry (e, s) = (entry_reply (some e), s)

abbrev as_payout {ℓ} : {S : Type ℓ} → PayoutAnswer × S → Reply × S
as_payout (p, s) = (payout_reply (view_answer p), s)

unfoldable pub run_memory : Operation → MemoryLedger → Reply × MemoryLedger
run_memory (credit_op input id now) m = some_entry (Memory.credit input id now m)
run_memory (submit_op input days now id stamp) m =
    as_payout (Memory.submit_payout input days now id stamp m)
run_memory (approve_op request remark id now) m =
    as_payout (Memory.approve_payout request remark id now m)
run_memory (reject_op request remark now) m = as_payout (Memory.reject_payout request remark now m)

unfoldable pub run_stored : Operation → LedgerTables → Reply × LedgerTables
run_stored (credit_op input id now) s = as_entry (Stored.credit input id now s)
run_stored (submit_op input days now id stamp) s =
    as_payout (Stored.submit_payout input days now id stamp s)
run_stored (approve_op request remark id now) s =
    as_payout (Stored.approve_payout request remark id now s)
run_stored (reject_op request remark now) s = as_payout (Stored.reject_payout request remark now s)

-- The rows that a new row refers to are there, and an approval is not of a payout whose id an entry
-- already has for its reference.
unfoldable pub IsClear : Operation → LedgerTables → Type 0
IsClear (credit_op input id now) s = is_present input.developer_id s.developers ≡ true
IsClear (submit_op input days now id stamp) s = has_owner input s ≡ true
IsClear (approve_op request remark id now) s = find_ref request s.entries ≡ none
IsClear _ s = Unit

-- The balances are the same.
pub balance-Same :
    (m : MemoryLedger) (s : LedgerTables) (developer currency : String) (hold_days now : ℕ)
    → Same m s
    → Memory.compute_balance m developer currency hold_days now
      ≡ Stored.compute_balance s developer currency hold_days now
unfolding Memory.compute_balance
balance-Same m s developer currency hold_days now same =
    rw (same.entries, frozen_same, compute_balance_lem developer currency hold_days now s) refl
  where
    frozen_same :
        sum_if (pending_of developer currency) (λ p. p.amount_cents) m.payouts
        ≡ sum_if (pending_of developer currency) (λ p. p.amount_cents) s.payouts
    frozen_same =
        sym (sum_if-view developer currency m.payouts)
        ∙ ap (sum_if (pending_of developer currency) (λ p. p.amount_cents)) same.payouts
        ∙ sum_if-view developer currency s.payouts

-- Two results agree if their replies do, up to the view, and the ledgers behind them are the same.
abbrev pub Agree : Reply × MemoryLedger → Reply × LedgerTables → Type 0
Agree (r, m) (r', s) = (r ≡ r') × Same m s

abbrev rejected_view : String → PayoutRequest → PayoutRequest
rejected_view remark p = record p { state = rejected; admin_note = some remark }

abbrev approved_view : Option String → PayoutRequest → PayoutRequest
approved_view remark p = record p { state = approved; admin_note = remark }
