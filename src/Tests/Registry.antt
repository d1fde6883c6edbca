-- ===== src/Tests/Registry.antt =====
-- A developer's ledger with one sale, and a version that is reviewed.
use nova_pay.Base.{
  ◌≡◌, refl, none, some, true, false, [], ◌∷◌, is_some, Bool, str_eq, arith, if◌then◌else◌,
}
use nova_pay.Base.Int.{pos}
use nova_pay.Base.Rows.{find}
use nova_pay.Registry.Payouts.{CreditInput, PayoutInput, LedgerEntry, PayoutRequest, pending_review}
use nova_pay.Registry.Payouts.Laws.{Pays, approve-Pays}
use nova_pay.Registry.Payouts.Memory.{MemoryLedger, has_ref}
use nova_pay.Registry.Payouts.Reach.{
  IsSound, start, credited, submitted, approved_by, Reachable-IsSound,
}
use nova_pay.Registry.Payouts.Same.{Same}
use nova_pay.Registry.Payouts.Stored.{LedgerTables, credit, submit_payout, approve_payout}
use nova_pay.Registry.Review.{
  draft, submitted as in_queue, approved, published, assert_review_transition, has_state,
  is_review_transition_allowed, list_allowed_transitions, restarted_state, uploaded_state,
}
use nova_pay.Registry.Review.Laws.{Life, here, move, restart}

abbrev sale : CreditInput
sale = record {
  developer_id = "d1";
  amount_cents = pos 900;
  currency = "CNY";
  reason = "LICENSE_SALE";
  external_ref = "order-1";
}

abbrev payout : PayoutInput
payout = record {
  developer_id = "d1";
  payout_account_id = "bank";
  amount_cents = pos 500;
  currency = "CNY";
}

abbrev entry : LedgerEntry
entry = record {
  id = "led_1";
  developer_id = "d1";
  amount_cents = pos 900;
  currency = "CNY";
  reason = "LICENSE_SALE";
  external_ref = "order-1";
  occurred_at = 10;
}

abbrev request : PayoutRequest
request = record {
  id = "pyo_1";
  developer_id = "d1";
  payout_account_id = "bank";
  amount_cents = pos 500;
  currency = "CNY";
  state = pending_review;
  admin_note = none;
  created_at = 20;
  updated_at = 20;
  processed_at = none;
}

abbrev tables : LedgerTables
tables = record {
  entries = entry ∷ [];
  payouts = request ∷ [];
  developers = "d1" ∷ [];
  payout_accounts = "bank" ∷ [];
}

abbrev empty : LedgerTables
empty = record tables { entries = []; payouts = [] }

abbrev memory : MemoryLedger
memory = record { entries = entry ∷ []; payouts = request ∷ []; seen_refs = "order-1" ∷ [] }

approve-Pays_example :
    Pays "d1" "CNY" 0 40 "pyo_1" tables (approve_payout "pyo_1" none "led_2" 40 tables)
approve-Pays_example = approve-Pays "d1" "CNY" 0 40 "pyo_1" none "led_2" 40 tables

ref_of : (b : Bool) → (if b then true else false) ≡ is_some (if b then some entry else none)
ref_of true = refl
ref_of false = refl

abbrev same : Same memory tables
unfolding has_ref find
same = record { entries = refl; payouts = refl; refs = λ ref. ref_of (str_eq "order-1" ref) }

Reachable-IsSound_example :
    IsSound 7 50
      (approve_payout "pyo_1" none "led_2" 50
        (submit_payout payout 7 50 "pyo_1" 50 (credit sale "led_1" 50 empty).1).1).1
Reachable-IsSound_example = Reachable-IsSound 7 50 _ (
    approved_by "pyo_1" none "led_2"
      (submitted payout "pyo_1" (credited sale "led_1" (omega arith) start)))

abbrev visited : Life false draft (in_queue ∷ approved ∷ published ∷ []) published
unfolding assert_review_transition is_review_transition_allowed list_allowed_transitions has_state
visited = move refl (move refl (move refl here))

-- A draft of an official plugin is published by a start of the registry.
official_draft : Life true draft (published ∷ []) published
unfolding restarted_state uploaded_state
official_draft = restart here
