-- ===== src/Registry/Payouts/Reach.antt =====
-- The stored ledger through any sequence of operations, with a hold of a fixed number of days.
use nova_pay.Base.{
  ℕ, ◌≤◌, ◌≡◌, refl, sym, subst, arith, String, true, false, not, Option, some, List, [], ◌++◌,
  str_eq, eq_iff, ◌==◌, is_some, Bool-cases, Option-cases, inl, inr, if◌then◌else◌,
}
use nova_pay.Base.Int.{pos, ◌-ℤ◌, ◌≤ℤ◌, ltb_ℤ, int_laws}
use nova_pay.Base.Rows.{All-find, find}
use nova_pay.Base.Sort.{All}
use nova_pay.Registry.Payouts.{
  PayoutRequest, CreditInput, PayoutInput, pending_of, compute_held_credits_from_entries,
  is_pending_review, new_entry, new_request,
}
use nova_pay.Registry.Payouts.Balances.{
  not_overdrawn, available_of, share_of, available-set, available-debit, available-submit,
}
use nova_pay.Registry.Payouts.Stored.{
  LedgerTables, credit, credit_unless, find_ref, submit_payout, approve_payout, approve_found,
  reject_payout, reject_found, approved_row, rejected_row, set_payout, compute_balance, is_present,
  has_owner,
}
use nova_pay.Registry.Payouts.Sums.{sum_if, sum_all}
use nova_pay.Registry.Payouts.Kept.{
  IsPositive, All-append, All-update, kept_by_more, share_positive, later_keeps, credit_keeps,
  less_nothing,
}

-- The ledger at a time, with the developers and the accounts there are, to which others are added: each
-- operation reads the clock as it is then, and a credit is of no negative
-- amount, as a sale is.
pub data Reachable (hold_days : ℕ) : ℕ → LedgerTables → Type 0 where
  start :
      {now : ℕ} {developers accounts : List String}
      → Reachable hold_days now (record {
        entries = [];
        payouts = [];
        developers = developers;
        payout_accounts = accounts;
      })
  enrolled :
      {now : ℕ} {s : LedgerTables} (developers accounts : List String)
      → Reachable hold_days now s
      → Reachable hold_days now (record s {
        developers = s.developers ++ developers;
        payout_accounts = s.payout_accounts ++ accounts;
      })
  later :
      {now after : ℕ} {s : LedgerTables}
      → now ≤ after
      → Reachable hold_days now s
      → Reachable hold_days after s
  credited :
      {now : ℕ} {s : LedgerTables} (input : CreditInput) (id : String)
      → pos 0 ≤ℤ input.amount_cents
      → Reachable hold_days now s
      → Reachable hold_days now (credit input id now s).1
  submitted :
      {now : ℕ} {s : LedgerTables} (input : PayoutInput) (id : String)
      → Reachable hold_days now s
      → Reachable hold_days now (submit_payout input hold_days now id now s).1
  approved_by :
      {now : ℕ} {s : LedgerTables} (request_id : String) (remark : Option String) (id : String)
      → Reachable hold_days now s
      → Reachable hold_days now (approve_payout request_id remark id now s).1
  rejected_by :
      {now : ℕ} {s : LedgerTables} (request_id remark : String)
      → Reachable hold_days now s
      → Reachable hold_days now (reject_payout request_id remark now s).1

-- No payout is of a negative amount, and no balance is overdrawn.
pub record IsSound (hold_days now : ℕ) (s : LedgerTables) : Type 0 where
  pub positive : All IsPositive s.payouts
  pub not_overdrawn :
      (developer currency : String) → pos 0 ≤ℤ available_of developer currency hold_days now s

submit-IsSound :
    (hold_days now : ℕ) (input : PayoutInput) (id : String) (s : LedgerTables)
    → IsSound hold_days now s
    → IsSound hold_days now (submit_payout input hold_days now id now s).1
unfolding submit_payout share_of
submit-IsSound hold_days now input id s sound =
    elim (Bool-cases (not (ltb_ℤ (pos 0) input.amount_cents))) [
      | inl t ↦ rw t sound
      | inr t ↦
          rw t
            (elim (Bool-cases (
              ltb_ℤ (available_of input.developer_id input.currency hold_days now s)
                input.amount_cents)) [
                  | inl u ↦ rw u sound
                  | inr u ↦ rw u (elim (Bool-cases (has_owner input s)) [
                    | inr absent ↦ rw absent sound
                    | inl there ↦ rw there (record {
                      positive =
                          All-append s.payouts (new_request input id now) sound.positive
                            (ground (arith));
                      not_overdrawn = λ developer currency.
                          subst (λ n. pos 0 ≤ℤ n)
                            (sym (
                              available-submit developer currency hold_days now s
                                (new_request input id now)))
                            (covered developer currency u);
                    })
                  ])
                ])
    ]
  where
    same_developer :
        (developer currency : String)
        → pending_of developer currency (new_request input id now) ≡ true
        → (input.developer_id ≡ developer) × (input.currency ≡ currency)
    same_developer developer currency h =
        ground (arith, eq_iff input.developer_id developer, eq_iff input.currency currency)

    covered :
        (developer currency : String)
        → ltb_ℤ (available_of input.developer_id input.currency hold_days now s) input.amount_cents
          ≡ false
        → pos 0
          ≤ℤ available_of developer currency hold_days now s
            -ℤ share_of developer currency hold_days now (new_request input id now)
    covered developer currency u =
        elim (Bool-cases (pending_of developer currency (new_request input id now))) [
          | inl t ↦ rw t (
              let (d, c) = same_developer developer currency t in
              subst (λ x. pos 0 ≤ℤ available_of x currency hold_days now s -ℤ input.amount_cents) d
                (subst
                  (λ x.
                    pos 0
                    ≤ℤ available_of input.developer_id x hold_days now s -ℤ input.amount_cents)
                  c (not_overdrawn _ input.amount_cents u)))
          | inr t ↦ rw t (less_nothing _ (sound.not_overdrawn developer currency))
        ]

-- A payout that is found has a share that is not negative.
found_share :
    (hold_days now : ℕ) (s : LedgerTables) (request_id developer currency : String)
    (p : PayoutRequest)
    → IsSound hold_days now s
    → find (λ q. str_eq q.id request_id) s.payouts ≡ some p
    → pos 0 ≤ℤ share_of developer currency hold_days now p
found_share hold_days now s request_id developer currency p sound e =
    share_positive developer currency hold_days now p
      (All-find IsPositive (λ q. str_eq q.id request_id) s.payouts p sound.positive e)

set-IsSound :
    (hold_days now : ℕ) (s : LedgerTables) (request_id : String) (p : PayoutRequest)
    (f : PayoutRequest → PayoutRequest)
    → IsSound hold_days now s
    → find (λ q. str_eq q.id request_id) s.payouts ≡ some p
    → ((q : PayoutRequest) → is_pending_review (f q).state ≡ false)
    → ((q : PayoutRequest) → IsPositive q → IsPositive (f q))
    → IsSound hold_days now (set_payout p f s)
set-IsSound hold_days now s request_id p f sound e leaves keeps = record {
  positive = All-update (λ q. str_eq q.id p.id) f s.payouts keeps sound.positive;
  not_overdrawn = λ developer currency.
      subst (λ n. pos 0 ≤ℤ n)
        (sym (available-set developer currency hold_days now f s p request_id leaves e))
        (kept_by_more _ _ (sound.not_overdrawn developer currency)
          (found_share hold_days now s request_id developer currency p sound e));
}

reject-IsSound :
    (hold_days now : ℕ) (request_id remark : String) (s : LedgerTables)
    → IsSound hold_days now s
    → IsSound hold_days now (reject_payout request_id remark now s).1
unfolding reject_payout reject_found is_pending_review
reject-IsSound hold_days now request_id remark s sound =
    elim (Option-cases (find (λ p. str_eq p.id request_id) s.payouts)) [
      | inl e ↦ rw e sound
      | inr (p, e) ↦ rw e (elim (Bool-cases (is_pending_review p.state)) [
        | inr t ↦ rw t sound
        | inl t ↦ rw t (
            set-IsSound hold_days now s request_id p (rejected_row remark now) sound e (λ q. refl)
              (λ q h. h))
      ])
    ]

approve-IsSound :
    (hold_days now : ℕ) (request_id : String) (remark : Option String) (id : String)
    (s : LedgerTables)
    → IsSound hold_days now s
    → IsSound hold_days now (approve_payout request_id remark id now s).1
unfolding approve_payout approve_found is_pending_review
approve-IsSound hold_days now request_id remark id s sound =
    elim (Option-cases (find (λ p. str_eq p.id request_id) s.payouts)) [
      | inl e ↦ rw e sound
      | inr (p, e) ↦ rw e (elim (Bool-cases (is_pending_review p.state)) [
        | inr t ↦ rw t sound
        | inl t ↦ rw t (elim (Bool-cases (is_some (find_ref p.id s.entries))) [
          | inl u ↦ rw u (
              set-IsSound hold_days now s request_id p (approved_row remark now) sound e (λ q. refl)
                (λ q h. h))
          | inr u ↦ rw u (record {
            positive =
                All-update (λ q. str_eq q.id p.id) (approved_row remark now) s.payouts (λ q h. h)
                  sound.positive;
            not_overdrawn = λ developer currency.
                subst (λ n. pos 0 ≤ℤ n)
                  (sym (
                    available-debit developer currency hold_days now (approved_row remark now) s p
                      request_id id now t (λ q. refl) e))
                  (sound.not_overdrawn developer currency);
          })
        ])
      ])
    ]

credited-IsSound :
    (hold_days now : ℕ) (input : CreditInput) (id : String) (s : LedgerTables)
    → pos 0 ≤ℤ input.amount_cents
    → IsSound hold_days now s
    → IsSound hold_days now (credit input id now s).1
unfolding credit credit_unless
credited-IsSound hold_days now input id s h sound =
    elim (Option-cases (find_ref input.external_ref s.entries)) [
      | inl e ↦ rw e (elim (Bool-cases (is_present input.developer_id s.developers)) [
        | inr absent ↦ rw absent sound
        | inl there ↦ rw there (record {
          positive = sound.positive;
          not_overdrawn = λ developer currency.
              credit_keeps developer currency hold_days now s (new_entry input id now) h
                (sound.not_overdrawn developer currency);
        })
      ])
      | inr (x, e) ↦ rw e sound
    ]

empty_balance :
    (hold_days now : ℕ) → pos 0 ≤ℤ pos 0 -ℤ pos 0 -ℤ (if hold_days == 0 then pos 0 else pos 0)
empty_balance hold_days now = elim (Bool-cases (hold_days == 0)) [
  | inl z ↦ rw z (omega int_laws)
  | inr z ↦ rw z (omega int_laws)
]

-- Whatever operations have run, with a fixed hold, a clock that does not go back and credits of no
-- negative amounts, no developer's balance is overdrawn, in no currency, and no payout is of a negative
-- amount.
pub Reachable-IsSound :
    (hold_days now : ℕ) (s : LedgerTables) → Reachable hold_days now s → IsSound hold_days now s
unfolding compute_balance sum_all compute_held_credits_from_entries sum_if
Reachable-IsSound hold_days now s start = record {
  positive = tt;
  not_overdrawn = λ developer currency. empty_balance hold_days now;
}
Reachable-IsSound hold_days now s (enrolled developers accounts r) =
    let sound = Reachable-IsSound hold_days now _ r in
    record { positive = sound.positive; not_overdrawn = sound.not_overdrawn }
Reachable-IsSound hold_days now s (later le r) =
    let sound = Reachable-IsSound hold_days _ s r in
    record {
      positive = sound.positive;
      not_overdrawn = λ developer currency.
          later_keeps developer currency hold_days _ now s le
            (sound.not_overdrawn developer currency);
    }
Reachable-IsSound hold_days now s (credited input id h r) =
    credited-IsSound hold_days now input id _ h (Reachable-IsSound hold_days now _ r)
Reachable-IsSound hold_days now s (submitted input id r) =
    submit-IsSound hold_days now input id _ (Reachable-IsSound hold_days now _ r)
Reachable-IsSound hold_days now s (approved_by request_id remark id r) =
    approve-IsSound hold_days now request_id remark id _ (Reachable-IsSound hold_days now _ r)
Reachable-IsSound hold_days now s (rejected_by request_id remark r) =
    reject-IsSound hold_days now request_id remark _ (Reachable-IsSound hold_days now _ r)
