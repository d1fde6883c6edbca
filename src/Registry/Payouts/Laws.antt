-- ===== src/Registry/Payouts/Laws.antt =====
-- What the operations of the stored ledger do to a balance.
use nova_pay.Base.{
  ℕ, ◌≡◌, refl, ap, ◌∙◌, subst, String, true, false, Option, str_eq, eq_iff, is_some, Bool-cases,
  Option-cases, inl, inr,
}
use nova_pay.Base.Int.{pos, ◌+ℤ◌, ◌-ℤ◌, ◌≤ℤ◌}
use nova_pay.Base.Rows.{find, find_sound}
use nova_pay.Registry.Payouts.{
  PayoutRequest, PayoutInput, PayoutAnswer, success, refused, threw, approved, rejected,
  is_pending_review,
}
use nova_pay.Registry.Payouts.Stored.{
  LedgerTables, find_ref, has_owner, approve_found, approve_payout, reject_found, reject_payout,
  approved_row, rejected_row,
}
use nova_pay.Registry.Payouts.Balances.{available_of, share_of, available-set, available-debit}

-- What a submission does to the balance of its developer in its currency.
unfoldable pub Reserves : PayoutInput → ℕ → ℕ → LedgerTables → PayoutAnswer × LedgerTables → Type 0
Reserves input hold_days now s (success p, s') =
    (has_owner input s ≡ true)
    × (s'.entries ≡ s.entries)
    × (available_of input.developer_id input.currency hold_days now s'
        ≡ available_of input.developer_id input.currency hold_days now s -ℤ input.amount_cents)
    × (pos 0 ≤ℤ available_of input.developer_id input.currency hold_days now s')
Reserves input hold_days now s (refused e, s') = s' ≡ s
Reserves input hold_days now s (threw, s') = (s' ≡ s) × (has_owner input s ≡ false)

-- What an approval does to the balance of a developer in a currency.
unfoldable pub Pays :
    String → String → ℕ → ℕ → String → LedgerTables → PayoutAnswer × LedgerTables → Type 0
Pays developer currency hold_days now request_id s (success p, s') =
    (p.state ≡ approved)
    × (available_of developer currency hold_days now s'
        ≡ available_of developer currency hold_days now s)
Pays developer currency hold_days now request_id s (refused e, s') = s' ≡ s
Pays developer currency hold_days now request_id s (threw, s') =
    is_some (find_ref request_id s.entries) ≡ true

-- An approval changes no available balance, of no developer and in no currency: what it books was
-- frozen. One that is refused changes nothing, and one throws only if an entry of the ledger has the
-- payout's id as its reference already.
pub approve-Pays :
    (developer currency : String) (hold_days now : ℕ) (request_id : String) (remark : Option String)
    (id : String) (stamp : ℕ) (s : LedgerTables)
    → Pays developer currency hold_days now request_id s
        (approve_payout request_id remark id stamp s)
unfolding approve_payout approve_found Pays is_pending_review
approve-Pays developer currency hold_days now request_id remark id stamp s =
    elim (Option-cases (find (λ p. str_eq p.id request_id) s.payouts)) [
      | inl e ↦ rw e refl
      | inr (p, e) ↦ rw e (elim (Bool-cases (is_pending_review p.state)) [
        | inr t ↦ rw t refl
        | inl t ↦ rw t (elim (Bool-cases (is_some (find_ref p.id s.entries))) [
          | inl u ↦ rw u (
              subst (λ k. is_some (find_ref k s.entries) ≡ true)
                ((eq_iff p.id request_id).0
                  (find_sound (λ q. str_eq q.id request_id) s.payouts p e))
                u)
          | inr u ↦ rw u (
            refl,
            available-debit developer currency hold_days now (approved_row remark stamp) s p
                request_id id stamp t out_of_review e,
          )
        ])
      ])
    ]
  where
    out_of_review : (q : PayoutRequest) → is_pending_review approved ≡ false
    out_of_review q = refl

unfoldable pub Releases : ℕ → ℕ → LedgerTables → PayoutAnswer × LedgerTables → Type 0
Releases hold_days now s (success p, s') =
    (p.state ≡ rejected)
    × (s'.entries ≡ s.entries)
    × (available_of p.developer_id p.currency hold_days now s'
        ≡ available_of p.developer_id p.currency hold_days now s +ℤ p.amount_cents)
Releases hold_days now s (refused e, s') = s' ≡ s
Releases hold_days now s (threw, s') = ⊥

-- A payout that is rejected gives its amount back to the balance of its developer in its currency, and
-- the ledger's entries stay. A rejection that is refused changes nothing, and none throws.
pub reject-Releases :
    (hold_days now : ℕ) (request_id remark : String) (stamp : ℕ) (s : LedgerTables)
    → Releases hold_days now s (reject_payout request_id remark stamp s)
unfolding reject_payout reject_found Releases is_pending_review share_of
reject-Releases hold_days now request_id remark stamp s =
    elim (Option-cases (find (λ p. str_eq p.id request_id) s.payouts)) [
      | inl e ↦ rw e refl
      | inr (p, e) ↦ rw e (elim (Bool-cases (is_pending_review p.state)) [
        | inr t ↦ rw t refl
        | inl t ↦ rw t (
          refl,
          refl,
          available-set p.developer_id p.currency hold_days now (rejected_row remark stamp) s p
                request_id (λ q. refl) e
              ∙ ap (λ n. available_of p.developer_id p.currency hold_days now s +ℤ n) (own p t),
        )
      ])
    ]
  where
    own :
        (p : PayoutRequest)
        → is_pending_review p.state ≡ true
        → share_of p.developer_id p.currency hold_days now p ≡ p.amount_cents
    own p t =
        rw ((eq_iff p.developer_id p.developer_id).1 refl, (eq_iff p.currency p.currency).1 refl, t)
          refl
