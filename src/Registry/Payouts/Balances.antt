-- ===== src/Registry/Payouts/Balances.antt =====
-- What a new row, or a new state of a payout, does to a stored balance.
use nova_pay.Base.{
  ℕ, ◌≡◌, refl, sym, ap, ◌∙◌, subst, arith, String, Bool, true, false, ◌&&◌, some, List, [], ◌∷◌,
  ◌++◌, str_eq, eq_iff, ◌==◌, Bool-cases, inl, inr, if◌then◌else◌,
}
use nova_pay.Base.Int.{ℤ, pos, ◌+ℤ◌, ◌-ℤ◌, ◌≤ℤ◌, ltb_ℤ, int_laws}
use nova_pay.Base.Rows.{find, find_sound}
use nova_pay.Registry.Payouts.{
  LedgerEntry, PayoutRequest, is_pending_review, entry_of, pending_of, is_held,
  compute_held_credits_from_entries, snapshot, debit_entry,
}
use nova_pay.Registry.Payouts.Stored.{LedgerTables, compute_balance, set_payout}
use nova_pay.Registry.Payouts.Sums.{
  sum_if, share, sum_all-keep, sum_if-keep, sum_if-append, sum_if-update_first,
}

less_frozen : (t f h a : ℤ) → t -ℤ (f +ℤ a) -ℤ h ≡ t -ℤ f -ℤ h -ℤ a
less_frozen t f h a = omega int_laws

paid_out :
    (t t' f f' h a : ℤ)
    → t' ≡ t +ℤ (pos 0 -ℤ a)
    → f' +ℤ a ≡ f +ℤ pos 0
    → t' -ℤ f' -ℤ h ≡ t -ℤ f -ℤ h
paid_out t t' f f' h a e e' = grind int_laws

moved_back : (t f f' h a : ℤ) → f' +ℤ a ≡ f +ℤ pos 0 → t -ℤ f' -ℤ h ≡ t -ℤ f -ℤ h +ℤ a
moved_back t f f' h a e = grind int_laws

pub plus_zero : (a : ℤ) → a +ℤ pos 0 ≡ a
plus_zero a = omega int_laws

pub not_overdrawn : (a b : ℤ) → ltb_ℤ a b ≡ false → pos 0 ≤ℤ a -ℤ b
not_overdrawn a b e = grind int_laws

share_negated :
    (b c : Bool) (a : ℤ)
    → (if b && c then pos 0 -ℤ a else pos 0) ≡ pos 0 -ℤ (if b && (c && true) then a else pos 0)
share_negated true true a = refl
share_negated true false a = omega int_laws
share_negated false c a = omega int_laws

module _ (developer currency : String) (hold_days now : ℕ) where
  abbrev pub total_of : List LedgerEntry → ℤ
  total_of = sum_if (entry_of developer currency) (λ e. e.amount_cents)

  abbrev pub frozen_of : List PayoutRequest → ℤ
  frozen_of = sum_if (pending_of developer currency) (λ p. p.amount_cents)

  abbrev pub held_of : List LedgerEntry → ℤ
  held_of entries = compute_held_credits_from_entries entries developer currency hold_days now

  abbrev pub available_of : LedgerTables → ℤ
  available_of s = (compute_balance s developer currency hold_days now).available

  pub held_is_entry :
      (e : LedgerEntry)
      → is_held developer currency hold_days now e ≡ true
      → entry_of developer currency e ≡ true
  held_is_entry e h = ground arith

  -- The queries of computeBalance, as sums over the tables.
  pub compute_balance_lem :
      (s : LedgerTables)
      → compute_balance s developer currency hold_days now
        ≡ snapshot (total_of s.entries) (frozen_of s.payouts) (held_of s.entries) currency
  unfolding compute_balance compute_held_credits_from_entries
  compute_balance_lem s =
      rw
        (
          sum_all-keep (entry_of developer currency) (λ e. e.amount_cents) s.entries,
          sum_all-keep (pending_of developer currency) (λ p. p.amount_cents) s.payouts,
          sum_if-keep (entry_of developer currency) (is_held developer currency hold_days now)
              (λ e. e.amount_cents) s.entries held_is_entry,
        )
        refl

  pub available_lem :
      (s : LedgerTables)
      → available_of s ≡ total_of s.entries -ℤ frozen_of s.payouts -ℤ held_of s.entries
  available_lem s = ap (λ b. b.available) (compute_balance_lem s)

  no_debit_held :
      (p : PayoutRequest) (id : String) (t : ℕ)
      → share (is_held developer currency hold_days now) (λ e. e.amount_cents) (debit_entry p id t)
        ≡ pos 0
  no_debit_held p id t = ground arith

  held-debit :
      (entries : List LedgerEntry) (p : PayoutRequest) (id : String) (t : ℕ)
      → held_of (entries ++ debit_entry p id t ∷ []) ≡ held_of entries
  unfolding compute_held_credits_from_entries
  held-debit entries p id t = elim (Bool-cases (hold_days == 0)) [
    | inl z ↦ rw z refl
    | inr z ↦ rw z (
        sum_if-append (is_held developer currency hold_days now) (λ e. e.amount_cents) entries
          (debit_entry p id t)
        ∙ ap
            (λ n.
              sum_if (is_held developer currency hold_days now) (λ e. e.amount_cents) entries +ℤ n)
            (no_debit_held p id t)
        ∙ plus_zero _)
  ]

  unfoldable pub share_of : PayoutRequest → ℤ
  share_of = share (pending_of developer currency) (λ p. p.amount_cents)

  -- A payout that leaves the review is not frozen any more.
  frozen-set :
      (f : PayoutRequest → PayoutRequest) (s : LedgerTables) (p : PayoutRequest) (id : String)
      → ((q : PayoutRequest) → is_pending_review (f q).state ≡ false)
      → find (λ q. str_eq q.id id) s.payouts ≡ some p
      → frozen_of (set_payout p f s).payouts +ℤ share_of p ≡ frozen_of s.payouts +ℤ pos 0
  unfolding share_of
  frozen-set f s p id leaves e =
      sum_if-update_first (pending_of developer currency) (λ q. str_eq q.id p.id)
        (λ q. q.amount_cents) f s.payouts p
        (subst (λ k. find (λ q. str_eq q.id k) s.payouts ≡ some p)
          (sym ((eq_iff p.id id).0 (find_sound (λ q. str_eq q.id id) s.payouts p e))) e)
      ∙ ap (λ n. frozen_of s.payouts +ℤ n) (gone p)
    where
      gone :
          (q : PayoutRequest)
          → share (pending_of developer currency) (λ x. x.amount_cents) (f q) ≡ pos 0
      gone q = rw (leaves q) (ground arith)

  -- A payout that is out of review without a debit gives its amount back.
  pub available-set :
      (f : PayoutRequest → PayoutRequest) (s : LedgerTables) (p : PayoutRequest) (id : String)
      → ((q : PayoutRequest) → is_pending_review (f q).state ≡ false)
      → find (λ q. str_eq q.id id) s.payouts ≡ some p
      → available_of (set_payout p f s) ≡ available_of s +ℤ share_of p
  available-set f s p id leaves e =
      available_lem (set_payout p f s)
      ∙ moved_back (total_of s.entries) (frozen_of s.payouts) (frozen_of (set_payout p f s).payouts)
          (held_of s.entries) (share_of p) (frozen-set f s p id leaves e)
      ∙ ap (λ n. n +ℤ share_of p) (sym (available_lem s))

  -- The debit of an approved payout takes what was frozen for it.
  pub available-debit :
      (f : PayoutRequest → PayoutRequest) (s : LedgerTables) (p : PayoutRequest) (id : String)
      (entry_id : String) (t : ℕ)
      → is_pending_review p.state ≡ true
      → ((q : PayoutRequest) → is_pending_review (f q).state ≡ false)
      → find (λ q. str_eq q.id id) s.payouts ≡ some p
      → available_of
          (record (set_payout p f s) { entries = s.entries ++ debit_entry p entry_id t ∷ [] })
        ≡ available_of s
  unfolding share_of
  available-debit f s p id entry_id t pending leaves e =
      available_lem _
      ∙ rw (held-debit s.entries p entry_id t) (
          paid_out (total_of s.entries) (total_of (s.entries ++ debit_entry p entry_id t ∷ []))
            (frozen_of s.payouts) (frozen_of (set_payout p f s).payouts) (held_of s.entries)
            (share_of p)
            (sum_if-append (entry_of developer currency) (λ x. x.amount_cents) s.entries
                (debit_entry p entry_id t)
              ∙ ap (λ n. total_of s.entries +ℤ n) debit_share)
            (frozen-set f s p id leaves e))
      ∙ sym (available_lem s)
    where
      debit_share :
          share (entry_of developer currency) (λ x. x.amount_cents) (debit_entry p entry_id t)
          ≡ pos 0 -ℤ share_of p
      debit_share = rw pending (
          share_negated (str_eq p.developer_id developer) (str_eq p.currency currency)
            p.amount_cents)

  pub available-submit :
      (s : LedgerTables) (p : PayoutRequest)
      → available_of (record s { payouts = s.payouts ++ p ∷ [] }) ≡ available_of s -ℤ share_of p
  unfolding share_of
  available-submit s p =
      available_lem _
      ∙ ap (λ n. total_of s.entries -ℤ n -ℤ held_of s.entries)
          (sum_if-append (pending_of developer currency) (λ x. x.amount_cents) s.payouts p)
      ∙ less_frozen (total_of s.entries) (frozen_of s.payouts) (held_of s.entries) (share_of p)
      ∙ ap (λ n. n -ℤ share_of p) (sym (available_lem s))
