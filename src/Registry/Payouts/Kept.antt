-- ===== src/Registry/Payouts/Kept.antt =====
-- What keeps a balance from being overdrawn.
use nova_pay.Base.{
  ℕ, ◌≤◌, ◌≡◌, refl, sym, ◌∙◌, subst, arith, String, Bool, true, List, [], ◌∷◌, ◌++◌, ◌==◌,
  Bool-cases, inl, inr,
}
use nova_pay.Base.Int.{ℤ, pos, ◌+ℤ◌, ◌-ℤ◌, ◌≤ℤ◌, int_laws}
use nova_pay.Base.Rows.{update_first}
use nova_pay.Base.Sort.{All}
use nova_pay.Registry.Payouts.{
  LedgerEntry, PayoutRequest, entry_of, pending_of, is_held, compute_held_credits_from_entries,
}
use nova_pay.Registry.Payouts.Balances.{
  available_of, share_of, held_of, available_lem, held_is_entry, plus_zero,
}
use nova_pay.Registry.Payouts.Stored.{LedgerTables}
use nova_pay.Registry.Payouts.Sums.{share, sum_if-append, sum_if-mono, share_mono}

abbrev pub IsPositive : PayoutRequest → Type 0
IsPositive p = pos 0 ≤ℤ p.amount_cents

pub All-append :
    (ps : List PayoutRequest) (p : PayoutRequest)
    → All IsPositive ps
    → IsPositive p
    → All IsPositive (ps ++ p ∷ [])
All-append [] p h k = (k, tt)
All-append (q ∷ ps) p (h, hs) k = (h, All-append ps p hs k)

pub All-update :
    (t : PayoutRequest → Bool) (f : PayoutRequest → PayoutRequest) (ps : List PayoutRequest)
    → ((p : PayoutRequest) → IsPositive p → IsPositive (f p))
    → All IsPositive ps
    → All IsPositive (update_first t f ps)
unfolding update_first
All-update t f [] k h = tt
All-update t f (p ∷ ps) k (h, hs) = elim (Bool-cases (t p)) [
  | inl e ↦ rw e (k p h, hs)
  | inr e ↦ rw e (h, All-update t f ps k hs)
]

kept_by_less : (a b h k : ℤ) → k ≤ℤ h → pos 0 ≤ℤ a -ℤ b -ℤ h → pos 0 ≤ℤ a -ℤ b -ℤ k
kept_by_less a b h k le e = omega int_laws

pub kept_by_more : (a b : ℤ) → pos 0 ≤ℤ a → pos 0 ≤ℤ b → pos 0 ≤ℤ a +ℤ b
kept_by_more a b h k = omega int_laws

pub less_nothing : (a : ℤ) → pos 0 ≤ℤ a → pos 0 ≤ℤ a -ℤ pos 0
less_nothing a h = omega int_laws

kept_by_credit : (t f h e k : ℤ) → k ≤ℤ e → pos 0 ≤ℤ t -ℤ f -ℤ h → pos 0 ≤ℤ t +ℤ e -ℤ f -ℤ (h +ℤ k)
kept_by_credit t f h e k le x = omega int_laws

module _ (developer currency : String) (hold_days : ℕ) where
  -- Time only ends holds.
  held_later :
      (now after : ℕ) (es : List LedgerEntry)
      → now ≤ after
      → held_of developer currency hold_days after es ≤ℤ held_of developer currency hold_days now es
  unfolding compute_held_credits_from_entries
  held_later now after es le = elim (Bool-cases (hold_days == 0)) [
    | inl z ↦ rw z (omega int_laws)
    | inr z ↦ rw z (
        sum_if-mono (is_held developer currency hold_days now)
          (is_held developer currency hold_days after) (λ e. e.amount_cents) es ends gained)
  ]
    where
      ends :
          (e : LedgerEntry)
          → is_held developer currency hold_days after e ≡ true
          → is_held developer currency hold_days now e ≡ true
      ends e h = ground (arith, le)

      gained :
          (e : LedgerEntry)
          → is_held developer currency hold_days now e ≡ true
          → pos 0 ≤ℤ e.amount_cents
      gained e h = ground arith

  pub share_positive :
      (now : ℕ) (p : PayoutRequest)
      → IsPositive p
      → pos 0 ≤ℤ share_of developer currency hold_days now p
  unfolding share_of
  share_positive now p h = elim (Bool-cases (pending_of developer currency p)) [
    | inl t ↦ rw t h
    | inr t ↦ rw t (omega int_laws)
  ]

  pub later_keeps :
      (now after : ℕ) (s : LedgerTables)
      → now ≤ after
      → pos 0 ≤ℤ available_of developer currency hold_days now s
      → pos 0 ≤ℤ available_of developer currency hold_days after s
  later_keeps now after s le h =
      subst (λ n. pos 0 ≤ℤ n) (sym (available_lem developer currency hold_days after s))
        (kept_by_less _ _ _ _ (held_later now after s.entries le)
          (subst (λ n. pos 0 ≤ℤ n) (available_lem developer currency hold_days now s) h))

  held-append :
      (now : ℕ) (es : List LedgerEntry) (e : LedgerEntry)
      → pos 0 ≤ℤ e.amount_cents
      → (k : ℤ) × (held_of developer currency hold_days now (es ++ e ∷ [])
          ≡ held_of developer currency hold_days now es +ℤ k)
        × (k ≤ℤ share (entry_of developer currency) (λ x. x.amount_cents) e)
  unfolding compute_held_credits_from_entries
  held-append now es e h = elim (Bool-cases (hold_days == 0)) [
    | inl z ↦ (pos 0, rw z (sym (plus_zero (pos 0))), share_entry)
    | inr z ↦ (
      share (is_held developer currency hold_days now) (λ x. x.amount_cents) e,
      rw z (sum_if-append (is_held developer currency hold_days now) (λ x. x.amount_cents) es e),
      share_mono (entry_of developer currency) (is_held developer currency hold_days now)
          (λ x. x.amount_cents) e (held_is_entry developer currency hold_days now e) (λ t. h),
    )
  ]
    where
      share_entry : pos 0 ≤ℤ share (entry_of developer currency) (λ x. x.amount_cents) e
      share_entry = elim (Bool-cases (entry_of developer currency e)) [
        | inl t ↦ rw t h
        | inr t ↦ rw t (omega int_laws)
      ]

  pub credit_keeps :
      (now : ℕ) (s : LedgerTables) (e : LedgerEntry)
      → pos 0 ≤ℤ e.amount_cents
      → pos 0 ≤ℤ available_of developer currency hold_days now s
      → pos 0
        ≤ℤ available_of developer currency hold_days now
            (record s { entries = s.entries ++ e ∷ [] })
  credit_keeps now s e h a =
      let (k, held, less) = held-append now s.entries e h in
      subst (λ n. pos 0 ≤ℤ n)
        (sym (
          available_lem developer currency hold_days now _
          ∙ rw (held, sum_if-append (entry_of developer currency) (λ x. x.amount_cents) s.entries e)
              refl))
        (kept_by_credit _ _ _ _ k less
          (subst (λ n. pos 0 ≤ℤ n) (available_lem developer currency hold_days now s) a))
