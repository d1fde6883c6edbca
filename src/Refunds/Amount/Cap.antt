-- ===== src/Refunds/Amount/Cap.antt =====
-- The cap on the refunds of an order.
use nova_pay.Base.{
  ℕ, suc, ◌+◌, ◌≤◌, ◌≡◌, refl, String, true, Option, none, some, List, [], ◌∷◌, ◌++◌, arith, eq_iff,
  subst, sym,
}
use nova_pay.Base.Int.{ℤ, pos, negsuc}
use nova_pay.Store.Schema.{PaymentOrder, PaymentRefund}
use nova_pay.Store.World.{Env, World, Error}
use nova_pay.Store.Ends.{Atomic}
use nova_pay.Refunds.Amount.{
  is_reserving, get_reserved_refund_amount, check_requested, assert_refund_amount, to_cents,
  new_refund, insert_refund, reserve_refund, RefundInput,
}

reserved-append :
    (k : String) (excluded : Option String) (rs : List PaymentRefund) (r : PaymentRefund)
    → is_reserving k excluded r ≡ true
    → get_reserved_refund_amount k excluded (rs ++ r ∷ [])
      ≡ get_reserved_refund_amount k excluded rs + r.amount
unfolding get_reserved_refund_amount
reserved-append k excluded [] r h = rw h (omega arith)
reserved-append k excluded (x ∷ rs) r h = ground (arith, reserved-append k excluded rs r h)

check-cap :
    (amount reserved : ℕ) (requested : Option ℤ)
    → check_requested amount reserved requested ≡ none
    → reserved + to_cents requested ≤ amount + 1
unfolding check_requested to_cents
check-cap amount reserved none h = cc
check-cap amount reserved (some (negsuc n)) h = cc
check-cap amount reserved (some (pos n)) h = ground arith

-- What a reservation of `r` leaves.
abbrev pub Reserved : PaymentOrder → World → PaymentRefund → World → Type 0
Reserved o w r w' =
    (get_reserved_refund_amount o.id none w'.refunds
      ≡ get_reserved_refund_amount o.id none w.refunds + r.amount)
    × (get_reserved_refund_amount o.id none w'.refunds ≤ o.amount + 1)
    × (w'.orders ≡ w.orders)
    × (w'.ledger ≡ w.ledger)

new-is_reserving :
    (env : Env) (id : String) (now : ℕ) (o : PaymentOrder) (input : RefundInput)
    → is_reserving o.id none (new_refund env id now o input) ≡ true
unfolding is_reserving new_refund
new-is_reserving env id now o input = rw ((eq_iff o.id o.id).1 refl) refl

-- A reservation that succeeds leaves the order's pending, processing and paid refunds at their sum
-- before plus the new one's amount, and that is at most the order's amount and one cent; the orders
-- and the ledger are as before. One that throws changes nothing.
pub reserve-Atomic :
    (env : Env) (o : PaymentOrder) (input : RefundInput) (w : World)
    → Atomic (Reserved o w) w (reserve_refund env o input w)
unfolding reserve_refund insert_refund assert_refund_amount new_refund
reserve-Atomic env o input w = inserted (assert_refund_amount env input.amount o.amount before) refl
  where
    before : ℕ
    before = get_reserved_refund_amount o.id none w.refunds

    row : PaymentRefund
    row = new_refund env (env.fresh w.ticks) (env.time (suc w.ticks)) o input

    sums : get_reserved_refund_amount o.id none (w.refunds ++ row ∷ []) ≡ before + row.amount
    sums =
        reserved-append o.id none w.refunds row
          (new-is_reserving env (env.fresh w.ticks) (env.time (suc w.ticks)) o input)

    inserted :
        (c : Option Error)
        → assert_refund_amount env input.amount o.amount before ≡ c
        → Atomic (Reserved o w) w (insert_refund env o input c w)
    inserted (some e) h = refl
    inserted none h = (
      sums,
      subst (λ n. n ≤ o.amount + 1) (sym sums)
          (check-cap o.amount before (env.amount_of input.amount) h),
      refl,
      refl,
    )
