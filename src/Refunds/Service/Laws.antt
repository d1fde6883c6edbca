-- ===== src/Refunds/Service/Laws.antt =====
-- What a refund that the provider refused leaves behind.
use nova_pay.Base.{
  ℕ, suc, ◌≡◌, refl, String, Bool, true, false, not, ◌&&◌, none, some, List, [], ◌∷◌, arith,
  Bool-cases, inl, inr,
}
use nova_pay.Base.Rows.{update_where}
use nova_pay.Store.Schema.{PaymentOrder, PaymentRefund}
use nova_pay.Store.World.{Env, World, Error, Outcome, threw, thrown, PaymentRefundNotification}
use nova_pay.Store.Monad.{err, find_refund, is_refund}
use nova_pay.Store.Frame.{update_refund_lem}
use nova_pay.Refunds.Amount.{is_reserving, get_reserved_refund_amount, RefundInput}
use nova_pay.Refunds.Service.{refused_refund, send_refund}

refused-is_reserving :
    (env : Env) (e : Error) (t : ℕ) (k : String) (y : PaymentRefund)
    → is_reserving k none (record (refused_refund env e y) { updated_at = t }) ≡ false
unfolding is_reserving refused_refund
refused-is_reserving env e t k y = ground arith

excluded-is_reserving :
    (id k : String) (y : PaymentRefund)
    → is_reserving k (some id) y ≡ (is_reserving k none y && not (is_refund id y))
unfolding is_reserving
excluded-is_reserving id k y = ground arith

and_not-true : (b : Bool) → (b && not true) ≡ false
and_not-true true = refl
and_not-true false = refl

and_not-false : (b : Bool) → (b && not false) ≡ b
and_not-false true = refl
and_not-false false = refl

reserved-refused :
    (env : Env) (e : Error) (t : ℕ) (id k : String) (rs : List PaymentRefund)
    → get_reserved_refund_amount k none
        (update_where (is_refund id) (λ y. record (refused_refund env e y) { updated_at = t }) rs)
      ≡ get_reserved_refund_amount k (some id) rs
unfolding get_reserved_refund_amount update_where
reserved-refused env e t id k [] = refl
reserved-refused env e t id k (y ∷ rs) = elim (Bool-cases (is_refund id y)) [
  | inl h ↦
      rw (excluded-is_reserving id k y, h, refused-is_reserving env e t k y, and_not-true)
        (reserved-refused env e t id k rs)
  | inr h ↦
      rw (excluded-is_reserving id k y, h, and_not-false, reserved-refused env e t id k rs) refl
]

-- If the provider's call for a refund that is there fails, the same failure is thrown on, what is
-- reserved on any order is then what refunds other than this one reserve, and the ledger is as before.
pub send-releases :
    (env : Env)
    (create : ℕ → PaymentOrder → PaymentRefund → String → Outcome PaymentRefundNotification)
    (created : Bool) (o : PaymentOrder) (input : RefundInput) (r : PaymentRefund) (w : World)
    (text k : String)
    → find_refund r.id w ≡ some r
    → create w.ticks o r input.amount ≡ threw text
    → let p = send_refund env create created o input r w in
      (p.0 ≡ err (thrown text))
      × (get_reserved_refund_amount k none p.1.refunds
          ≡ get_reserved_refund_amount k (some r.id) w.refunds)
      × (p.1.ledger ≡ w.ledger)
unfolding send_refund
send-releases env create created o input r w text k e f =
    rw
      (
        f,
        update_refund_lem env r.id (refused_refund env (thrown text))
            (record w { ticks = suc w.ticks }) r e,
      )
      (refl, reserved-refused env (thrown text) (env.time (suc w.ticks)) r.id k w.refunds, refl)
