-- ===== src/Refunds/Notify/Laws.antt =====
-- What a provider's answer leaves of a refund and of the ledger.
use nova_pay.Base.{
  suc, ◌≡◌, refl, sym, ap, subst, ◌∙◌, String, Bool, true, false, not, Option, some, arith,
  if◌then◌else◌, Bool-cases, inl, inr, str_eq,
}
use nova_pay.Base.Rows.{find-update_if, find_sound}
use nova_pay.Base.Int.{pos, ◌-ℤ◌}
use nova_pay.Refunds.Status.{succeeded, ◌is◌, resolve_refund_status}
use nova_pay.Store.Schema.{PaymentOrder, PaymentRefund, Merchant, refund_key, capture_key}
use nova_pay.Store.World.{Env, World, PaymentRefundNotification, app, refund_order_mismatch}
use nova_pay.Store.Monad.{ok, raise, find_order, find_merchant, find_refund, is_refund}
use nova_pay.Store.Ends.{Atomic, Atomic-if}
use nova_pay.Store.Frame.{update_refund_lem, written_refund, after_refund_update, find_refund-id}
use nova_pay.Finance.Ledger.{
  sync_payment_refund_ledger_entries, sync_loaded_refund, post_refund, is_refunded,
}
use nova_pay.Finance.Ledger.Laws.{posted, post_refund-posted}
use nova_pay.Refunds.Notify.{
  next_refund_status, notified_refund, settle_refund, write_refund_notification, apply_to_refund,
  apply_payment_refund_notification_by_id,
}

-- A refund that was paid stays paid, whatever the provider says next.
pub resolve_refund-succeeded :
    (words : String) (succeeds : Bool) → resolve_refund_status succeeded words succeeds ≡ succeeded
unfolding resolve_refund_status
resolve_refund-succeeded words succeeds = ground arith

find_refund-update :
    (env : Env) (id : String) (f : PaymentRefund → PaymentRefund) (w : World) (r : PaymentRefund)
    → ((y : PaymentRefund) → (f y).id ≡ y.id)
    → find_refund id w ≡ some r
    → find_refund id (after_refund_update env id f w) ≡ some (written_refund env w f r)
find_refund-update env id f w r keeps e =
    rw
      (find-update_if (is_refund id) (is_refund id) (written_refund env w f) w.refunds r
        (λ y. rw (keeps y) refl) e)
      (rw (find_sound (is_refund id) w.refunds r e) refl)

sync_refund_lem :
    (env : Env) (id : String) (w : World) (r : PaymentRefund) (o : PaymentOrder) (m : Merchant)
    → find_refund id w ≡ some r
    → find_order r.payment_order_id w ≡ some o
    → find_merchant r.merchant_id w ≡ some m
    → (r.status is succeeded) ≡ true
    → sync_payment_refund_ledger_entries env id w
      ≡ (ok tt, record w { ledger = post_refund env r o m w.ledger })
unfolding sync_payment_refund_ledger_entries sync_loaded_refund is_refunded
sync_refund_lem env id w r o m e f g h = rw (e, f, g, h)

-- What is left of the refund `r` once the answer `n` is applied to it.
abbrev pub Answered :
    PaymentRefund → PaymentRefundNotification → World → Option PaymentRefund → World → Type 0
Answered r n w returned w' =
    (r' : PaymentRefund) × (returned ≡ some r')
    × (find_refund r.id w' ≡ some r')
    × (r'.status ≡ next_refund_status r n)
    × (r'.amount ≡ r.amount)
    × (w'.orders ≡ w.orders)
    × (posted (refund_key r.id) w'.ledger ≡ (
        if next_refund_status r n is succeeded
        then some (pos 0 -ℤ pos r.amount)
        else posted (refund_key r.id) w.ledger))

module _ (env : Env) (n : PaymentRefundNotification) (r : PaymentRefund) (o : PaymentOrder)
    (m : Merchant) (w : World) where
  row_at : PaymentRefund
  row_at =
      written_refund env (record w { ticks = suc w.ticks }) (notified_refund r n (env.time w.ticks))
        r

  settle-Answered :
      (before : World) (row : PaymentRefund)
      → find_refund row.id before ≡ some row
      → find_order row.payment_order_id before ≡ some o
      → find_merchant row.merchant_id before ≡ some m
      → row.id ≡ r.id
      → row.amount ≡ r.amount
      → row.status ≡ next_refund_status r n
      → before.orders ≡ w.orders
      → before.ledger ≡ w.ledger
      → Atomic (Answered r n w) w (settle_refund env row before)
  unfolding settle_refund
  settle-Answered before row e f g i a s os l = elim (Bool-cases (row.status is succeeded)) [
    | inl h ↦
        rw (h, sync_refund_lem env row.id before row o m e f g h, Atomic)
          (
            row,
            e,
            here,
            s,
            a,
            os,
            rw (subst (λ t. (t is succeeded) ≡ true) s h) (
                subst
                  (λ k.
                    posted (refund_key k) (post_refund env row o m before.ledger)
                    ≡ some (pos 0 -ℤ pos r.amount))
                  i
                  ((post_refund-posted env row o m before.ledger (capture_key "") (λ q. cc)).0
                    ∙ ap (λ x. some (pos 0 -ℤ pos x)) a)),
          )
    | inr h ↦
        rw (h, Atomic)
          (
            row,
            e,
            here,
            s,
            a,
            os,
            rw (subst (λ t. (t is succeeded) ≡ false) s h) (ap (posted (refund_key r.id)) l),
          )
  ]
    where
      here : find_refund r.id before ≡ some row
      here = subst (λ k. find_refund k before ≡ some row) i e

  write-Answered :
      find_refund r.id w ≡ some r
      → find_order r.payment_order_id w ≡ some o
      → find_merchant r.merchant_id w ≡ some m
      → Atomic (Answered r n w) w (write_refund_notification env n r w)
  unfolding write_refund_notification notified_refund row_at
  write-Answered e f g =
      rw (update_refund_lem env r.id (notified_refund r n (env.time w.ticks)) later r e, Atomic)
        (settle-Answered
          (after_refund_update env r.id (notified_refund r n (env.time w.ticks)) later) row_at
          (find_refund-update env r.id (notified_refund r n (env.time w.ticks)) later r (λ y. refl)
            e)
          f g refl refl refl refl refl)
    where
      later : World
      later = record w { ticks = suc w.ticks }

-- A provider's answer for a refund that is there, with its order and its merchant, either is refused,
-- and nothing changes, or it leaves the refund in the status that it resolves to, with its amount, and
-- a refund that is then paid with its whole amount as a debit in the ledger; if it is not paid, its
-- entry is as it was. No order changes.
pub apply_refund-Atomic :
    (env : Env) (id : String) (n : PaymentRefundNotification) (r : PaymentRefund) (o : PaymentOrder)
    (m : Merchant) (w : World)
    → find_refund id w ≡ some r
    → find_order r.payment_order_id w ≡ some o
    → find_merchant r.merchant_id w ≡ some m
    → Atomic (Answered r n w) w (apply_payment_refund_notification_by_id env id n w)
unfolding apply_payment_refund_notification_by_id apply_to_refund
apply_refund-Atomic env id n r o m w e f g = rw e (
    Atomic-if (Answered r n w) w (not (str_eq n.order_id r.payment_order_id))
      (raise (app refund_order_mismatch 409)) (write_refund_notification env n r) w refl
      (write-Answered env n r o m w
        (subst (λ k. find_refund k w ≡ some r) (sym (find_refund-id id w r e)) e) f g))
