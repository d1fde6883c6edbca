-- ===== src/Orders/Notify/Laws.antt =====
-- applyPaymentNotification of lib/orders/service.ts from its start to its end, on every way through it.
use nova_pay.Base.{
  ℕ, suc, ◌≡◌, refl, ap, subst, ◌∙◌, String, Option, none, some, List, if◌then◌else◌, inl, inr, not,
  ◌&&◌, ◌⊎◌,
}
use nova_pay.Base.Int.{pos}
use nova_pay.Orders.Status.{succeeded, ◌is◌}
use nova_pay.Store.Schema.{PaymentOrder, Merchant, MerchantLedgerEntry, capture_key}
use nova_pay.Store.World.{
  Env, World, PaymentNotification, Error, app, thrown, threw, payment_evidence_channel_mismatch,
}
use nova_pay.Payments.ChannelCodes.{is_ctf_bill_capture_channel_code}
use nova_pay.Orders.Notify.Amount.{assert_payment_notification_amount_matches}
use nova_pay.Callbacks.Plan.{build_plan}
use nova_pay.Store.Monad.{Result, ok, err, raise, find_order, find_merchant}
use nova_pay.Store.Ends.{either_if}
use nova_pay.Store.Frame.{
  update_order_lem, find_order-update, find_order_self, written_order, after_order_update,
}
use nova_pay.Callbacks.Dispatch.Laws.{load_lem}
use nova_pay.Finance.Ledger.Laws.{posted}
use nova_pay.Orders.Notify.{
  apply_payment_notification, write_notification, apply_to_amount, is_ctf_evidence, expected_amount,
  notified_row, next_status, should_queue_callback,
}
use nova_pay.Orders.Notify.Written.{Written, dispatch_if_queued-Written}

-- What a notification `n` of the order `o` leaves when it is applied.
abbrev pub Applied :
    PaymentOrder → PaymentNotification → List MerchantLedgerEntry → PaymentOrder → World → Type 0
Applied o n before updated w' =
    (o' : PaymentOrder) × (find_order o.id w' ≡ some o')
    × (o'.status ≡ next_status o n)
    × (o'.amount ≡ o.amount)
    × (updated.status ≡ next_status o n)
    × (posted (capture_key o.id) w'.ledger ≡ (
        if next_status o n is succeeded
        then some (pos o.amount)
        else posted (capture_key o.id) before))

-- What a notification leaves whose callback, queued by it, threw: the order in the status that it
-- resolves to, and the ledger as it was, also if the order is now paid.
abbrev pub Unposted :
    Env → PaymentOrder → PaymentNotification → Merchant → World → Error → World → Type 0
Unposted env o n m before e w' =
    (o' : PaymentOrder) × (row : PaymentOrder) × (text : String) × (target : String) × (now : ℕ)
    × (find_order o.id w' ≡ some o')
    × (o'.status ≡ next_status o n)
    × (o'.amount ≡ o.amount)
    × (w'.ledger ≡ before.ledger)
    × (row.id ≡ o.id)
    × (row.status ≡ next_status o n)
    × (row.metadata ≡ o.metadata)
    × (e ≡ thrown text)
    × (build_plan env row m target (env.iso now) w' ≡ threw text)

-- The three ends of a notification.
abbrev pub Notified :
    Env
    → PaymentOrder
    → PaymentNotification
    → Merchant
    → World
    → Result PaymentOrder × World
    → Type 0
Notified env o n m before (ok u, w') = Applied o n before.ledger u w'
Notified env o n m before (err e, w') = (w' ≡ before) ⊎ Unposted env o n m before e w'

module _ (env : Env) (n : PaymentNotification) (o : PaymentOrder) (m : Merchant) (w : World) where
  later : World
  later = record w { ticks = suc w.ticks }

  row_of : PaymentOrder
  unfolding later
  row_of = written_order env later (notified_row o m n (env.time w.ticks)) o

  -- A notification that writes the row leaves it so.
  Written-Notified :
      (before : World) (p : Result PaymentOrder × World)
      → before.ledger ≡ w.ledger
      → Written env row_of m before.ledger p
      → Notified env o n m w p
  unfolding row_of notified_row
  Written-Notified before (ok u, w') k (o', found, same, is_row, money) = (
    o',
    found,
    ap (λ t. t.0) same,
    ap (λ t. t.1) same,
    ap (λ r. r.status) is_row,
    subst
        (λ l. posted (capture_key o.id) w'.ledger ≡ (
          if next_status o n is succeeded
          then some (pos o.amount)
          else posted (capture_key o.id) l))
        k money,
  )
  Written-Notified before (err e, w') k (o', text, target, now, found, same, kept, e1, e2) = inr (
    o',
    row_of,
    text,
    target,
    now,
    found,
    ap (λ t. t.0) same,
    ap (λ t. t.1) same,
    kept ∙ k,
    refl,
    refl,
    refl,
    e1,
    e2,
  )

  write_notification-Notified :
      find_order o.id w ≡ some o
      → find_merchant o.merchant_id w ≡ some m
      → Notified env o n m w (write_notification env n o m w)
  unfolding write_notification later row_of notified_row
  write_notification-Notified e f =
      rw (update_order_lem env o.id (notified_row o m n (env.time w.ticks)) later o e) (
        Written-Notified (after_order_update env o.id (notified_row o m n (env.time w.ticks)) later)
          _ refl
          (dispatch_if_queued-Written env (should_queue_callback o m (next_status o n)) row_of m
            (after_order_update env o.id (notified_row o m n (env.time w.ticks)) later)
            (find_order-update env o.id (notified_row o m n (env.time w.ticks)) later o (λ y. refl)
              e)
            f))

-- A notification for an order that is there, with its merchant, comes to one of three ends. It is
-- refused, and then nothing at all has changed. Or it leaves the order in the status that it resolves
-- to, with its amount, and a paid order with its whole amount as a credit in the ledger; if the order is
-- not paid, its capture entry is as it was. Or the callback that it queues throws, because no request
-- can be made for it; then the order is in that status with its amount, and the ledger as it was, so
-- that an order that became paid has no new credit.
pub apply-Notified :
    (env : Env) (n : PaymentNotification) (o : PaymentOrder) (m : Merchant) (w : World)
    → find_order n.order_id w ≡ some o
    → find_merchant o.merchant_id w ≡ some m
    → Notified env o n m w (apply_payment_notification env n w)
unfolding apply_payment_notification
apply-Notified env n o m w e f = rw (load_lem n.order_id w o m e f) (
    either_if P
      (is_ctf_evidence n.evidence_kind && not (is_ctf_bill_capture_channel_code env o.channel_code))
      (raise (app payment_evidence_channel_mismatch 409)) (apply_to_amount env n o m checked) w
      (inl refl) (after_check checked))
  where
    P : Result PaymentOrder × World → Type 0
    P = Notified env o n m w

    checked : Option Error
    checked = assert_payment_notification_amount_matches env (expected_amount o) n.amount n.succeeds

    after_check : (c : Option Error) → P (apply_to_amount env n o m c w)
    after_check (some x) = inl refl
    after_check none = write_notification-Notified env n o m w (find_order_self n.order_id w o e) f
