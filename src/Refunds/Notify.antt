-- ===== src/Refunds/Notify.antt =====
-- lib/refunds/service.ts, applyPaymentRefundNotificationById: how a provider's answer reaches a refund.
pub mod Laws
use Prim.Native.String
use nova_pay.Base.{
  ℕ, String, Bool, true, false, not, Option, none, some, or_else, str_eq, if◌then◌else◌,
}
use nova_pay.Refunds.Status.{PaymentRefundStatus, succeeded, failed, ◌is◌, resolve_refund_status}
use nova_pay.Store.Schema.{PaymentRefund}
use nova_pay.Store.World.{
  Env, PaymentRefundNotification, app, refund_not_found, refund_order_mismatch,
}
use nova_pay.Store.Monad.{
  Action, ◌>>=◌, ◌>>◌, pure, raise, gets, read_clock, find_refund, update_refund,
}
use nova_pay.Finance.Ledger.{sync_payment_refund_ledger_entries}

abbrev pub next_refund_status : PaymentRefund → PaymentRefundNotification → PaymentRefundStatus
next_refund_status r n = resolve_refund_status r.status n.provider_status n.succeeds

-- The row that a notification writes at the time `now`.
unfoldable pub notified_refund :
    PaymentRefund → PaymentRefundNotification → ℕ → PaymentRefund → PaymentRefund
notified_refund refund n now r =
    let next = next_refund_status refund n in
    record r {
      status = next;
      provider_status = some n.provider_status;
      provider_refund_id = or_else n.gateway_refund_id refund.provider_refund_id;
      failure_code = if next is failed then some n.provider_status else none;
      failure_message =
          if next is failed then some (String.◌++◌ "Provider status: " n.provider_status) else none;
      refunded_at =
          if next is succeeded
          then or_else n.refunded_at (or_else refund.refunded_at (some now))
          else refund.refunded_at;
    }

-- From the first write on.
unfoldable pub settle_refund : Env → PaymentRefund → Action (Option PaymentRefund)
settle_refund env updated =
    (if updated.status is succeeded
      then sync_payment_refund_ledger_entries env updated.id
      else pure tt)
    >> gets (find_refund updated.id)

unfoldable pub write_refund_notification :
    Env → PaymentRefundNotification → PaymentRefund → Action (Option PaymentRefund)
unfolding settle_refund
write_refund_notification env n refund = do
  now ← read_clock env
  updated ← update_refund env refund.id (notified_refund refund n now)
  settle_refund env updated

unfoldable pub apply_to_refund :
    Env → PaymentRefundNotification → Option PaymentRefund → Action (Option PaymentRefund)
unfolding write_refund_notification
apply_to_refund env n none = raise (app refund_not_found 404)
apply_to_refund env n (some refund) =
    if not (str_eq n.order_id refund.payment_order_id)
    then raise (app refund_order_mismatch 409)
    else write_refund_notification env n refund

unfoldable pub apply_payment_refund_notification_by_id :
    Env → String → PaymentRefundNotification → Action (Option PaymentRefund)
unfolding apply_to_refund
apply_payment_refund_notification_by_id env refund_id n = do
  found ← gets (find_refund refund_id)
  apply_to_refund env n found
