-- ===== src/Orders/Close.antt =====
-- lib/orders/service.ts: what a merchant can ask of an order, its state and its end.

use nova_pay.Base.{ℕ, String, Bool, ◌||◌, Option, none, some, if◌then◌else◌}
use nova_pay.Orders.Status.{succeeded, failed, cancelled, ◌is◌, is_terminal_payment_status}
use nova_pay.Store.Schema.{PaymentOrder}
use nova_pay.Store.World.{
  Env, Outcome, PaymentNotification, app, order_already_paid, channel_close_unsupported,
}
use nova_pay.Store.Monad.{Action, ◌>>=◌, ◌>>◌, pure, raise, await}
use nova_pay.Orders.Notify.{apply_payment_notification}
use nova_pay.Orders.Provider.{
  require_merchant_runtime_account, get_merchant_payment_order_by_reference, reload, close_of,
  sync_payment_order_from_provider,
}
use nova_pay.Orders.Expiry.{expire_payment_order_if_needed}

-- `sync` is false only where the caller says `syncWithProvider: false`.
unfoldable pub get_merchant_payment_order : Env → String → String → Bool → Action PaymentOrder
get_merchant_payment_order env merchant_code reference sync = do
  order ← get_merchant_payment_order_by_reference merchant_code reference
  current ← if sync then sync_payment_order_from_provider env order else pure order
  expire_payment_order_if_needed env current "merchant_lookup"

pub close_by :
    Env
    → PaymentOrder
    → Option (ℕ → PaymentOrder → Outcome PaymentNotification)
    → Action PaymentOrder
close_by env order none = raise (app channel_close_unsupported 422)
close_by env order (some close) = do
  account ← require_merchant_runtime_account order.merchant_channel_account_id
  n ← await (λ tick. close tick order)
  apply_payment_notification env n
  reload order

-- From the order's current status on.
unfoldable pub close_current : Env → PaymentOrder → Action PaymentOrder
unfolding close_by
close_current env order =
    if order.status is succeeded
    then raise (app order_already_paid 409)
    else if order.status is cancelled || order.status is failed
    then pure order
    else close_by env order (close_of (env.provider order.channel_code))

unfoldable pub close_merchant_payment_order : Env → String → String → Action PaymentOrder
close_merchant_payment_order env merchant_code reference = do
  order ← get_merchant_payment_order_by_reference merchant_code reference
  current ←
      if is_terminal_payment_status order.status
      then pure order
      else sync_payment_order_from_provider env order
  close_current env current
