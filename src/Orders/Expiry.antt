-- ===== src/Orders/Expiry.antt =====
-- lib/orders/service.ts: ending an order whose time has run out, and the sweep over such orders.
use nova_pay.Base.{
  ℕ, suc, String, Bool, true, false, ◌&&◌, ◌||◌, Option, none, some, get_or, is_some, List, [], ◌∷◌,
  ltb, leb, keep, length, if◌then◌else◌,
}
use nova_pay.Base.Json.{str, obj, field, end}
use nova_pay.Base.Sort.{sort_by, take}
use nova_pay.Orders.Status.{
  pending, processing, succeeded, cancelled, ◌is◌, is_terminal_payment_status,
}
use nova_pay.Store.Schema.{PaymentOrder}
use nova_pay.Store.World.{Env, World, Outcome, PaymentNotification}
use nova_pay.Store.Monad.{
  Action, Result, ok, err, ◌>>=◌, ◌>>◌, pure, gets, await, catch, read_clock,
}
use nova_pay.Callbacks.Plan.{nullable_date}
use nova_pay.Orders.Notify.{apply_payment_notification}
use nova_pay.Orders.Provider.{
  require_merchant_runtime_account, reload, query_of, close_of, sync_payment_order_from_provider,
}

-- `extra` is the error of a failed close, if there was one.
unfoldable pub build_expired_payment_notification :
    Env → PaymentOrder → String → Option String → PaymentNotification
build_expired_payment_notification env order source extra = record {
  order_id = order.id;
  gateway_order_id = order.gateway_order_id;
  provider_status = "ORDER_EXPIRED";
  amount = some (env.decimal order.amount);
  paid_at = none;
  succeeds = false;
  raw_payload = obj (
      field "source" (str source) (
        field "expireAt" (nullable_date env order.expire_at)
          (elim extra [ none ↦ end | some e ↦ field "closeError" (str e) end ])));
  evidence_kind = none;
}

-- `!order.expireAt || order.expireAt.getTime() > Date.now()`
abbrev pub is_not_expired : ℕ → PaymentOrder → Bool
is_not_expired now order = elim order.expire_at [ none ↦ true | some t ↦ ltb now t ]

unfoldable pub expire_locally : Env → String → Option String → PaymentOrder → Action PaymentOrder
expire_locally env source extra order = do
  apply_payment_notification env (build_expired_payment_notification env order source extra)
  reload order

unfoldable pub close_at_provider :
    Env → PaymentOrder → (ℕ → PaymentOrder → Outcome PaymentNotification) → Action PaymentOrder
close_at_provider env order close = do
  account ← require_merchant_runtime_account order.merchant_channel_account_id
  n ← await (λ tick. close tick order)
  apply_payment_notification env n

unfoldable pub close_or_expire :
    Env
    → String
    → PaymentOrder
    → Option (ℕ → PaymentOrder → Outcome PaymentNotification)
    → Action PaymentOrder
unfolding expire_locally close_at_provider
close_or_expire env source order none = expire_locally env source none order
close_or_expire env source order (some close) =
    catch (close_at_provider env order close) (λ e.
      apply_payment_notification env
        (build_expired_payment_notification env order source (some (env.message e))))
    >> reload order

-- The second look at the clock, after the provider was asked.
unfoldable pub expire_current : Env → String → PaymentOrder → Action PaymentOrder
unfolding close_or_expire
expire_current env source order = do
  now ← read_clock env
  if is_not_expired now order
      then pure order
      else close_or_expire env source order (close_of (env.provider order.channel_code))

-- `if (isTerminalPaymentStatus(currentOrder.status)) return currentOrder`
unfoldable pub expire_if_open : Env → String → PaymentOrder → Action PaymentOrder
unfolding expire_current
expire_if_open env source order =
    if is_terminal_payment_status order.status then pure order else expire_current env source order

unfoldable pub expire_asking : Env → String → PaymentOrder → Bool → Action PaymentOrder
unfolding expire_if_open
expire_asking env source order false = expire_current env source order
expire_asking env source order true =
    catch (sync_payment_order_from_provider env order) (λ _. reload order)
    >>= expire_if_open env source

unfoldable pub expire_overdue : Env → PaymentOrder → String → Action PaymentOrder
unfolding expire_asking
expire_overdue env order source = do
  now ← read_clock env
  if is_not_expired now order
      then pure order
      else expire_asking env source order (is_some (query_of (env.provider order.channel_code)))

unfoldable pub expire_payment_order_if_needed : Env → PaymentOrder → String → Action PaymentOrder
unfolding expire_overdue
expire_payment_order_if_needed env order source =
    if is_terminal_payment_status order.status then pure order else expire_overdue env order source

-- The condition and the order of the sweep.
unfoldable pub is_overdue : ℕ → PaymentOrder → Bool
is_overdue now o =
    (o.status is pending || o.status is processing)
    && elim o.expire_at [ none ↦ false | some t ↦ leb t now ]

-- The rows that `is_overdue` selects have an expiry.
expiry_order : PaymentOrder → PaymentOrder → Bool
expiry_order a b =
    ltb (get_or a.expire_at 0) (get_or b.expire_at 0)
    || leb (get_or a.expire_at 0) (get_or b.expire_at 0) && leb a.created_at b.created_at

pub record SweepReport : Type 0 where
  pub scanned : ℕ
  pub cancelled_count : ℕ
  pub succeeded_after_sync : ℕ
  pub failed_count : ℕ

unfoldable pub count_expiry : Result PaymentOrder → SweepReport → SweepReport
count_expiry (err e) t = record t { failed_count = suc t.failed_count }
count_expiry (ok o) t =
    if o.status is succeeded
    then record t { succeeded_after_sync = suc t.succeeded_after_sync }
    else if o.status is cancelled
    then record t { cancelled_count = suc t.cancelled_count }
    else t

unfoldable pub expire_each : Env → List PaymentOrder → SweepReport → World → SweepReport × World
expire_each env [] t w = (t, w)
expire_each env (o ∷ os) t w =
    let (r, w') = expire_payment_order_if_needed env o "expiry_worker" w in
    expire_each env os (count_expiry r t) w'

unfoldable pub close_expired_payment_orders : Env → Option ℕ → Action SweepReport
unfolding expiry_order
close_expired_payment_orders env batch_size = do
  now ← read_clock env
  overdue ←
      gets λ w. take (get_or batch_size 50) (sort_by expiry_order (keep (is_overdue now) w.orders))
  λ w.
      let (t, w') =
        expire_each env overdue
          (record {
            scanned = length overdue;
            cancelled_count = 0;
            succeeded_after_sync = 0;
            failed_count = 0;
          })
          w in
      (ok t, w')
