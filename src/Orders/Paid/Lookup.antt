-- ===== src/Orders/Paid/Lookup.antt =====
-- The services that ask a provider about an order keep the paid orders paid.
use nova_pay.Base.{
  ℕ, suc, String, Bool, true, false, ◌||◌, Option, none, some, is_some, List, [], ◌∷◌,
}
use nova_pay.Orders.Status.{succeeded, failed, cancelled, ◌is◌, is_terminal_payment_status}
use nova_pay.Store.Schema.{PaymentOrder, Merchant, MerchantChannelAccount}
use nova_pay.Store.World.{Env, World, Outcome, PaymentNotification, Error, app, order_already_paid}
use nova_pay.Store.Monad.{◌>>=◌, ◌>>◌, pure, raise, catch, await, read_clock}
use nova_pay.Orders.Notify.{apply_payment_notification}
use nova_pay.Orders.Provider.{
  require_merchant_runtime_account, runtime_account, or_account_missing, find_account,
  update_merchant_channel_account_health, query_of, close_of, reload, query_and_apply, sync_by,
  sync_payment_order_from_provider, get_merchant_payment_order_by_reference, find_merchant_by_code,
  or_merchant_missing, or_order_missing,
}
use nova_pay.Callbacks.Dispatch.{present}
use nova_pay.Orders.Expiry.{
  expire_payment_order_if_needed, expire_overdue, expire_asking, expire_if_open, expire_current,
  close_or_expire, close_at_provider, expire_locally, is_not_expired,
  build_expired_payment_notification, SweepReport, expire_each, close_expired_payment_orders,
}
use nova_pay.Orders.Close.{close_by, close_current, close_merchant_payment_order}
use nova_pay.Orders.Paid.{IsPaid, Keeps, Keeps->>=, Keeps-catch, Keeps-if, Keeps-await}
use nova_pay.Orders.Paid.Services.{apply-IsPaid}

module _ (id : String) (env : Env) where
  abbrev Asked : Type 0
  Asked = ℕ → PaymentOrder → Outcome PaymentNotification

  account-Keeps : (k : Option String) → Keeps id (require_merchant_runtime_account k)
  unfolding require_merchant_runtime_account
  account-Keeps k = known (present k)
    where
      found : (x : Option MerchantChannelAccount) → Keeps id (or_account_missing x)
      found none = λ w h. h
      found (some a) = λ w h. h

      known : (x : Option String) → Keeps id (runtime_account x)
      known none = λ w h. h
      known (some k) = λ w. found (find_account k w) w

  healthy-Keeps :
      (a : MerchantChannelAccount) (o : PaymentOrder)
      → Keeps id (
          read_clock env >>= λ now.
          update_merchant_channel_account_health env a.id (some now) none >> reload o)
  unfolding update_merchant_channel_account_health
  healthy-Keeps a o w h = h

  query_and_apply-Keeps :
      (o : PaymentOrder) (a : MerchantChannelAccount) (query : Asked)
      → Keeps id (query_and_apply env o a query)
  unfolding query_and_apply
  query_and_apply-Keeps o a query =
      Keeps->>= id (await (λ tick. query tick o)) _ (Keeps-await id _) (λ n.
        Keeps->>= id (apply_payment_notification env n) _ (apply-IsPaid id env n)
          (λ x. healthy-Keeps a o))

  unhealthy-Keeps :
      (a : MerchantChannelAccount) (e : Error)
      → Keeps id (
          update_merchant_channel_account_health env a.id none (some (env.message e))
          >> raise {A = PaymentOrder} e)
  unfolding update_merchant_channel_account_health
  unhealthy-Keeps a e w h = h

  sync_by-Keeps : (o : PaymentOrder) (query : Option Asked) → Keeps id (sync_by env o query)
  unfolding sync_by
  sync_by-Keeps o none = λ w h. h
  sync_by-Keeps o (some query) =
      Keeps->>= id (require_merchant_runtime_account o.merchant_channel_account_id) _
        (account-Keeps o.merchant_channel_account_id)
        (λ a.
          Keeps-catch id (query_and_apply env o a query) _ (query_and_apply-Keeps o a query)
            (unhealthy-Keeps a))

  -- Asking the provider of any order keeps a paid order paid.
  pub sync-Keeps : (o : PaymentOrder) → Keeps id (sync_payment_order_from_provider env o)
  unfolding sync_payment_order_from_provider
  sync-Keeps o = sync_by-Keeps o (query_of (env.provider o.channel_code))

  expired-Keeps :
      (source : String) (extra : Option String) (o : PaymentOrder)
      → Keeps id
          (apply_payment_notification env (build_expired_payment_notification env o source extra))
  expired-Keeps source extra o =
      apply-IsPaid id env (build_expired_payment_notification env o source extra)

  close_at_provider-Keeps :
      (o : PaymentOrder) (close : Asked) → Keeps id (close_at_provider env o close)
  unfolding close_at_provider
  close_at_provider-Keeps o close =
      Keeps->>= id (require_merchant_runtime_account o.merchant_channel_account_id) _
        (account-Keeps o.merchant_channel_account_id)
        (λ a.
          Keeps->>= id (await (λ tick. close tick o)) _ (Keeps-await id _)
            (λ n. apply-IsPaid id env n))

  close_or_expire-Keeps :
      (source : String) (o : PaymentOrder) (close : Option Asked)
      → Keeps id (close_or_expire env source o close)
  unfolding close_or_expire expire_locally
  close_or_expire-Keeps source o none =
      Keeps->>= id
        (apply_payment_notification env (build_expired_payment_notification env o source none)) _
        (expired-Keeps source none o) (λ x w h. h)
  close_or_expire-Keeps source o (some close) =
      Keeps->>= id _ _
        (Keeps-catch id (close_at_provider env o close) _ (close_at_provider-Keeps o close)
          (λ e. expired-Keeps source (some (env.message e)) o))
        (λ x w h. h)

  expire_current-Keeps :
      (source : String) (o : PaymentOrder) → Keeps id (expire_current env source o)
  unfolding expire_current
  expire_current-Keeps source o w =
      Keeps-if id (is_not_expired (env.time w.ticks) o) (pure o)
        (close_or_expire env source o (close_of (env.provider o.channel_code))) (λ w h. h)
        (close_or_expire-Keeps source o (close_of (env.provider o.channel_code)))
        (record w { ticks = suc w.ticks })

  expire_if_open-Keeps :
      (source : String) (o : PaymentOrder) → Keeps id (expire_if_open env source o)
  unfolding expire_if_open
  expire_if_open-Keeps source o =
      Keeps-if id (is_terminal_payment_status o.status) (pure o) (expire_current env source o)
        (λ w h. h) (expire_current-Keeps source o)

  expire_asking-Keeps :
      (source : String) (o : PaymentOrder) (asks : Bool)
      → Keeps id (expire_asking env source o asks)
  unfolding expire_asking
  expire_asking-Keeps source o false = expire_current-Keeps source o
  expire_asking-Keeps source o true =
      Keeps->>= id (catch (sync_payment_order_from_provider env o) (λ _. reload o)) _
        (Keeps-catch id (sync_payment_order_from_provider env o) _ (sync-Keeps o) (λ e w h. h))
        (expire_if_open-Keeps source)

  expire_overdue-Keeps :
      (o : PaymentOrder) (source : String) → Keeps id (expire_overdue env o source)
  unfolding expire_overdue
  expire_overdue-Keeps o source w =
      Keeps-if id (is_not_expired (env.time w.ticks) o) (pure o)
        (expire_asking env source o (is_some (query_of (env.provider o.channel_code)))) (λ w h. h)
        (expire_asking-Keeps source o (is_some (query_of (env.provider o.channel_code))))
        (record w { ticks = suc w.ticks })

  -- Expiry of any order, the provider being asked before and told to close it, keeps a paid order
  -- paid.
  pub expire-IsPaid :
      (o : PaymentOrder) (source : String) (w : World)
      → IsPaid id w
      → IsPaid id (expire_payment_order_if_needed env o source w).1
  unfolding expire_payment_order_if_needed
  expire-IsPaid o source =
      Keeps-if id (is_terminal_payment_status o.status) (pure o) (expire_overdue env o source)
        (λ w h. h) (expire_overdue-Keeps o source)

  expire_each-Keeps :
      (os : List PaymentOrder) (t : SweepReport) (w : World)
      → IsPaid id w
      → IsPaid id (expire_each env os t w).1
  unfolding expire_each
  expire_each-Keeps [] t w h = h
  expire_each-Keeps (o ∷ os) t w h = expire_each-Keeps os _ _ (expire-IsPaid o "expiry_worker" w h)

  -- A sweep over the overdue orders keeps every paid order paid, whatever the providers answer.
  pub sweep-IsPaid :
      (limit : Option ℕ) (w : World)
      → IsPaid id w
      → IsPaid id (close_expired_payment_orders env limit w).1
  unfolding close_expired_payment_orders
  sweep-IsPaid limit w h = expire_each-Keeps _ _ _ h

  reference-Keeps :
      (code reference : String) → Keeps id (get_merchant_payment_order_by_reference code reference)
  unfolding get_merchant_payment_order_by_reference find_merchant_by_code
  reference-Keeps code reference =
      Keeps->>= id (find_merchant_by_code code) _ (λ w. merchant (_) w) (λ m w. order _ w)
    where
      merchant : (x : Option Merchant) → Keeps id (or_merchant_missing x)
      merchant none = λ w h. h
      merchant (some m) = λ w h. h

      order : (x : Option PaymentOrder) → Keeps id (or_order_missing x)
      order none = λ w h. h
      order (some o) = λ w h. h

  close_current-Keeps : (o : PaymentOrder) → Keeps id (close_current env o)
  unfolding close_current
  close_current-Keeps o =
      Keeps-if id (o.status is succeeded) (raise (app order_already_paid 409)) _ (λ w h. h)
        (Keeps-if id (o.status is cancelled || o.status is failed) (pure o)
          (close_by env o (close_of (env.provider o.channel_code))) (λ w h. h)
          (by_provider (close_of (env.provider o.channel_code))))
    where
      by_provider : (close : Option Asked) → Keeps id (close_by env o close)
      by_provider none = λ w h. h
      by_provider (some close) =
          Keeps->>= id (require_merchant_runtime_account o.merchant_channel_account_id) _
            (account-Keeps o.merchant_channel_account_id)
            (λ a. Keeps->>= id (await (λ tick. close tick o)) _ (Keeps-await id _) (λ n.
              Keeps->>= id (apply_payment_notification env n) _ (apply-IsPaid id env n)
                (λ x w h. h)))

  -- A merchant's request to close an order, its own or another, keeps a paid order paid.
  pub close-IsPaid :
      (code reference : String) (w : World)
      → IsPaid id w
      → IsPaid id (close_merchant_payment_order env code reference w).1
  unfolding close_merchant_payment_order
  close-IsPaid code reference =
      Keeps->>= id (get_merchant_payment_order_by_reference code reference) _
        (reference-Keeps code reference)
        (λ o.
          Keeps->>= id _ _
            (Keeps-if id (is_terminal_payment_status o.status) (pure o)
              (sync_payment_order_from_provider env o) (λ w h. h) (sync-Keeps o))
            close_current-Keeps)
