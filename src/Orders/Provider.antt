-- ===== src/Orders/Provider.antt =====
-- lib/orders/service.ts: finding an order, and asking its payment provider about it.
use nova_pay.Base.{ℕ, String, Bool, ◌&&◌, ◌||◌, Option, none, some, get_or, str_eq}
use nova_pay.Base.Rows.{find, update_where}
use nova_pay.Store.Schema.{PaymentOrder, Merchant, MerchantChannelAccount}
use nova_pay.Store.World.{
  Env, World, Outcome, PaymentNotification, PaymentProvider, app, merchant_not_found,
  order_not_found, legacy_platform_account_unsupported, channel_account_not_found,
}
use nova_pay.Store.Monad.{
  Action, ◌>>=◌, ◌>>◌, pure, raise, gets, modify, await, catch, read_clock, find_order,
}
use nova_pay.Callbacks.Dispatch.{present}
use nova_pay.Orders.Notify.{apply_payment_notification}

unfoldable pub find_account : String → World → Option MerchantChannelAccount
find_account id w = find (λ a. str_eq a.id id) w.accounts

unfoldable pub or_account_missing : Option MerchantChannelAccount → Action MerchantChannelAccount
or_account_missing none = raise (app channel_account_not_found 422)
or_account_missing (some account) = pure account

unfoldable pub runtime_account : Option String → Action MerchantChannelAccount
unfolding or_account_missing find_account
runtime_account none = raise (app legacy_platform_account_unsupported 422)
runtime_account (some id) = gets (find_account id) >>= or_account_missing

-- By the id of the account that the order, or the refund, is linked to.
unfoldable pub require_merchant_runtime_account : Option String → Action MerchantChannelAccount
unfolding runtime_account
require_merchant_runtime_account account_id = runtime_account (present account_id)

-- A failure to write the health of an account is ignored. Prisma sets `updatedAt`. `verified` is `lastVerifiedAt`, if given.
unfoldable pub update_merchant_channel_account_health :
    Env → String → Option ℕ → Option String → Action (Unit {0})
update_merchant_channel_account_health env account_id verified message = modify λ w. record w {
  accounts =
      update_where (λ a. str_eq a.id account_id)
        (λ a. record a {
          last_verified_at = elim verified [ none ↦ a.last_verified_at | some t ↦ some t ];
          last_error_message = message;
          updated_at = env.time w.ticks;
        })
        w.accounts;
}

-- `(await loadPaymentOrderById(id)) ?? order`
abbrev pub reload : PaymentOrder → Action PaymentOrder
reload order = gets (λ w. get_or (find_order order.id w) order)

unfoldable pub or_merchant_missing : Option Merchant → Action Merchant
or_merchant_missing none = raise (app merchant_not_found 404)
or_merchant_missing (some m) = pure m

unfoldable pub or_order_missing : Option PaymentOrder → Action PaymentOrder
or_order_missing none = raise (app order_not_found 404)
or_order_missing (some o) = pure o

abbrev pub is_reference : Merchant → String → PaymentOrder → Bool
is_reference m reference o =
    str_eq o.merchant_id m.id && (str_eq o.id reference || str_eq o.external_order_id reference)

unfoldable pub find_merchant_by_code : String → Action Merchant
unfolding or_merchant_missing
find_merchant_by_code code =
    gets (λ w. find (λ m. str_eq m.code code) w.merchants) >>= or_merchant_missing

unfoldable pub get_merchant_payment_order_by_reference : String → String → Action PaymentOrder
unfolding or_order_missing
get_merchant_payment_order_by_reference merchant_code reference = do
  m ← find_merchant_by_code merchant_code
  found ← gets (λ w. find (is_reference m reference) w.orders)
  or_order_missing found

-- `provider?.queryPayment`
abbrev pub query_of :
    Option PaymentProvider → Option (ℕ → PaymentOrder → Outcome PaymentNotification)
query_of none = none
query_of (some p) = p.query_payment

-- `provider?.closePayment`
abbrev pub close_of :
    Option PaymentProvider → Option (ℕ → PaymentOrder → Outcome PaymentNotification)
close_of none = none
close_of (some p) = p.close_payment

-- The body of the `try`.
unfoldable pub query_and_apply :
    Env
    → PaymentOrder
    → MerchantChannelAccount
    → (ℕ → PaymentOrder → Outcome PaymentNotification)
    → Action PaymentOrder
query_and_apply env order account query = do
  n ← await (λ tick. query tick order)
  apply_payment_notification env n
  now ← read_clock env
  update_merchant_channel_account_health env account.id (some now) none
  reload order

unfoldable pub sync_by :
    Env
    → PaymentOrder
    → Option (ℕ → PaymentOrder → Outcome PaymentNotification)
    → Action PaymentOrder
unfolding query_and_apply
sync_by env order none = pure order
sync_by env order (some query) = do
  account ← require_merchant_runtime_account order.merchant_channel_account_id
  catch (query_and_apply env order account query) (λ e.
      update_merchant_channel_account_health env account.id none (some (env.message e)) >> raise e)

unfoldable pub sync_payment_order_from_provider : Env → PaymentOrder → Action PaymentOrder
unfolding sync_by
sync_payment_order_from_provider env order =
    sync_by env order (query_of (env.provider order.channel_code))
