-- ===== src/Orders/Create.antt =====
-- lib/orders/service.ts, createPaymentOrder. What it writes is in Record, what is quoted in Quote.
pub mod Record
pub mod Quote
pub mod Reads
pub mod Appends
pub mod Laws
pub mod Late
use nova_pay.Base.{
  ℕ, ◌*◌, String, Bool, true, false, not, ◌&&◌, Option, none, some, or_else, get_or, List, [], ◌∷◌,
  ◌++◌, str_eq, if◌then◌else◌,
}
use nova_pay.Base.Int.{ℤ, pos, negsuc}
use nova_pay.Base.Rows.{find}
use nova_pay.Base.Json.{Json, Fields, str, obj, field, end, set_field}
use nova_pay.Finance.Calculations.Fees.{calculate_payment_fee_snapshot}
use nova_pay.Merchants.Profile.{
  assert_merchant_can_create_orders, assert_merchant_profile_ready_for_orders,
}
use nova_pay.Orders.Provider.{find_merchant_by_code}
use nova_pay.Orders.Slots.{PayableAmount, given, slot, round_cents, allocate_ctf_payable_amount}
use nova_pay.Orders.Status.{pending, failed, not_required, status_from_create_payment}
use nova_pay.Payments.ChannelCodes.{normalize_payment_channel_code}
use nova_pay.Payments.Routes.{ResolvedMerchantChannelRoute, select_provider_account_for_order}
use nova_pay.Store.Schema.{PaymentOrder, Merchant}
use nova_pay.Store.World.{
  Env, World, Error, PaymentProvider, CreatePaymentInput, CreatePaymentMode, CreatePaymentResult,
  app, thrown, redirect, qr_code, unsupported_channel, plugin_not_installed, order_channel_conflict,
  channel_not_configured,
}
use nova_pay.Store.Monad.{
  Action, ◌>>=◌, ◌>>◌, pure, raise, raise_if, gets, modify, ask, await, catch, read_clock,
  set_orders, update_order,
}
use Quote.{QuotedPaymentFields, get_quoted_payment_fields, build_payment_expire_at}
use Record.{
  CreatePaymentOrderInput, CreatedPaymentOrder, is_external, payable_text, if_changed, natural,
  slot_millionths, new_order, insert_unique, create_row, decimal_or_refused, quoted_column,
  write_quote, quote_columns, spread, answered_row, record_created, failed_row,
  record_create_failed,
}

unfoldable pub payment_input :
    Env
    → CreatePaymentOrderInput
    → Merchant
    → ResolvedMerchantChannelRoute
    → PayableAmount
    → ℕ
    → PaymentOrder
    → CreatePaymentInput
payment_input env input merchant route payable expire_at order = record {
  order_id = order.id;
  merchant = merchant;
  amount = payable_text env payable;
  currency = input.currency;
  subject = input.subject;
  client_ip = input.client_ip;
  description = input.description;
  notify_url = route.notify_url;
  return_url = input.return_url;
  expire_at = expire_at;
  metadata = input.metadata;
  account = route.account;
}

abbrev pub returned : Merchant → CreatePaymentResult → PaymentOrder → Action CreatedPaymentOrder
returned merchant payment order =
    pure (record { created = true; merchant = merchant; order = order; payment = some payment })

-- The body of the `try`.
unfoldable pub ask_provider :
    Env
    → CreatePaymentOrderInput
    → PaymentProvider
    → Merchant
    → PaymentOrder
    → CreatePaymentInput
    → Action CreatedPaymentOrder
ask_provider env input provider merchant order request = do
  payment ← await (λ tick. provider.create_payment tick request)
  record_created env input order.id payment >>= returned merchant payment

unfoldable pub start_payment :
    Env
    → CreatePaymentOrderInput
    → PaymentProvider
    → Merchant
    → PaymentOrder
    → CreatePaymentInput
    → Action CreatedPaymentOrder
unfolding ask_provider
start_payment env input provider merchant order request =
    catch (ask_provider env input provider merchant order request)
      (record_create_failed env order.id)

unfoldable pub create_new :
    Env → CreatePaymentOrderInput → String → PaymentProvider → Merchant → Action CreatedPaymentOrder
unfolding create_row start_payment
create_new env input channel provider merchant = do
  route ← select_provider_account_for_order env merchant.id channel input.amount
  payable ←
      allocate_ctf_payable_amount env (some route.account.id) channel input.currency input.amount
  raise_if (not (provider.is_configured route.account)) (app channel_not_configured 422)
  expire_at ← build_payment_expire_at env channel
  order ←
      create_row env (new_order env input channel merchant route payable expire_at)
        (natural (env.amount_of input.amount))
  start_payment env input provider merchant order
      (payment_input env input merchant route payable expire_at order)

unfoldable pub create_unless_existing :
    Env
    → CreatePaymentOrderInput
    → String
    → PaymentProvider
    → Merchant
    → Option PaymentOrder
    → Action CreatedPaymentOrder
unfolding create_new
create_unless_existing env input channel provider merchant none =
    create_new env input channel provider merchant
create_unless_existing env input channel provider merchant (some o) =
    if not (str_eq o.channel_code channel)
    then raise (app order_channel_conflict 409)
    else pure (record { created = false; merchant = merchant; order = o; payment = none })

unfoldable pub create_with :
    Env → CreatePaymentOrderInput → String → Option PaymentProvider → Action CreatedPaymentOrder
unfolding create_unless_existing
create_with env input channel none = raise (app unsupported_channel 404)
create_with env input channel (some provider) = do
  merchant ← find_merchant_by_code input.merchant_code
  installed ← ask (λ tick. env.plugin_installed tick merchant.id channel)
  raise_if (not installed) (app plugin_not_installed 422)
  assert_merchant_can_create_orders merchant
  assert_merchant_profile_ready_for_orders env merchant channel
  existing ← gets (λ w. find (is_external merchant.id input.external_order_id) w.orders)
  create_unless_existing env input channel provider merchant existing

unfoldable pub create_payment_order : Env → CreatePaymentOrderInput → Action CreatedPaymentOrder
unfolding create_with
create_payment_order env input =
    let channel = normalize_payment_channel_code env input.channel_code in
    create_with env input channel (env.provider channel)
