-- ===== src/Orders/Create/Record.antt =====
-- lib/orders/service.ts, createPaymentOrder: the rows that it writes. `amount` is what formatAmount
-- gave the callers: a positive number with two decimals, as a text. A text that is no such number is
-- refused by the column.
use nova_pay.Base.{
  ℕ, ◌*◌, String, Bool, ◌&&◌, Option, none, some, or_else, get_or, [], ◌∷◌, ◌++◌, str_eq,
  if◌then◌else◌,
}
use nova_pay.Base.Int.{ℤ, pos}
use nova_pay.Base.Rows.{find}
use nova_pay.Base.Json.{Json, Fields, str, obj, field, end, set_field}
use nova_pay.Finance.Calculations.Fees.{calculate_payment_fee_snapshot}
use nova_pay.Orders.Slots.{PayableAmount, given, slot, round_cents}
use nova_pay.Orders.Status.{pending, failed, not_required, status_from_create_payment}
use nova_pay.Payments.Routes.{ResolvedMerchantChannelRoute}
use nova_pay.Store.Schema.{PaymentOrder, Merchant}
use nova_pay.Store.World.{
  Env, Error, CreatePaymentMode, CreatePaymentResult, thrown, redirect, qr_code,
}
use nova_pay.Store.Monad.{
  Action, ◌>>=◌, ◌>>◌, pure, raise, gets, modify, ask, read_clock, set_orders, update_order,
}
use nova_pay.Orders.Create.Quote.{QuotedPaymentFields, get_quoted_payment_fields}

pub record CreatePaymentOrderInput : Type 0 where
  pub merchant_code : String
  pub channel_code : String
  pub external_order_id : String
  pub api_credential_id : Option String
  pub amount : String
  pub currency : String
  pub subject : String
  pub client_ip : Option String
  pub description : Option String
  pub return_url : Option String
  pub callback_url : Option String
  pub metadata : Json

pub record CreatedPaymentOrder : Type 0 where
  pub created : Bool
  pub merchant : Merchant
  pub order : PaymentOrder
  pub payment : Option CreatePaymentResult

-- The unique key `merchantId_externalOrderId`.
abbrev pub is_external : String → String → PaymentOrder → Bool
is_external merchant_id external_id o =
    str_eq o.merchant_id merchant_id && str_eq o.external_order_id external_id

unfoldable pub payable_text : Env → PayableAmount → String
payable_text env (given raw) = raw
payable_text env (slot cents) = env.fixed_decimal cents

-- `payableAmount !== input.amount ? value : null`
abbrev pub if_changed {ℓ} : {A : Type ℓ} → Env → String → PayableAmount → A → Option A
if_changed env raw payable value =
    if str_eq (payable_text env payable) raw then none else some value

-- A number in millionths, where it is not negative.
abbrev pub natural : Option ℤ → Option ℕ
natural (some (pos n)) = some n
natural _ = none

abbrev pub slot_millionths : PayableAmount → Option ℕ
slot_millionths (given raw) = none
slot_millionths (slot cents) = some (cents * 10000)

-- The columns that `create` gives the row.
unfoldable pub new_order :
    Env
    → CreatePaymentOrderInput
    → String
    → Merchant
    → ResolvedMerchantChannelRoute
    → PayableAmount
    → ℕ
    → ℕ
    → String
    → ℕ
    → PaymentOrder
unfolding payable_text
new_order env input channel merchant route payable expire_at cents id now =
    let fees = calculate_payment_fee_snapshot (pos cents) (pos (get_or route.fee_rate 0)) in
    record {
      id = id;
      merchant_id = merchant.id;
      channel_code = channel;
      external_order_id = input.external_order_id;
      merchant_channel_account_id = some route.account.id;
      api_credential_id = input.api_credential_id;
      subject = input.subject;
      description = input.description;
      amount = cents;
      payable_amount = elim (if_changed env input.amount payable (slot_millionths payable)) [
        | none ↦ none
        | some m ↦ m
      ];
      payable_currency = if_changed env input.amount payable input.currency;
      quote_rate = none;
      quote_source = if_changed env input.amount payable "ctf_tail_amount";
      quote_spread_bps = none;
      quote_expires_at = if_changed env input.amount payable expire_at;
      fee_rate_snapshot = fees.fee_rate;
      fee_amount = fees.fee_amount;
      net_amount = fees.net_amount;
      currency = input.currency;
      status = pending;
      gateway_order_id = none;
      provider_status = none;
      checkout_url = none;
      callback_url = or_else input.callback_url merchant.callback_base;
      return_url = input.return_url;
      metadata = input.metadata;
      channel_payload = Json.null;
      failure_code = none;
      failure_message = none;
      callback_status = not_required;
      callback_attempts_count = 0;
      callback_delivered_at = none;
      last_callback_at = none;
      next_callback_at = none;
      expire_at = some expire_at;
      paid_at = none;
      completed_at = none;
      created_at = now;
      updated_at = now;
    }

-- `prisma.paymentOrder.create`, with the unique key of the table.
unfoldable pub insert_unique : PaymentOrder → Option PaymentOrder → Action PaymentOrder
insert_unique row (some o) = raise (thrown "Unique constraint failed")
insert_unique row none = modify (λ w. set_orders (w.orders ++ row ∷ []) w) >> pure row

unfoldable pub create_row : Env → (ℕ → String → ℕ → PaymentOrder) → Option ℕ → Action PaymentOrder
unfolding insert_unique
create_row env row none = raise (thrown "Invalid value for a Decimal column")
create_row env row (some millionths) = do
  id ← ask env.fresh
  now ← read_clock env
  taken ← gets (λ w.
      find
        (is_external (row (round_cents millionths) id now).merchant_id
          (row (round_cents millionths) id now).external_order_id)
        w.orders)
  insert_unique (row (round_cents millionths) id now) taken

-- `...getQuotedPaymentFields(payload)`: its texts go to Decimal columns.
unfoldable pub decimal_or_refused : Option ℕ → Action (Option ℕ)
decimal_or_refused none = raise (thrown "Invalid value for a Decimal column")
decimal_or_refused (some m) = pure (some m)

unfoldable pub quoted_column : Env → Option String → Action (Option ℕ)
unfolding decimal_or_refused
quoted_column env none = pure none
quoted_column env (some raw) = decimal_or_refused (natural (env.amount_of raw))

abbrev pub write_quote :
    Option (QuotedPaymentFields × (Option ℕ × Option ℕ)) → PaymentOrder → PaymentOrder
write_quote none o = o
write_quote (some (q, (amount, rate))) o = record o {
  payable_amount = amount;
  payable_currency = q.payable_currency;
  quote_rate = rate;
  quote_source = q.quote_source;
  quote_spread_bps = q.quote_spread_bps;
  quote_expires_at = q.quote_expires_at;
}

unfoldable pub quote_columns :
    Env → Option QuotedPaymentFields → Action (Option (QuotedPaymentFields × (Option ℕ × Option ℕ)))
unfolding quoted_column
quote_columns env none = pure none
quote_columns env (some q) = do
  amount ← quoted_column env q.payable_amount
  rate ← quoted_column env q.quote_rate
  pure (some (q, (amount, rate)))

abbrev mode_text : CreatePaymentMode → String
mode_text redirect = "redirect"
mode_text qr_code = "qr_code"

-- `{ ...first, ...second }`
unfoldable pub spread : Fields → Fields → Fields
spread first end = first
spread first (field k v fs) = spread (set_field k v first) fs

-- The row that the provider's answer writes.
unfoldable pub answered_row :
    CreatePaymentOrderInput
    → CreatePaymentResult
    → Option (QuotedPaymentFields × (Option ℕ × Option ℕ))
    → PaymentOrder
    → PaymentOrder
unfolding spread
answered_row input payment quote o =
    record (write_quote quote (record o {
      status = status_from_create_payment payment.status;
      gateway_order_id = payment.gateway_order_id;
      provider_status = payment.provider_status;
      checkout_url = some payment.checkout_url;
    })) {
      channel_payload = obj (
          spread
            (field "mode" (str (mode_text payment.mode)) (
              field "originalRequestedAmount" (str input.amount)
                (field "originalRequestedCurrency" (str input.currency) end)))
            payment.provider_payload);
    }

-- The update after the provider's answer, by the order's id alone.
unfoldable pub record_created :
    Env → CreatePaymentOrderInput → String → CreatePaymentResult → Action PaymentOrder
unfolding quote_columns
record_created env input order_id payment = do
  quote ← quote_columns env (get_quoted_payment_fields env payment.provider_payload)
  update_order env order_id (answered_row input payment quote)

-- The row that a failure of the provider, or of the update above, writes.
unfoldable pub failed_row : Env → Error → PaymentOrder → PaymentOrder
failed_row env e o = record o {
  status = failed;
  provider_status = some "CREATE_FAILED";
  failure_code = some "CREATE_FAILED";
  failure_message = some (env.message e);
  channel_payload = obj (field "error" (str (env.message e)) end);
}

unfoldable pub record_create_failed : Env → String → Error → Action CreatedPaymentOrder
record_create_failed env order_id e = update_order env order_id (failed_row env e) >> raise e
