-- ===== src/Store/Sample.antt =====
-- A small database and its surroundings, on which the examples run.
use nova_pay.Base.{◌+◌, true, false, none, some, [], ◌∷◌, str_eq, if◌then◌else◌}
use nova_pay.Base.Int.{pos}
use nova_pay.Base.Json.{null, end}
use nova_pay.Orders.Status
use nova_pay.Orders.Status.{requires_action}
use nova_pay.Refunds.Status.{processing as refund_processing}
use nova_pay.Store.Schema.{approved, MerchantChannelAccount, Merchant, PaymentOrder, PaymentRefund}
use nova_pay.Store.World.{
  World, Env, PaymentProvider, PaymentNotification, PaymentRefundNotification, answered, threw,
  redirect,
}

abbrev pub merchant : Merchant
merchant = record {
  id = "m1";
  code = "shop";
  name = "Tea shop";
  legal_name = some "Tea Ltd";
  contact_name = some "Lin";
  contact_phone = some "100";
  company_registration_id = some "91";
  status = approved;
  callback_base = some "https://shop.example/notify";
  callback_enabled = true;
  notify_secret = some "secret";
}

-- An order of 100.00 with a fee of 1.50, not paid yet.
abbrev pub order : PaymentOrder
order = record {
  id = "o1";
  merchant_id = "m1";
  channel_code = "alipay.page";
  external_order_id = "A-1";
  merchant_channel_account_id = some "a1";
  api_credential_id = none;
  subject = "Tea";
  description = none;
  amount = 10000;
  payable_amount = none;
  payable_currency = none;
  quote_rate = none;
  quote_source = none;
  quote_spread_bps = none;
  quote_expires_at = none;
  fee_rate_snapshot = 150;
  fee_amount = 150;
  net_amount = pos 9850;
  currency = "CNY";
  status = Status.processing;
  gateway_order_id = none;
  provider_status = none;
  checkout_url = none;
  callback_url = none;
  return_url = none;
  metadata = null;
  channel_payload = null;
  failure_code = none;
  failure_message = none;
  callback_status = Status.waiting;
  callback_attempts_count = 0;
  callback_delivered_at = none;
  last_callback_at = none;
  next_callback_at = none;
  expire_at = some 500;
  paid_at = none;
  completed_at = none;
  created_at = 100;
  updated_at = 100;
}

abbrev pub paid_order : PaymentOrder
paid_order = record order { status = Status.succeeded; id = "o2"; external_order_id = "A-2" }

abbrev pub refund : PaymentRefund
refund = record {
  id = "r1";
  merchant_id = "m1";
  payment_order_id = "o2";
  merchant_channel_account_id = some "a1";
  api_credential_id = none;
  external_refund_id = "R-1";
  amount = 4000;
  fee_amount = 0;
  net_amount_impact = 4000;
  currency = "CNY";
  status = refund_processing;
  provider_refund_id = none;
  provider_status = none;
  reason = none;
  metadata = null;
  failure_code = none;
  failure_message = none;
  refunded_at = none;
  updated_at = 100;
}

abbrev pub account : MerchantChannelAccount
account = record {
  id = "a1";
  merchant_id = "m1";
  provider_key = "alipay";
  channel_code = "alipay.page";
  display_name = "Alipay";
  config = null;
  callback_token = "token";
  enabled = true;
  created_at = 0;
  updated_at = 0;
  last_verified_at = none;
  last_error_message = none;
}

abbrev pub world : World
world = record {
  ticks = 0;
  merchants = merchant ∷ [];
  orders = order ∷ paid_order ∷ [];
  refunds = refund ∷ [];
  ledger = [];
  attempts = [];
  credentials = [];
  accounts = account ∷ [];
  bindings = [];
}

-- The provider's answer that the order was closed unpaid.
abbrev pub closed : PaymentNotification
closed = record {
  order_id = "o2";
  gateway_order_id = none;
  provider_status = "TRADE_CLOSED";
  amount = none;
  paid_at = none;
  succeeds = false;
  raw_payload = null;
  evidence_kind = none;
}

-- The provider's answer that the order was paid.
abbrev pub paid : PaymentNotification
paid = record closed {
  order_id = "o1";
  provider_status = "TRADE_SUCCESS";
  amount = some "100.00";
  succeeds = true;
}

abbrev pub refunded : PaymentRefundNotification
refunded = record {
  order_id = "o2";
  gateway_refund_id = some "G-1";
  provider_status = "REFUND_SUCCESS";
  refunded_at = none;
  succeeds = true;
}

abbrev pub provider : PaymentProvider
provider = record {
  is_configured = λ a. true;
  create_payment = λ tick input. answered (record {
    status = requires_action;
    mode = redirect;
    checkout_url = "https://pay.example";
    gateway_order_id = none;
    provider_status = none;
    provider_payload = end;
  });
  query_payment = some (λ tick o. answered (record closed { order_id = o.id }));
  close_payment = some (λ tick o. answered (record closed { order_id = o.id }));
  create_refund = some (λ tick o r raw. threw "timeout");
  query_refund = some (λ tick o r. answered refunded);
}

abbrev pub env : Env
env = record {
  time = λ tick. 1000 + tick;
  fresh = λ tick. "r2";
  config = λ k. none;
  integer_of = λ s. none;
  amount_of = λ s.
      if str_eq s "100.00"
      then some (pos 100000000)
      else if str_eq s "60.00"
      then some (pos 60000000)
      else none;
  require_notification_amount = "";
  is_dev_like = false;
  provider = λ c. some provider;
  plugin_installed = λ tick merchant channel. true;
  supports_callback_route = λ channel. true;
  build_callback_url = λ channel id token. "https://shop.example/callback";
  safe_fetch = λ tick request. answered (record { status = 200; text = "success" });
  redact_callback_url = λ url. url;
  append_signed_query = λ url query key. answered url;
  reveal_stored_secret = λ s. answered s;
  callback_signature = λ a b c. "signature";
  sha256_hex = λ s. s;
  account_setting = λ a key. none;
  message = λ e. "failed";
  stringify = λ j. "{}";
  iso = λ t. "2026-01-01T00:00:00.000Z";
  date_of = λ s. none;
  decimal = λ n. "100.00";
  fixed_decimal = λ n. "100.00";
  signed_decimal = λ n. "100.00";
  rate_text = λ n. "0.0150";
  lower = λ s. s;
  trim_lower = λ s. s;
  trim = λ s. s;
}
