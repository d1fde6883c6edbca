-- ===== src/Store/World.antt =====
-- The state that the services share, and what they ask of their surroundings: the clock, the HTTP
-- client, the payment providers, cryptography and the printing of numbers and dates. `ticks` counts
-- the questions asked, so that two readings of the clock, or two answers of a provider, may differ.
use nova_pay.Base.{ℕ, String, Bool, Option, List}
use nova_pay.Base.Int.{ℤ}
use nova_pay.Base.Json.{Json, Fields}
use nova_pay.Orders.Status.{CreatedStatus}
use nova_pay.Store.Schema.{
  Merchant, PaymentOrder, PaymentRefund, MerchantLedgerEntry, PaymentCallbackAttempt,
  EasyPayCredential, MerchantChannelAccount, MerchantChannelBinding,
}

pub record World : Type 0 where
  pub ticks : ℕ
  pub merchants : List Merchant
  pub orders : List PaymentOrder
  pub refunds : List PaymentRefund
  pub ledger : List MerchantLedgerEntry
  pub attempts : List PaymentCallbackAttempt
  pub credentials : List EasyPayCredential
  pub accounts : List MerchantChannelAccount
  pub bindings : List MerchantChannelBinding

pub data Code : Type 0 where
  order_not_found merchant_not_found refund_not_found : Code
  payment_evidence_channel_mismatch amount_validation_config_invalid amount_required : Code
  invalid_amount amount_mismatch order_already_paid channel_close_unsupported : Code
  legacy_platform_account_unsupported channel_account_not_found : Code
  refund_order_mismatch invalid_refund_amount refund_amount_exceeded : Code
  refund_reference_conflict refund_amount_conflict refund_reason_conflict : Code
  order_not_refundable channel_refund_unsupported settlement_not_found : Code
  unsupported_channel plugin_not_installed merchant_pending_review merchant_rejected : Code
  merchant_suspended merchant_profile_incomplete order_channel_conflict : Code
  channel_not_configured channel_disabled amount_too_small amount_too_large : Code
  account_not_found account_disabled : Code
  ctf_bill_account_not_allowed ctf_bill_channel_mismatch : Code
  settlement_not_payable ctf_unique_amount_exhausted invalid_idempotency_key : Code

-- What a service can throw: an AppError with its code and HTTP status, Prisma's error for an update
-- of a row that is not there, or an error from outside, by its message.
pub data Error : Type 0 where
  app : Code → ℕ → Error
  record_missing : Error
  thrown : String → Error

pub data Outcome {ℓ} (A : Type ℓ) : Type ℓ where
  answered : A → Outcome A
  threw : String → Outcome A

abbrev pub map_outcome {ℓ κ} : {A : Type ℓ} {B : Type κ} → (A → B) → Outcome A → Outcome B
map_outcome f (answered a) = answered (f a)
map_outcome f (threw text) = threw text

-- Who vouches for a notification.
pub data Evidence : Type 0 where
  provider_evidence ctf_capture system_evidence : Evidence

pub record PaymentNotification : Type 0 where
  pub order_id : String
  pub gateway_order_id : Option String
  pub provider_status : String
  pub amount : Option String
  pub paid_at : Option ℕ
  pub succeeds : Bool
  pub raw_payload : Json
  pub evidence_kind : Option Evidence

pub record PaymentRefundNotification : Type 0 where
  pub order_id : String
  pub gateway_refund_id : Option String
  pub provider_status : String
  pub refunded_at : Option ℕ
  pub succeeds : Bool

-- lib/payments/types.ts, CreatePaymentInput and CreatePaymentResult
pub record CreatePaymentInput : Type 0 where
  pub order_id : String
  pub merchant : Merchant
  pub amount : String
  pub currency : String
  pub subject : String
  pub client_ip : Option String
  pub description : Option String
  pub notify_url : Option String
  pub return_url : Option String
  pub expire_at : ℕ
  pub metadata : Json
  pub account : MerchantChannelAccount

pub data CreatePaymentMode : Type 0 where
  redirect qr_code : CreatePaymentMode

pub record CreatePaymentResult : Type 0 where
  pub status : CreatedStatus
  pub mode : CreatePaymentMode
  pub checkout_url : String
  pub gateway_order_id : Option String
  pub provider_status : Option String
  pub provider_payload : Fields

-- lib/payments/types.ts, PaymentProvider: the calls that the services make on it. An absent optional
-- method is `none`. Each call gets the tick at which it is made.
pub record PaymentProvider : Type 0 where
  pub is_configured : MerchantChannelAccount → Bool
  pub create_payment : ℕ → CreatePaymentInput → Outcome CreatePaymentResult
  pub query_payment : Option (ℕ → PaymentOrder → Outcome PaymentNotification)
  pub close_payment : Option (ℕ → PaymentOrder → Outcome PaymentNotification)
  pub create_refund :
      Option (ℕ → PaymentOrder → PaymentRefund → String → Outcome PaymentRefundNotification)
  pub query_refund : Option (ℕ → PaymentOrder → PaymentRefund → Outcome PaymentRefundNotification)

-- The settings that the services read (lib/system-config.ts, getSystemConfig).
pub data ConfigKey : Type 0 where
  callback_timeout_ms callback_retry_interval_seconds callback_max_attempts : ConfigKey
  callback_worker_batch_size callback_worker_interval_ms : ConfigKey
  usdt_quote_ttl_seconds ctf_bill_order_expire_minutes payment_expire_minutes : ConfigKey

pub data Method : Type 0 where
  get post : Method

pub record HttpRequest : Type 0 where
  pub method : Method
  pub url : String
  pub headers : List (String × String)
  pub body : Option String

pub record Response : Type 0 where
  pub status : ℕ
  pub text : String

pub record Env : Type 0 where
  -- `new Date()`, `Date.now()`
  pub time : ℕ → ℕ
  -- the id of a new row
  pub fresh : ℕ → String
  pub config : ConfigKey → Option String
  -- `Number(raw)`, where that is an integer
  pub integer_of : String → Option ℤ
  -- `Number(raw)` in millionths, where it is finite
  pub amount_of : String → Option ℤ
  -- process.env.NOVAPAY_REQUIRE_NOTIFICATION_AMOUNT, trimmed, and the answer of isDevLikeEnv
  pub require_notification_amount : String
  pub is_dev_like : Bool
  -- lib/payments/registry.ts, getInstalledPaymentProvider
  pub provider : String → Option PaymentProvider
  -- lib/plugins/marketplace.ts, isMerchantPaymentPluginInstalled
  pub plugin_installed : ℕ → String → String → Bool
  -- lib/merchant-channel-accounts.ts: supportsMerchantChannelCallbackRoute and
  -- buildMerchantChannelCallbackUrl, which ask the plugins of the providers
  pub supports_callback_route : String → Bool
  pub build_callback_url : String → String → String → String
  -- lib/network/safe-fetch.ts, safeFetch, with the text of the response
  pub safe_fetch : ℕ → HttpRequest → Outcome Response
  pub redact_callback_url : String → String
  -- lib/easypay/sign.ts, appendSignedQueryToUrl, over revealEasyPayKey: it throws if the stored key does
  -- not decrypt, or if the text is no URL
  pub append_signed_query : String → List (String × Option String) → String → Outcome String
  -- lib/secret-box.ts, revealStoredSecret: it throws if a sealed text does not decrypt
  pub reveal_stored_secret : Option String → Outcome (Option String)
  pub callback_signature : String → String → String → String
  -- the hexadecimal digest of a text, and a field of an account's configuration, decrypted
  pub sha256_hex : String → String
  pub account_setting : MerchantChannelAccount → String → Option String
  -- the wording of an error, and the printing of JSON, dates and amounts
  pub message : Error → String
  pub stringify : Json → String
  pub iso : ℕ → String
  -- `new Date(text)`, where that is a date
  pub date_of : String → Option ℕ
  pub decimal : ℕ → String
  -- `(cents / 100).toFixed(2)`
  pub fixed_decimal : ℕ → String
  pub signed_decimal : ℤ → String
  pub rate_text : ℕ → String
  -- `text.toLowerCase()`
  pub lower : String → String
  -- `text.trim().toLowerCase()`
  pub trim_lower : String → String
  -- `text.trim()`
  pub trim : String → String
