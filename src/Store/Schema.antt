-- ===== src/Store/Schema.antt =====
-- prisma/schema.prisma: the rows that the modelled services read and write. Identifiers are texts,
-- instants are milliseconds. A Decimal(18, 2) is a number of cents, a Decimal(24, 6) a number of
-- millionths, a Decimal(8, 4) a number of ten-thousandths.
use nova_pay.Base.{ℕ, String, Bool, Option, ◌==◌}
use nova_pay.Base.Int.{ℤ}
use nova_pay.Base.Json.{Json}
use nova_pay.Orders.Status.{PaymentStatus, CallbackDeliveryStatus}
use nova_pay.Refunds.Status.{PaymentRefundStatus}

pub data MerchantStatus : Type 0 where
  awaiting_review approved rejected suspended : MerchantStatus

pub record Merchant : Type 0 where
  pub id : String
  pub code : String
  pub name : String
  pub legal_name : Option String
  pub contact_name : Option String
  pub contact_phone : Option String
  pub company_registration_id : Option String
  pub status : MerchantStatus
  pub callback_base : Option String
  pub callback_enabled : Bool
  pub notify_secret : Option String

pub record PaymentOrder : Type 0 where
  pub id : String
  pub merchant_id : String
  pub channel_code : String
  pub external_order_id : String
  pub merchant_channel_account_id : Option String
  pub api_credential_id : Option String
  pub subject : String
  pub description : Option String
  pub amount : ℕ
  pub payable_amount : Option ℕ
  pub payable_currency : Option String
  pub quote_rate : Option ℕ
  pub quote_source : Option String
  pub quote_spread_bps : Option ℤ
  pub quote_expires_at : Option ℕ
  pub fee_rate_snapshot : ℕ
  pub fee_amount : ℕ
  pub net_amount : ℤ
  pub currency : String
  pub status : PaymentStatus
  pub gateway_order_id : Option String
  pub provider_status : Option String
  pub checkout_url : Option String
  pub callback_url : Option String
  pub return_url : Option String
  pub metadata : Json
  pub channel_payload : Json
  pub failure_code : Option String
  pub failure_message : Option String
  pub callback_status : CallbackDeliveryStatus
  pub callback_attempts_count : ℕ
  pub callback_delivered_at : Option ℕ
  pub last_callback_at : Option ℕ
  pub next_callback_at : Option ℕ
  pub expire_at : Option ℕ
  pub paid_at : Option ℕ
  pub completed_at : Option ℕ
  pub created_at : ℕ
  pub updated_at : ℕ

pub record PaymentRefund : Type 0 where
  pub id : String
  pub merchant_id : String
  pub payment_order_id : String
  pub merchant_channel_account_id : Option String
  pub api_credential_id : Option String
  pub external_refund_id : String
  pub amount : ℕ
  pub fee_amount : ℕ
  pub net_amount_impact : ℕ
  pub currency : String
  pub status : PaymentRefundStatus
  pub provider_refund_id : Option String
  pub provider_status : Option String
  pub reason : Option String
  pub metadata : Json
  pub failure_code : Option String
  pub failure_message : Option String
  pub refunded_at : Option ℕ
  pub updated_at : ℕ

pub data MerchantLedgerEntryType : Type 0 where
  payment_capture payment_fee refund settlement_payout adjustment : MerchantLedgerEntryType

pub data MerchantLedgerDirection : Type 0 where
  credit debit : MerchantLedgerDirection

-- The texts that the services write into the unique column `externalKey`: `payment:capture:<id>`,
-- `payment:fee:<id>`, `refund:<id>` and `settlement:payout:<id>`.
pub data ExternalKey : Type 0 where
  capture_key fee_key refund_key payout_key : String → ExternalKey

pub record MerchantLedgerEntry : Type 0 where
  pub merchant_id : String
  pub payment_order_id : Option String
  pub payment_refund_id : Option String
  pub settlement_id : Option String
  pub type : MerchantLedgerEntryType
  pub direction : MerchantLedgerDirection
  pub amount : ℤ
  pub currency : String
  pub description : String
  pub external_key : ExternalKey
  pub metadata : Json
  pub occurred_at : ℕ

pub data CallbackAttemptStatus : Type 0 where
  attempt_succeeded attempt_failed : CallbackAttemptStatus

pub record PaymentCallbackAttempt : Type 0 where
  pub payment_order_id : String
  pub target_url : String
  pub status : CallbackAttemptStatus
  pub http_status : Option ℕ
  pub error_message : Option String
  pub completed_at : ℕ

pub record EasyPayCredential : Type 0 where
  pub id : String
  pub key_ciphertext : String

-- The merchant's own account on a channel, with its configuration as it is stored.
pub record MerchantChannelAccount : Type 0 where
  pub id : String
  pub merchant_id : String
  pub provider_key : String
  pub channel_code : String
  pub display_name : String
  pub config : Json
  pub callback_token : String
  pub enabled : Bool
  pub created_at : ℕ
  pub updated_at : ℕ
  pub last_verified_at : Option ℕ
  pub last_error_message : Option String

pub record MerchantChannelBinding : Type 0 where
  pub merchant_id : String
  pub channel_code : String
  pub enabled : Bool
  pub provider_account_id : Option String
  pub merchant_channel_account_id : Option String
  pub min_amount : Option ℕ
  pub max_amount : Option ℕ
  pub fee_rate : Option ℕ

abbrev pub callback_rank : CallbackDeliveryStatus → ℕ
callback_rank CallbackDeliveryStatus.not_required = 0
callback_rank CallbackDeliveryStatus.waiting = 1
callback_rank CallbackDeliveryStatus.in_flight = 2
callback_rank CallbackDeliveryStatus.delivered = 3
callback_rank CallbackDeliveryStatus.undelivered = 4

-- `a === b` on delivery statuses
infix 50 ◌at◌
abbrev pub ◌at◌ : CallbackDeliveryStatus → CallbackDeliveryStatus → Bool
a at b = callback_rank a == callback_rank b
