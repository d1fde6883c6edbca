-- ===== src/CtfBills.antt =====
-- lib/ctf-bill-capture/service.ts: bills that a listener has captured are matched to the orders that
-- they pay. Beside the services' database there is the table of the captured bills.
pub mod Match
pub mod Worker
pub mod Ingest
pub mod Laws
pub mod Exclusive
pub mod Unique
use nova_pay.Base.{ℕ, String, Bool, true, false, Option, none, some, List}
use nova_pay.Base.Json.{Json}
use nova_pay.Store.World.{World}

pub data CtfBillCaptureStatus : Type 0 where
  received matched dead_letter ignored : CtfBillCaptureStatus

pub record CtfBillCaptureEvent : Type 0 where
  pub id : String
  pub merchant_channel_account_id : Option String
  pub matched_payment_order_id : Option String
  pub channel_code : String
  pub capture_source : Option String
  pub external_bill_id : Option String
  pub payer_account : Option String
  pub amount : ℕ
  pub currency : String
  pub paid_at : ℕ
  pub remark : Option String
  pub raw_payload : Json
  pub fingerprint : String
  pub status : CtfBillCaptureStatus
  pub matched_at : Option ℕ
  pub attempt_count : ℕ
  pub last_attempt_at : Option ℕ
  pub next_attempt_at : Option ℕ
  pub failure_code : Option String
  pub failure_message : Option String
  pub created_at : ℕ
  pub updated_at : ℕ

pub record CaptureWorld : Type 0 where
  pub world : World
  pub events : List CtfBillCaptureEvent

unfoldable pub is_received : CtfBillCaptureStatus → Bool
is_received received = true
is_received _ = false

unfoldable pub is_matched : CtfBillCaptureStatus → Bool
is_matched matched = true
is_matched _ = false
