-- ===== src/Tests/CtfBills.antt =====
-- A captured bill over the amount of an open order.
use nova_pay.Base.{arith, ◌≤◌, Bool, true, false, none, some, [], ◌∷◌, str_eq, if◌then◌else◌}
use nova_pay.Base.Json.{null}
use nova_pay.Base.Rows.{count_where}
use nova_pay.CtfBills.{CtfBillCaptureEvent, CaptureWorld, received, is_matched}
use nova_pay.CtfBills.Exclusive.{IsExclusive, run_due-IsExclusive}
use nova_pay.CtfBills.Ingest.{CtfBillCapturePayload, ingest_ctf_bill_capture_event}
use nova_pay.CtfBills.Unique.{IsSound, ingest-IsSound}
use nova_pay.CtfBills.Worker.{default_match_run, run_due_ctf_bill_capture_matches}
use nova_pay.Store.Sample.{env, world, order, account}
use nova_pay.Store.Schema.{PaymentOrder, MerchantChannelAccount}

abbrev monitored : PaymentOrder
monitored = record order { channel_code = "ctf.alipay.monitor" }

abbrev bill : CtfBillCaptureEvent
bill = record {
  id = "e1";
  merchant_channel_account_id = some "a1";
  matched_payment_order_id = none;
  channel_code = "ctf.alipay.monitor";
  capture_source = none;
  external_bill_id = some "B-1";
  payer_account = none;
  amount = 10000;
  currency = "CNY";
  paid_at = 300;
  remark = none;
  raw_payload = null;
  fingerprint = "f1";
  status = received;
  matched_at = none;
  attempt_count = 0;
  last_attempt_at = none;
  next_attempt_at = none;
  failure_code = none;
  failure_message = none;
  created_at = 310;
  updated_at = 310;
}

abbrev captured : CaptureWorld
captured = record { world = record world { orders = monitored ∷ [] }; events = bill ∷ [] }

abbrev one_bill : IsExclusive (bill ∷ [])
unfolding IsExclusive count_where is_matched
one_bill order_id = omega arith

run_due-IsExclusive_example :
    IsExclusive (run_due_ctf_bill_capture_matches env default_match_run captured).1.1.events
run_due-IsExclusive_example = run_due-IsExclusive env default_match_run captured one_bill

abbrev payload : CtfBillCapturePayload
payload = record {
  channel_code = none;
  source = none;
  external_bill_id = some "B-2";
  payer_account = none;
  amount = "100.00";
  currency = none;
  paid_at = 300;
  remark = none;
  raw_payload = null;
}

abbrev collector : MerchantChannelAccount
collector = record account {
  provider_key = "ctf-bill-capture";
  channel_code = "ctf.alipay.monitor";
}

at_most_one : (b : Bool) → (if b then 1 else 0) ≤ 1
at_most_one true = omega arith
at_most_one false = omega arith

abbrev sound : IsSound (bill ∷ [])
unfolding count_where
sound = record { unique = λ f. at_most_one (str_eq "f1" f); exclusive = one_bill }

ingest-IsSound_example :
    IsSound (ingest_ctf_bill_capture_event env collector payload true 30 captured).1.events
ingest-IsSound_example = ingest-IsSound env collector payload true 30 captured sound
