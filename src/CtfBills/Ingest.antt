-- ===== src/CtfBills/Ingest.antt =====
-- lib/ctf-bill-capture/service.ts: assertCtfBillCaptureAccount, buildCtfBillCaptureFingerprint and
-- ingestCtfBillCaptureEvent. The texts `bill:<id>` and `raw:<json>` are parts of the digested text.
use Prim.Native.String
use nova_pay.Base.{
  ℕ, suc, String, Bool, true, false, not, ◌&&◌, ◌||◌, Option, none, some, or_else, get_or, List, [],
  ◌∷◌, ◌++◌, str_eq, if◌then◌else◌,
}
use nova_pay.Base.Json.{Json, Fields, obj, field, end}
use nova_pay.Base.Rows.{find}
use nova_pay.Base.Text.{text_le}
use nova_pay.Callbacks.Dispatch.{present}
use nova_pay.CtfBills.{
  CtfBillCaptureEvent, CaptureWorld, CtfBillCaptureStatus, received, is_received, is_matched,
}
use nova_pay.CtfBills.Match.{is_event, match_ctf_bill_capture_event}
use nova_pay.Orders.Create.Record.{natural}
use nova_pay.Orders.Slots.{round_cents}
use nova_pay.Payments.ChannelCodes.{
  normalize_payment_channel_code, is_ctf_bill_capture_channel_code,
}
use nova_pay.Store.Monad.{Result, ok, err}
use nova_pay.Store.Schema.{MerchantChannelAccount}
use nova_pay.Store.World.{
  Env, app, thrown, record_missing, ctf_bill_account_not_allowed, ctf_bill_channel_mismatch,
}

pub record CtfBillCapturePayload : Type 0 where
  pub channel_code : Option String
  pub source : Option String
  pub external_bill_id : Option String
  pub payer_account : Option String
  pub amount : String
  pub currency : Option String
  pub paid_at : ℕ
  pub remark : Option String
  pub raw_payload : Json

pub record CtfBillCaptureIngestResult : Type 0 where
  pub event_id : String
  pub duplicate : Bool
  pub is_match : Bool
  pub matched_payment_order_id : Option String
  pub status : CtfBillCaptureStatus

unfoldable pub is_ctf_bill_capture_account : Env → MerchantChannelAccount → Bool
is_ctf_bill_capture_account env account =
    str_eq account.provider_key "ctf-bill-capture"
    && is_ctf_bill_capture_channel_code env account.channel_code

-- The fields of a record in the order of their keys, which are all different.
unfoldable pub insert_field : String → Json → Fields → Fields
insert_field k v end = field k v end
insert_field k v (field j w fs) =
    if text_le k j then field k v (field j w fs) else field j w (insert_field k v fs)

unfoldable pub sort_fields : Fields → Fields
unfolding insert_field
sort_fields end = end
sort_fields (field k v fs) = insert_field k v (sort_fields fs)

unfoldable pub stable_json : Env → Json → String
unfolding sort_fields
stable_json env (obj fs) = env.stringify (obj (sort_fields fs))
stable_json env value = env.stringify value

-- `[...].join("|")`
unfoldable pub join_bars : List String → String
join_bars [] = ""
join_bars (s ∷ []) = s
join_bars (s ∷ t ∷ ts) = String.◌++◌ s (String.◌++◌ "|" (join_bars (t ∷ ts)))

abbrev bill_identity : Env → CtfBillCapturePayload → String
bill_identity env p = elim (present p.external_bill_id) [
  | none ↦ String.◌++◌ "raw:" (stable_json env p.raw_payload)
  | some id ↦ String.◌++◌ "bill:" id
]

unfoldable pub build_ctf_bill_capture_fingerprint :
    Env → String → String → CtfBillCapturePayload → String
unfolding join_bars stable_json
build_ctf_bill_capture_fingerprint env account_id channel p = env.sha256_hex (
    join_bars (
      "ctf-bill-capture:v1"
      ∷ account_id
      ∷ normalize_payment_channel_code env channel
      ∷ p.amount
      ∷ get_or p.currency "CNY"
      ∷ env.iso p.paid_at
      ∷ bill_identity env p
      ∷ []))

-- The channel that the payload names, unless it names a wallet only.
unfoldable pub payload_channel : Env → MerchantChannelAccount → CtfBillCapturePayload → String
payload_channel env account p = normalize_payment_channel_code env (elim (present p.channel_code) [
  | none ↦ account.channel_code
  | some c ↦ if str_eq c "alipay" || str_eq c "wxpay" then account.channel_code else c
])

unfoldable pub new_event :
    Env
    → MerchantChannelAccount
    → String
    → CtfBillCapturePayload
    → String
    → ℕ
    → String
    → ℕ
    → CtfBillCaptureEvent
new_event env account channel p fingerprint cents id now = record {
  id = id;
  merchant_channel_account_id = some account.id;
  matched_payment_order_id = none;
  channel_code = channel;
  capture_source = or_else p.source (env.account_setting account "sourceHint");
  external_bill_id = p.external_bill_id;
  payer_account = p.payer_account;
  amount = cents;
  currency = get_or p.currency "CNY";
  paid_at = p.paid_at;
  remark = p.remark;
  raw_payload = p.raw_payload;
  fingerprint = fingerprint;
  status = received;
  matched_at = none;
  attempt_count = 0;
  last_attempt_at = none;
  next_attempt_at = none;
  failure_code = none;
  failure_message = none;
  created_at = now;
  updated_at = now;
}

abbrev pub has_fingerprint : String → CtfBillCaptureEvent → Bool
has_fingerprint f e = str_eq e.fingerprint f

abbrev result_of : Bool → CtfBillCaptureEvent → CtfBillCaptureIngestResult
result_of duplicate e = record {
  event_id = e.id;
  duplicate = duplicate;
  is_match = is_matched e.status;
  matched_payment_order_id = e.matched_payment_order_id;
  status = e.status;
}

-- `findUniqueOrThrow`, and what is returned of it
unfoldable pub reloaded :
    Bool
    → Option CtfBillCaptureEvent
    → CaptureWorld
    → Result CtfBillCaptureIngestResult × CaptureWorld
reloaded duplicate none s = (err record_missing, s)
reloaded duplicate (some m) s = (ok (record (result_of duplicate m) { is_match = true }), s)

-- What is returned after a match was tried.
unfoldable pub after_match :
    Bool
    → CtfBillCaptureEvent
    → Result (Option String) × CaptureWorld
    → Result CtfBillCaptureIngestResult × CaptureWorld
unfolding reloaded
after_match duplicate e (err x, s) = (err x, s)
after_match duplicate e (ok none, s) = (ok (result_of duplicate e), s)
after_match duplicate e (ok (some order_id), s) =
    reloaded duplicate (find (is_event e.id) s.events) s

unfoldable pub match_now :
    Env
    → Bool
    → ℕ
    → Bool
    → CtfBillCaptureEvent
    → CaptureWorld
    → Result CtfBillCaptureIngestResult × CaptureWorld
unfolding after_match
match_now env immediately minutes duplicate e s =
    if immediately && is_received e.status
    then after_match duplicate e (match_ctf_bill_capture_event env minutes e.id s)
    else (ok (result_of duplicate e), s)

-- The two questions of a `create`: the id and the time of the row.
unfoldable pub create_event : CtfBillCaptureEvent → CaptureWorld → CaptureWorld
create_event e s = record {
  world = record (s.world) { ticks = suc (suc s.world.ticks) };
  events = s.events ++ e ∷ [];
}

unfoldable pub ingest_by :
    Env
    → MerchantChannelAccount
    → CtfBillCapturePayload
    → Bool
    → ℕ
    → String
    → Option ℕ
    → Option CtfBillCaptureEvent
    → CaptureWorld
    → Result CtfBillCaptureIngestResult × CaptureWorld
unfolding match_now create_event
ingest_by env account p immediately minutes channel amount (some e) s =
    match_now env immediately minutes true e s
ingest_by env account p immediately minutes channel none none s =
    (err (thrown "Invalid value for a Decimal column"), s)
ingest_by env account p immediately minutes channel (some millionths) none s =
    let e =
      new_event env account channel p (build_ctf_bill_capture_fingerprint env account.id channel p)
        (round_cents millionths) (env.fresh s.world.ticks) (env.time (suc s.world.ticks)) in
    match_now env immediately minutes false e (create_event e s)

-- `minutes` is the window, thirty if none is given.
unfoldable pub ingest_ctf_bill_capture_event :
    Env
    → MerchantChannelAccount
    → CtfBillCapturePayload
    → Bool
    → ℕ
    → CaptureWorld
    → Result CtfBillCaptureIngestResult × CaptureWorld
unfolding ingest_by
ingest_ctf_bill_capture_event env account p immediately minutes s =
    let channel = payload_channel env account p in
    if not (is_ctf_bill_capture_account env account)
    then (err (app ctf_bill_account_not_allowed 404), s)
    else if not (str_eq channel account.channel_code)
    then (err (app ctf_bill_channel_mismatch 409), s)
    else ingest_by env account p immediately minutes channel (natural (env.amount_of p.amount))
        (find (has_fingerprint (build_ctf_bill_capture_fingerprint env account.id channel p))
          s.events)
        s
