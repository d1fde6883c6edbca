-- ===== src/CtfBills/Match.antt =====
-- lib/ctf-bill-capture/service.ts, findMatchingPaymentOrder and matchCtfBillCaptureEvent.
use nova_pay.Base.{
  ℕ, suc, ◌+◌, ◌*◌, String, Bool, true, false, not, ◌&&◌, ◌||◌, Option, none, some, get_or, List,
  [], ◌∷◌, str_eq, ◌==◌, leb, keep, if◌then◌else◌,
}
use nova_pay.Base.Json.{str, obj, field, end}
use nova_pay.Base.Rows.{find, update_first}
use nova_pay.Base.Sort.{sort_by}
use nova_pay.Base.Text.{codes, includes}
use nova_pay.Callbacks.Dispatch.{present}
use nova_pay.Callbacks.Plan.{nullable}
use nova_pay.CtfBills.{CtfBillCaptureEvent, CaptureWorld, is_received, is_matched, matched}
use nova_pay.EasyPay.Marker.{text_field}
use nova_pay.Orders.Notify.{apply_payment_notification}
use nova_pay.Orders.Slots.{used_cents}
use nova_pay.Orders.Status.{pending, processing, cancelled, ◌is◌}
use nova_pay.Store.Monad.{Result, ok, err}
use nova_pay.Store.Schema.{PaymentOrder}
use nova_pay.Store.World.{Env, World, PaymentNotification, ctf_capture}

-- `Some(order => …)` over a list of texts
unfoldable pub any_included : Env → String → List String → Bool
unfolding includes
any_included env remark [] = false
any_included env remark (c ∷ cs) =
    includes (codes (env.lower c)) (codes remark) || any_included env remark cs

-- Texts that are not empty; that one stands there twice does not matter to the search.
unfoldable pub add_text : Option String → List String → List String
add_text none cs = cs
add_text (some s) cs = if str_eq s "" then cs else s ∷ cs

abbrev payload_text : Env → String → PaymentOrder → Option String
payload_text env key o = elim (text_field key o.channel_payload) [
  | none ↦ none
  | some s ↦ some (env.trim s)
]

unfoldable pub build_order_remark_candidates : Env → PaymentOrder → List String
unfolding add_text
build_order_remark_candidates env o = add_text (some o.id) (
    add_text (some o.external_order_id) (
      add_text (some o.subject) (
        add_text (payload_text env "remark" o) (
          add_text (payload_text env "memo" o) (
            add_text (payload_text env "qrPayload" o)
              (add_text (payload_text env "checkoutUrl" o) []))))))

unfoldable pub remark_matches_order : Env → Option String → PaymentOrder → Bool
unfolding any_included build_order_remark_candidates
remark_matches_order env remark o =
    str_eq (env.trim (get_or remark "")) ""
    || any_included env (env.trim_lower (get_or remark "")) (build_order_remark_candidates env o)

unfoldable pub is_notification_listener_source : Env → Option String → Bool
is_notification_listener_source env source =
    let normalized = env.trim_lower (get_or source "") in
    str_eq normalized "notif-alipay-listener"
    || (str_eq normalized "notif-wechat-listener" || str_eq normalized "notif-alipay-voice-helper")

-- An order that is open, or was ended by its expiry though the bill was paid before that.
unfoldable pub is_open_or_recoverable : ℕ → PaymentOrder → Bool
is_open_or_recoverable paid_at o =
    o.status is pending
    || (o.status is processing
        || (o.status is cancelled
            && (str_eq (get_or o.provider_status "") "ORDER_EXPIRED"
                && (elim o.paid_at [ none ↦ true | some t ↦ false ]
                    && elim o.expire_at [ none ↦ false | some t ↦ leb paid_at t ]))))

-- `expireAt >= paidAt - window`, if there is an expiry
unfoldable pub is_in_window : ℕ → ℕ → PaymentOrder → Bool
is_in_window paid_at minutes o = elim o.expire_at [
  | none ↦ true
  | some t ↦ leb paid_at (t + minutes * 60000)
]

-- `ctfBillCaptureEvents: { none: { status: MATCHED } }`, where a bill refers to its order
unfoldable pub has_matched_bill : String → List CtfBillCaptureEvent → Bool
unfolding is_matched
has_matched_bill order_id [] = false
has_matched_bill order_id (e ∷ es) =
    is_matched e.status
      && elim e.matched_payment_order_id [ none ↦ false | some id ↦ str_eq id order_id ]
    || has_matched_bill order_id es

unfoldable pub is_of_bill : String → CtfBillCaptureEvent → PaymentOrder → Bool
is_of_bill account e o =
    elim o.merchant_channel_account_id [ none ↦ false | some a ↦ str_eq a account ]
    && (str_eq o.channel_code e.channel_code
        && (str_eq o.currency e.currency && leb o.created_at e.paid_at))

-- The `where` of the query, and the filter by the amount in cents.
unfoldable pub is_match_candidate :
    String → ℕ → List CtfBillCaptureEvent → CtfBillCaptureEvent → PaymentOrder → Bool
unfolding is_of_bill is_open_or_recoverable is_in_window has_matched_bill
is_match_candidate account minutes events e o =
    is_of_bill account e o
    && (is_open_or_recoverable e.paid_at o
        && (is_in_window e.paid_at minutes o
            && (not (has_matched_bill o.id events) && used_cents o == e.amount)))

abbrev pub older_first : PaymentOrder → PaymentOrder → Bool
older_first a b = leb a.created_at b.created_at

unfoldable pub only_one : List PaymentOrder → Option PaymentOrder
only_one (o ∷ []) = some o
only_one _ = none

unfoldable pub choose_order :
    Env → CtfBillCaptureEvent → List PaymentOrder → Option PaymentOrder → Option PaymentOrder
unfolding only_one is_notification_listener_source
choose_order env e candidates (some o) = some o
choose_order env e candidates none =
    if is_notification_listener_source env e.capture_source then only_one candidates else none

unfoldable pub find_matching_payment_order :
    Env → String → ℕ → CtfBillCaptureEvent → CaptureWorld → Option PaymentOrder
unfolding choose_order remark_matches_order
find_matching_payment_order env account minutes e s =
    let candidates =
      keep (is_match_candidate account minutes s.events e) (sort_by older_first s.world.orders) in
    choose_order env e candidates (find (remark_matches_order env e.remark) candidates)

unfoldable pub captured_notification :
    Env → CtfBillCaptureEvent → PaymentOrder → PaymentNotification
captured_notification env e o = record {
  order_id = o.id;
  gateway_order_id = some (get_or e.external_bill_id e.id);
  provider_status = "CTF_BILL_CAPTURED";
  amount = some (env.decimal e.amount);
  paid_at = some e.paid_at;
  succeeds = true;
  raw_payload = obj (
      field "source" (str "ctf_bill_capture") (
        field "eventId" (str e.id) (
          field "externalBillId" (nullable e.external_bill_id) (
            field "payerAccount" (nullable e.payer_account)
              (field "remark" (nullable e.remark) (field "rawPayload" e.raw_payload end))))));
  evidence_kind = some ctf_capture;
}

unfoldable pub matched_event : String → ℕ → CtfBillCaptureEvent → CtfBillCaptureEvent
matched_event order_id now e = record e {
  status = matched;
  matched_payment_order_id = some order_id;
  matched_at = some now;
  next_attempt_at = none;
  failure_code = none;
  failure_message = none;
  updated_at = now;
}

abbrev pub is_event : String → CtfBillCaptureEvent → Bool
is_event id e = str_eq e.id id

-- What follows the notification.
unfoldable pub record_match :
    Env
    → CtfBillCaptureEvent
    → PaymentOrder
    → List CtfBillCaptureEvent
    → Result PaymentOrder × World
    → Result (Option String) × CaptureWorld
unfolding matched_event
record_match env e o events (err x, w) = (err x, record { world = w; events = events })
record_match env e o events (ok row, w) = (
  ok (some o.id),
  record {
    world = record w { ticks = suc w.ticks };
    events = update_first (is_event e.id) (matched_event o.id (env.time w.ticks)) events;
  },
)

unfoldable pub match_order :
    Env
    → CtfBillCaptureEvent
    → Option PaymentOrder
    → CaptureWorld
    → Result (Option String) × CaptureWorld
unfolding record_match captured_notification
match_order env e none s = (ok none, s)
match_order env e (some o) s =
    record_match env e o s.events
      (apply_payment_notification env (captured_notification env e o) s.world)

unfoldable pub match_received :
    Env
    → ℕ
    → CtfBillCaptureEvent
    → Option String
    → CaptureWorld
    → Result (Option String) × CaptureWorld
unfolding match_order find_matching_payment_order
match_received env minutes e none s = (ok none, s)
match_received env minutes e (some account) s =
    match_order env e (find_matching_payment_order env account minutes e s) s

unfoldable pub match_found :
    Env → ℕ → Option CtfBillCaptureEvent → CaptureWorld → Result (Option String) × CaptureWorld
unfolding match_received
match_found env minutes none s = (ok none, s)
match_found env minutes (some e) s =
    if not (is_received e.status)
    then (ok none, s)
    else match_received env minutes e (present e.merchant_channel_account_id) s

-- The matched order's id, if there is one. `minutes` is the window.
unfoldable pub match_ctf_bill_capture_event :
    Env → ℕ → String → CaptureWorld → Result (Option String) × CaptureWorld
unfolding match_found
match_ctf_bill_capture_event env minutes event_id s =
    match_found env minutes (find (is_event event_id) s.events) s
