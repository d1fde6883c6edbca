-- ===== src/Orders/Notify.antt =====
-- lib/orders/service.ts: applyPaymentNotification, by which every provider's answer reaches an order.
pub mod Amount
pub mod Written
pub mod Laws
use Prim.Native.String
use nova_pay.Base.{
  ℕ, ◌*◌, String, Bool, true, false, not, ◌&&◌, ◌||◌, Option, none, some, or_else, get_or, is_some,
  str_eq, if◌then◌else◌,
}
use nova_pay.Base.Json.{Json, Fields, is_record, set_field, obj, end}
use nova_pay.Orders.Status.{
  PaymentStatus, succeeded, failed, cancelled, ◌is◌, is_terminal_payment_status,
  resolve_payment_status_from_notification, should_dispatch_merchant_callback,
  get_initial_callback_status, not_required, delivered,
}
use nova_pay.Store.Schema.{PaymentOrder, Merchant, ◌at◌}
use nova_pay.Store.World.{
  Env, PaymentNotification, Evidence, ctf_capture, provider_evidence, system_evidence, app, Error,
  order_not_found, payment_evidence_channel_mismatch,
}
use nova_pay.Store.Monad.{
  Action, ok, ◌>>=◌, ◌>>◌, pure, raise, raise_if, gets, read_clock, update_order,
}
use nova_pay.Payments.ChannelCodes.{is_ctf_bill_capture_channel_code}
use nova_pay.Callbacks.Dispatch.{load_with_merchant, present, dispatch_merchant_callback}
use nova_pay.Finance.Ledger.{sync_payment_order_ledger_entries}
use Amount.{assert_payment_notification_amount_matches}

unfoldable pub get_callback_target : PaymentOrder → Merchant → Option String
get_callback_target order merchant =
    if merchant.callback_enabled then or_else order.callback_url merchant.callback_base else none

-- `Boolean(callbackTarget)`
abbrev pub has_callback_target : PaymentOrder → Merchant → Bool
has_callback_target order merchant = is_some (present (get_callback_target order merchant))

-- `order.payableAmount ?? order.amount`, in millionths
abbrev pub expected_amount : PaymentOrder → ℕ
expected_amount order = get_or order.payable_amount (order.amount * 10000)

unfoldable pub is_ctf_evidence : Option Evidence → Bool
is_ctf_evidence none = false
is_ctf_evidence (some ctf_capture) = true
is_ctf_evidence (some provider_evidence) = false
is_ctf_evidence (some system_evidence) = false

abbrev pub next_status : PaymentOrder → PaymentNotification → PaymentStatus
next_status order n =
    resolve_payment_status_from_notification order.status n.provider_status n.succeeds

should_force_callback : PaymentOrder → Merchant → PaymentStatus → Bool
should_force_callback order merchant next =
    should_dispatch_merchant_callback next
    && (is_terminal_payment_status order.status
        && (not (order.status is next) && has_callback_target order merchant))

unfoldable pub should_queue_callback : PaymentOrder → Merchant → PaymentStatus → Bool
unfolding should_force_callback
should_queue_callback order merchant next =
    should_dispatch_merchant_callback next
    && (has_callback_target order merchant
        && (not (order.callback_status at delivered) || should_force_callback order merchant next))

-- `{ ...nextPayload, notify: rawPayload }`
abbrev with_notify : Option Fields → Json → Json
with_notify none payload = obj (set_field "notify" payload end)
with_notify (some fields) payload = obj (set_field "notify" payload fields)

abbrev is_stopped : PaymentStatus → Bool
is_stopped next = next is failed || next is cancelled

-- The row that a notification writes at the time `now`.
unfoldable pub notified_row :
    PaymentOrder → Merchant → PaymentNotification → ℕ → PaymentOrder → PaymentOrder
notified_row order merchant n now o =
    let next = next_status order n in
    let queued = should_queue_callback order merchant next in
    record o {
      status = next;
      provider_status = some n.provider_status;
      gateway_order_id = or_else n.gateway_order_id order.gateway_order_id;
      paid_at =
          if n.succeeds
          then or_else n.paid_at (or_else order.paid_at (some now))
          else order.paid_at;
      completed_at =
          if next is succeeded || (next is failed || next is cancelled)
          then or_else order.completed_at (some now)
          else order.completed_at;
      failure_code = if is_stopped next then some n.provider_status else none;
      failure_message =
          if is_stopped next
          then some (String.◌++◌ "Provider status: " n.provider_status)
          else none;
      callback_status =
          if queued
          then get_initial_callback_status (has_callback_target order merchant)
          else if has_callback_target order merchant
          then order.callback_status
          else not_required;
      next_callback_at = if queued then some now else order.next_callback_at;
      channel_payload = with_notify (is_record order.channel_payload) n.raw_payload;
    }

unfoldable pub sync_if_succeeded : Env → PaymentOrder → Action PaymentOrder
sync_if_succeeded env updated =
    if updated.status is succeeded
    then sync_payment_order_ledger_entries env updated.id >> pure updated
    else pure updated

unfoldable pub dispatch_if_queued : Env → Bool → PaymentOrder → Action PaymentOrder
unfolding sync_if_succeeded
dispatch_if_queued env queued updated =
    if queued && not (updated.callback_status at delivered)
    then dispatch_merchant_callback env updated.id false >> sync_if_succeeded env updated
    else sync_if_succeeded env updated

-- After the guards.
unfoldable pub write_notification :
    Env → PaymentNotification → PaymentOrder → Merchant → Action PaymentOrder
unfolding dispatch_if_queued
write_notification env n order merchant = do
  now ← read_clock env
  updated ← update_order env order.id (notified_row order merchant n now)
  dispatch_if_queued env (should_queue_callback order merchant (next_status order n)) updated

unfoldable pub apply_to_amount :
    Env → PaymentNotification → PaymentOrder → Merchant → Option Error → Action PaymentOrder
unfolding write_notification
apply_to_amount env n order merchant (some e) = raise e
apply_to_amount env n order merchant none = write_notification env n order merchant

unfoldable pub apply_to_found :
    Env → PaymentNotification → Option (PaymentOrder × Merchant) → Action PaymentOrder
unfolding apply_to_amount is_ctf_evidence
apply_to_found env n none = raise (app order_not_found 404)
apply_to_found env n (some (order, merchant)) =
    if is_ctf_evidence n.evidence_kind
      && not (is_ctf_bill_capture_channel_code env order.channel_code)
    then raise (app payment_evidence_channel_mismatch 409)
    else apply_to_amount env n order merchant
        (assert_payment_notification_amount_matches env (expected_amount order) n.amount n.succeeds)

unfoldable pub apply_payment_notification : Env → PaymentNotification → Action PaymentOrder
unfolding apply_to_found
apply_payment_notification env n = do
  found ← gets (load_with_merchant n.order_id)
  apply_to_found env n found
