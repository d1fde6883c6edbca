-- ===== src/Orders/Status.antt =====
-- lib/orders/status.ts: how a provider's answer moves the status of an order. The statuses are the
-- enums of prisma/schema.prisma.
pub mod Laws
mod Tests
use nova_pay.Base.{ℕ, String, Bool, true, false, not, ◌&&◌, ◌||◌, [], ◌∷◌, ◌==◌, if◌then◌else◌}
use nova_pay.Base.Text.{mentions}

pub data PaymentStatus : Type 0 where
  pending processing succeeded failed cancelled : PaymentStatus

pub data CallbackDeliveryStatus : Type 0 where
  not_required waiting in_flight delivered undelivered : CallbackDeliveryStatus

-- The place of a status in its enum, by which two are compared.
abbrev pub rank : PaymentStatus → ℕ
rank pending = 0
rank processing = 1
rank succeeded = 2
rank failed = 3
rank cancelled = 4

-- `a === b` on statuses
infix 50 ◌is◌
abbrev pub ◌is◌ : PaymentStatus → PaymentStatus → Bool
a is b = rank a == rank b

unfoldable pub is_terminal_payment_status : PaymentStatus → Bool
is_terminal_payment_status status = status is succeeded || status is failed || status is cancelled

-- The answer of a provider to a new payment.
pub data CreatedStatus : Type 0 where
  requires_action now_processing : CreatedStatus

unfoldable pub status_from_create_payment : CreatedStatus → PaymentStatus
status_from_create_payment now_processing = processing
status_from_create_payment requires_action = pending

unfoldable pub is_failure_provider_status : String → Bool
is_failure_provider_status s = mentions ("FAIL" ∷ "ERROR" ∷ "CLOSE" ∷ "CANCEL" ∷ []) s

unfoldable pub is_pending_provider_status : String → Bool
is_pending_provider_status s =
    mentions ("WAIT" ∷ "PEND" ∷ "BUYER_PAY" ∷ "USERPAYING" ∷ "PROCESS" ∷ "NOTPAY" ∷ []) s

unfoldable pub resolve_payment_status_from_notification :
    PaymentStatus → String → Bool → PaymentStatus
unfolding is_terminal_payment_status
resolve_payment_status_from_notification current provider_status succeeds =
    if succeeds
    then succeeded
    else if mentions ("CLOSE" ∷ "CANCEL" ∷ "EXPIRE" ∷ []) provider_status
    then (if current is succeeded then current else cancelled)
    else if is_failure_provider_status provider_status
    then (if is_terminal_payment_status current then current else failed)
    else if is_pending_provider_status provider_status
    then (if is_terminal_payment_status current then current else processing)
    else if is_terminal_payment_status current
    then current
    else processing

unfoldable pub should_dispatch_merchant_callback : PaymentStatus → Bool
should_dispatch_merchant_callback status =
    status is succeeded || status is failed || status is cancelled

unfoldable pub get_initial_callback_status : Bool → CallbackDeliveryStatus
get_initial_callback_status has_callback_target =
    if has_callback_target then waiting else not_required
