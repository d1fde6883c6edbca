-- ===== src/Refunds/Status.antt =====
-- lib/refunds/status.ts: how a provider's answer moves the status of a refund.
use nova_pay.Base.{ℕ, String, Bool, [], ◌∷◌, ◌==◌, if◌then◌else◌}
use nova_pay.Base.Text.{mentions}

pub data PaymentRefundStatus : Type 0 where
  pending processing succeeded failed : PaymentRefundStatus

abbrev pub rank : PaymentRefundStatus → ℕ
rank pending = 0
rank processing = 1
rank succeeded = 2
rank failed = 3

-- `a === b` on statuses
infix 50 ◌is◌
abbrev pub ◌is◌ : PaymentRefundStatus → PaymentRefundStatus → Bool
a is b = rank a == rank b

unfoldable pub resolve_refund_status : PaymentRefundStatus → String → Bool → PaymentRefundStatus
resolve_refund_status current provider_status succeeds =
    if succeeds
    then succeeded
    else if mentions ("SUCCESS" ∷ "FINISH" ∷ []) provider_status
    then succeeded
    else if mentions ("PROCESS" ∷ "PENDING" ∷ "WAIT" ∷ "ACCEPT" ∷ []) provider_status
    then (if current is succeeded then current else processing)
    else if mentions ("FAIL" ∷ "CLOSE" ∷ "CANCEL" ∷ "ABNORMAL" ∷ "ERROR" ∷ []) provider_status
    then (if current is succeeded then current else failed)
    else if current is succeeded
    then current
    else processing
