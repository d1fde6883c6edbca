-- ===== src/Orders/Status/Tests.antt =====
-- Runs and examples of the order status.
use nova_pay.Base.{◌≡◌, refl, true, false, [], ◌∷◌}
use nova_pay.Base.Text.{mentions}
use nova_pay.Orders.Status.{
  failed, cancelled, processing, is_terminal_payment_status,
  resolve_payment_status_from_notification, is_failure_provider_status, is_pending_provider_status,
}
use nova_pay.Orders.Status.Laws.{resolve_all, resolve_all-terminal, Move, resolve-Move}

trade_closed : resolve_payment_status_from_notification processing "trade_closed" false ≡ cancelled
unfolding resolve_payment_status_from_notification mentions
trade_closed = refl

not_pay : resolve_payment_status_from_notification failed "NOTPAY" false ≡ failed
unfolding resolve_payment_status_from_notification mentions is_failure_provider_status
    is_pending_provider_status
not_pay = refl

resolve-Move_example :
    Move processing (resolve_payment_status_from_notification processing "TRADE_CLOSED" false)
resolve-Move_example = resolve-Move processing "TRADE_CLOSED" false

resolve_all-terminal_example :
    is_terminal_payment_status (resolve_all failed (("WAIT", false) ∷ ("TRADE_CLOSED", false) ∷ []))
    ≡ true
unfolding is_terminal_payment_status
resolve_all-terminal_example =
    resolve_all-terminal failed (("WAIT", false) ∷ ("TRADE_CLOSED", false) ∷ []) refl
