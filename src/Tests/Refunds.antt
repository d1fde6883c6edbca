-- ===== src/Tests/Refunds.antt =====
-- Refunds of the sample database.
use nova_pay.Base.{◌≡◌, refl, true, none, some}
use nova_pay.Base.Rows.{find}
use nova_pay.Base.Json.{null}
use nova_pay.Store.Ends.{Atomic}
use nova_pay.Store.World.{threw, thrown}
use nova_pay.Store.Monad.{err}
use nova_pay.Store.Sample.{env, world, paid_order, merchant, refund, refunded}
use nova_pay.Refunds.Amount.{RefundInput, reserve_refund, get_reserved_refund_amount}
use nova_pay.Refunds.Amount.Cap.{Reserved, reserve-Atomic}
use nova_pay.Refunds.Notify.{apply_payment_refund_notification_by_id}
use nova_pay.Refunds.Notify.Laws.{Answered, apply_refund-Atomic}
use nova_pay.Refunds.Service.{send_refund}
use nova_pay.Refunds.Service.Laws.{send-releases}

abbrev input : RefundInput
input = record {
  external_refund_id = "R-2";
  api_credential_id = none;
  amount = "60.00";
  reason = none;
  metadata = null;
}

reserve-Atomic_example :
    Atomic (Reserved paid_order world) world (reserve_refund env paid_order input world)
reserve-Atomic_example = reserve-Atomic env paid_order input world

apply_refund-Atomic_example :
    Atomic
      (Answered refund refunded world)
      world
      (apply_payment_refund_notification_by_id env "r1" refunded world)
unfolding find
apply_refund-Atomic_example =
    apply_refund-Atomic env "r1" refunded refund paid_order merchant world refl refl refl

send-releases_example :
    let p = send_refund env (λ tick o r raw. threw "timeout") true paid_order input refund world in
    (p.0 ≡ err (thrown "timeout"))
    × (get_reserved_refund_amount "o2" none p.1.refunds
        ≡ get_reserved_refund_amount "o2" (some "r1") world.refunds)
    × (p.1.ledger ≡ world.ledger)
unfolding find
send-releases_example =
    send-releases env (λ tick o r raw. threw "timeout") true paid_order input refund world "timeout"
      "o2" refl refl
