-- ===== src/Tests/Orders.antt =====
-- Orders of the sample database.
use nova_pay.Base.{
  ◌≡◌, ℕ, zero, suc, List, ◌∷◌, keep, arith, refl, true, none, some, [], ◌≤◌, ◌<◌, ◌&&◌, ◌==◌, ◌+◌,
}
use nova_pay.Base.Rows.{find}
use nova_pay.Base.Int.{ℤ, pos, distance}
use nova_pay.Base.Json.{obj, field, str, end}
use nova_pay.Store.Schema.{PaymentOrder, Merchant}
use nova_pay.Store.World.{World, app, ctf_unique_amount_exhausted}
use nova_pay.Store.Sample.{env, world, order, paid_order, merchant, paid, closed}
use nova_pay.Orders.Notify.{apply_payment_notification}
use nova_pay.Orders.Notify.Amount.{
  assert_payment_notification_amount_matches, amount_matches-accepts,
}
use nova_pay.Orders.Notify.Laws.{Notified, apply-Notified}
use nova_pay.Orders.Expiry.{close_expired_payment_orders}
use nova_pay.Orders.Slots.{
  allocate_slot, first_free, is_used, is_active, used_cents, slot_or_exhausted,
}
use nova_pay.Orders.Slots.Laws.{allocate_slot-free, allocate_slot-full}
use nova_pay.Orders.Paid.{IsPaid}
use nova_pay.Orders.Paid.Services.{apply-IsPaid}
use nova_pay.Orders.Paid.Lookup.{sweep-IsPaid}

apply-Notified_example :
    Notified env order paid merchant world (apply_payment_notification env paid world)
unfolding find
apply-Notified_example = apply-Notified env paid order merchant world refl refl

abbrev paid_o2 : IsPaid "o2" world
unfolding find
paid_o2 = (paid_order, refl, refl)

apply-IsPaid_example : IsPaid "o2" (apply_payment_notification env closed world).1
apply-IsPaid_example = apply-IsPaid "o2" env closed world paid_o2

sweep-IsPaid_example : IsPaid "o2" (close_expired_payment_orders env none world).1
sweep-IsPaid_example = sweep-IsPaid "o2" env none world paid_o2

amount_matches-accepts_example :
    (actual : ℤ) × (env.amount_of "100.00" ≡ some actual)
    × (distance (pos 100000000) actual ≤ 10000)
unfolding assert_payment_notification_amount_matches
amount_matches-accepts_example = amount_matches-accepts env 100000000 "100.00" true (λ e. cc) refl

abbrev easy_order : PaymentOrder
easy_order = record order {
  metadata =
      obj (field "protocol" (str "easypay") (field "notifyUrl" (str "https://a.example") end));
}

abbrev silent_merchant : Merchant
silent_merchant = record merchant { callback_base = none }

-- An open order of 100.00 takes the first slot.
allocate_slot-free_example :
    (find (λ o. is_active "a1" "alipay.page" "CNY" o && (used_cents o == 10001)) world.orders
      ≡ none)
    × (10000 ≤ 10001)
    × (10001 < 10000 + 100)
unfolding allocate_slot first_free is_used is_active slot_or_exhausted
allocate_slot-free_example = allocate_slot-free "a1" "alipay.page" "CNY" 10000 10001 world refl

-- Open orders of so many amounts from 100.00 on.
crowd : ℕ → List PaymentOrder
crowd zero = []
crowd (suc n) = record order { amount = 10000 + n } ∷ crowd n

abbrev crowded : World
unfolding crowd
crowded = record world { orders = crowd 100 }

allocate_slot-full_example :
    is_used 10042 (keep (is_active "a1" "alipay.page" "CNY") crowded.orders) ≡ true
unfolding allocate_slot first_free is_used is_active slot_or_exhausted crowd crowded
allocate_slot-full_example =
    allocate_slot-full "a1" "alipay.page" "CNY" 10000 10042 crowded
      (app ctf_unique_amount_exhausted 409) refl (omega arith) (omega arith)
