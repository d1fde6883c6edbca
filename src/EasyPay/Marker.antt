-- ===== src/EasyPay/Marker.antt =====
-- lib/easypay/order-marker.ts: the marker in an order's metadata. Its fields are read as texts; the
-- program writes nothing else there but null.
use nova_pay.Base.{ℕ, String, Bool, false, Option, none, some, str_eq, if◌then◌else◌}
use nova_pay.Base.Json.{Json, is_record, get_field}
use nova_pay.Orders.Status.{PaymentStatus, succeeded, ◌is◌}

-- `metadata.key`, where that is a text
unfoldable pub text_field : String → Json → Option String
unfolding is_record get_field
text_field key metadata = elim (is_record metadata) [
  | none ↦ none
  | some fields ↦ elim (get_field key fields) [ some (Json.str s) ↦ some s | _ ↦ none ]
]

unfoldable pub is_easy_pay_order : Json → Bool
unfolding text_field
is_easy_pay_order metadata = elim (text_field "protocol" metadata) [
  | none ↦ false
  | some p ↦ str_eq p "easypay"
]

-- 1 is paid, 0 is not.
unfoldable pub to_easy_pay_status : PaymentStatus → ℕ
to_easy_pay_status status = if status is succeeded then 1 else 0
