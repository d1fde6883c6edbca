-- ===== src/EasyPay/Notify.antt =====
-- lib/easypay/notify.ts: the request that tells an EasyPay merchant of a paid order.
use nova_pay.Base.{
  String, Bool, not, ◌&&◌, Option, none, some, List, [], ◌∷◌, str_eq, leb, if◌then◌else◌,
}
use nova_pay.Base.Json.{Json}
use nova_pay.Base.Rows.{find}
use nova_pay.Orders.Status.{succeeded, ◌is◌}
use nova_pay.Store.Schema.{PaymentOrder, EasyPayCredential}
use nova_pay.Store.World.{Env, World, HttpRequest, Response, get, Outcome, answered, map_outcome}
use nova_pay.EasyPay.Marker.{text_field, is_easy_pay_order}

-- `response.ok`
abbrev pub is_ok : Response → Bool
is_ok r = leb 200 r.status && leb r.status 299

-- What is sent, and how an answer shows that it was delivered.
pub record CallbackRequestPlan : Type 0 where
  pub request : HttpRequest
  pub is_delivered : Response → Bool

abbrev find_credential : Option String → World → Option EasyPayCredential
find_credential none w = none
find_credential (some id) w = find (λ c. str_eq c.id id) w.credentials

easy_pay_params : Env → PaymentOrder → List (String × Option String)
easy_pay_params env order =
    ("pid", text_field "easypayPid" order.metadata)
    ∷ ("trade_no", some order.id)
    ∷ ("out_trade_no", some order.external_order_id)
    ∷ ("type", text_field "easypayType" order.metadata)
    ∷ ("name", some order.subject)
    ∷ ("money", some (env.decimal order.amount))
    ∷ ("trade_status", some "TRADE_SUCCESS")
    ∷ ("param", text_field "param" order.metadata)
    ∷ []

easy_pay_request : Env → String → CallbackRequestPlan
easy_pay_request env url = record {
  request = record { method = get; url = url; headers = []; body = none };
  is_delivered = λ r. is_ok r && str_eq (env.trim_lower r.text) "success";
}

easy_pay_plan :
    Env → PaymentOrder → String → Option EasyPayCredential → Outcome (Option CallbackRequestPlan)
unfolding easy_pay_params easy_pay_request
easy_pay_plan env order notify_url none = answered none
easy_pay_plan env order notify_url (some c) =
    map_outcome (λ url. some (easy_pay_request env url))
      (env.append_signed_query notify_url (easy_pay_params env order) c.key_ciphertext)

-- It reads the credentials, and writes nothing.
unfoldable pub build_easy_pay_callback_request :
    Env → PaymentOrder → String → World → Outcome (Option CallbackRequestPlan)
unfolding easy_pay_plan
build_easy_pay_callback_request env order notify_url w =
    if not (is_easy_pay_order order.metadata)
    then answered none
    else if not (order.status is succeeded)
    then answered none
    else easy_pay_plan env order notify_url
        (find_credential (text_field "easypayCredentialId" order.metadata) w)

unfoldable pub get_easy_pay_notify_url : Json → Option String
get_easy_pay_notify_url metadata =
    if is_easy_pay_order metadata then text_field "notifyUrl" metadata else none
