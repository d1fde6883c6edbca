-- ===== src/Callbacks/Plan.antt =====
-- lib/callbacks/service.ts: where the callback of an order goes and what it says.
use nova_pay.Base.{
  ◌≡◌, ◌⊎◌, refl, inl, inr, ℕ, String, Option, none, some, or_else, List, [], ◌∷◌, ◌++◌, str_eq,
  if◌then◌else◌,
}
use nova_pay.Base.Json.{Json, null, str, obj, field, end}
use nova_pay.Orders.Status.{PaymentStatus, pending, processing, succeeded, failed, cancelled}
use nova_pay.Store.Schema.{PaymentOrder, Merchant}
use nova_pay.Store.World.{Env, World, post, Outcome, answered, threw, map_outcome}
use nova_pay.EasyPay.Marker.{is_easy_pay_order}
use nova_pay.EasyPay.Notify.{
  CallbackRequestPlan, is_ok, build_easy_pay_callback_request, get_easy_pay_notify_url,
}

unfoldable pub resolve_callback_target : PaymentOrder → Merchant → Option String
resolve_callback_target order merchant =
    if merchant.callback_enabled
    then (if is_easy_pay_order order.metadata
        then get_easy_pay_notify_url order.metadata
        else or_else order.callback_url merchant.callback_base)
    else none

-- A text or null, as JSON.
abbrev pub nullable : Option String → Json
nullable none = null
nullable (some s) = str s

status_name : PaymentStatus → String
status_name pending = "PENDING"
status_name processing = "PROCESSING"
status_name succeeded = "SUCCEEDED"
status_name failed = "FAILED"
status_name cancelled = "CANCELLED"

abbrev pub nullable_date : Env → Option ℕ → Json
nullable_date env none = null
nullable_date env (some t) = str (env.iso t)

build_payload : Env → PaymentOrder → Merchant → Json
unfolding status_name
build_payload env order merchant = obj (
    field "event" (str "payment.order.updated") (
      field "order"
        (obj (
          field "id" (str order.id) (
            field "merchantCode" (str merchant.code) (
              field "externalOrderId" (str order.external_order_id) (
                field "channelCode" (str order.channel_code) (
                  field "amount" (str (env.decimal order.amount)) (
                    field "currency" (str order.currency) (
                      field "status" (str (status_name order.status)) (
                        field "gatewayOrderId" (nullable order.gateway_order_id) (
                          field "providerStatus" (nullable order.provider_status) (
                            field "paidAt" (nullable_date env order.paid_at) (
                              field "completedAt" (nullable_date env order.completed_at)
                                (field "metadata" order.metadata end)))))))))))))
        end))

-- `if (notifySecret)`
signature_header : Env → Option String → String → String → List (String × String)
signature_header env none timestamp body = []
signature_header env (some secret) timestamp body =
    if str_eq secret ""
    then []
    else ("x-novapay-signature", env.callback_signature secret timestamp body) ∷ []

-- The plan of an order that did not come in by EasyPay, with the merchant's secret.
native_plan : Env → PaymentOrder → Merchant → String → String → Option String → CallbackRequestPlan
unfolding build_payload signature_header
native_plan env order merchant target_url timestamp secret =
    let body = env.stringify (build_payload env order merchant) in
    record {
      request = record {
        method = post;
        url = target_url;
        headers =
            (("content-type", "application/json")
              ∷ ("x-novapay-event", "payment.order.updated")
              ∷ ("x-novapay-order-id", order.id)
              ∷ ("x-novapay-merchant-code", merchant.code)
              ∷ ("x-novapay-timestamp", timestamp)
              ∷ [])
            ++ signature_header env secret timestamp body;
        body = some body;
      };
      is_delivered = is_ok;
    }

-- It throws where the secret does not decrypt, or the URL of an EasyPay merchant is none.
unfoldable pub build_plan :
    Env → PaymentOrder → Merchant → String → String → World → Outcome (Option CallbackRequestPlan)
unfolding native_plan
build_plan env order merchant target_url timestamp w =
    if is_easy_pay_order order.metadata
    then build_easy_pay_callback_request env order target_url w
    else map_outcome (λ secret. some (native_plan env order merchant target_url timestamp secret))
        (env.reveal_stored_secret merchant.notify_secret)

pub planned_cases :
    {A : Type 0} (x : Outcome (Option A))
    → ((text : String) × (x ≡ threw text))
      ⊎ ((x ≡ answered none) ⊎ ((a : A) × (x ≡ answered (some a))))
planned_cases (threw text) = inl (text, refl)
planned_cases (answered none) = inr (inl refl)
planned_cases (answered (some a)) = inr (inr (a, refl))
