-- ===== src/Tests/Create.antt =====
-- Creating orders in the sample database.
use nova_pay.Base.{refl, none}
use nova_pay.Base.Json.{null, end}
use nova_pay.Base.Rows.{find}
use nova_pay.Orders.Create.{create_payment_order}
use nova_pay.Orders.Create.Record.{CreatePaymentOrderInput, record_created, record_create_failed}
use nova_pay.Orders.Create.Laws.{Added, create-Added}
use nova_pay.Orders.Create.Late.{create-IsPaid, late-undoes}
use nova_pay.Orders.Create.Quote.{get_quoted_payment_fields}
use nova_pay.Orders.Paid.{IsPaid}
use nova_pay.Orders.Status.{now_processing}
use nova_pay.Payments.Routes.{select_provider_account_for_order}
use nova_pay.Payments.Routes.Laws.{IsRoute, select-IsRoute}
use nova_pay.Store.Ends.{Atomic}
use nova_pay.Store.Sample.{env, world, paid_order}
use nova_pay.Store.World.{CreatePaymentResult, redirect, thrown}

abbrev input : CreatePaymentOrderInput
input = record {
  merchant_code = "shop";
  channel_code = "alipay.page";
  external_order_id = "A-3";
  api_credential_id = none;
  amount = "100.00";
  currency = "CNY";
  subject = "Tea";
  client_ip = none;
  description = none;
  return_url = none;
  callback_url = none;
  metadata = null;
}

abbrev late_answer : CreatePaymentResult
late_answer = record {
  status = now_processing;
  mode = redirect;
  checkout_url = "https://pay.example";
  gateway_order_id = none;
  provider_status = none;
  provider_payload = end;
}

create-Added_example : Added input world.orders (create_payment_order env input world)
unfolding find
create-Added_example = create-Added env input world (λ t. refl)

create-IsPaid_example : IsPaid "o2" (create_payment_order env input world).1
unfolding find
create-IsPaid_example = create-IsPaid "o2" env input world (λ t. refl) (paid_order, refl, refl)

late-undoes_example :
    (¬ IsPaid "o2" (record_created env input "o2" late_answer world).1)
    × (¬ IsPaid "o2" (record_create_failed env "o2" (thrown "timeout") world).1)
unfolding find get_quoted_payment_fields
late-undoes_example =
    late-undoes env input "o2" late_answer (thrown "timeout") world (paid_order, refl, refl) refl

select-IsRoute_example :
    Atomic
      (IsRoute env "m1" "alipay.page" "100.00" world)
      world
      (select_provider_account_for_order env "m1" "alipay.page" "100.00" world)
select-IsRoute_example = select-IsRoute env "m1" "alipay.page" "100.00" world
