-- ===== src/Finance/Ledger.antt =====
-- lib/finance/ledger.ts: what a paid order and a refund that went through leave in the ledger. The
-- entry's own id and its creation time are not modelled.
pub mod Upsert
pub mod Laws
use Prim.Native.String
use nova_pay.Base.{
  ℕ, String, keep, Option, none, some, or_else, get_or, List, [], ◌∷◌, ltb, ◌==◌, Bool,
  if◌then◌else◌, length,
}
use nova_pay.Base.Int.{ℤ, pos}
use nova_pay.Base.Json.{Json, Fields, obj, field, str, null, end}
use nova_pay.Base.Rows.{find, delete_where}
use nova_pay.Orders.Status.{succeeded, ◌is◌}
use nova_pay.Store.Schema.{
  PaymentOrder, PaymentRefund, Merchant, MerchantLedgerEntry, ExternalKey, capture_key, fee_key,
  refund_key, payment_capture, payment_fee, refund, credit, debit,
}
use nova_pay.Store.World.{Env, World}
use nova_pay.Store.Monad.{
  Action, ok, ◌>>=◌, ◌>>◌, pure, gets, modify, find_order, find_refund, find_merchant,
}
use nova_pay.Callbacks.Dispatch.{load_with_merchant}
use nova_pay.Refunds.Status
use nova_pay.Callbacks.Plan.{nullable}
use Upsert.{is_key, upsert}

abbrev pub is_refunded : PaymentRefund → Bool
is_refunded r = Status.rank r.status == Status.rank Status.succeeded

-- The metadata of the entries of an order. The fee's entry leaves the fee out of it.
order_metadata : Env → PaymentOrder → Merchant → Json
order_metadata env order merchant = obj (
    field "merchantCode" (str merchant.code) (
      field "externalOrderId" (str order.external_order_id) (
        field "channelCode" (str order.channel_code) (
          field "gatewayOrderId" (nullable order.gateway_order_id) (
            field "feeRate" (str (env.rate_text order.fee_rate_snapshot)) (
              field "feeAmount" (str (env.decimal order.fee_amount))
                (field "netAmount" (str (env.signed_decimal order.net_amount)) end)))))))

fee_metadata : Env → PaymentOrder → Merchant → Json
fee_metadata env order merchant = obj (
    field "merchantCode" (str merchant.code) (
      field "externalOrderId" (str order.external_order_id) (
        field "channelCode" (str order.channel_code) (
          field "gatewayOrderId" (nullable order.gateway_order_id) (
            field "feeRate" (str (env.rate_text order.fee_rate_snapshot))
              (field "netAmount" (str (env.signed_decimal order.net_amount)) end))))))

-- `order.paidAt ?? order.completedAt ?? order.updatedAt`
abbrev occurred_at : PaymentOrder → ℕ
occurred_at order = get_or (or_else order.paid_at order.completed_at) order.updated_at

unfoldable pub capture_entry : Env → PaymentOrder → Merchant → MerchantLedgerEntry
unfolding order_metadata
capture_entry env order merchant = record {
  merchant_id = order.merchant_id;
  payment_order_id = some order.id;
  payment_refund_id = none;
  settlement_id = none;
  type = payment_capture;
  direction = credit;
  amount = pos order.amount;
  currency = order.currency;
  description = String.◌++◌ "支付入账 " order.external_order_id;
  external_key = capture_key order.id;
  metadata = order_metadata env order merchant;
  occurred_at = occurred_at order;
}

-- The update of the capture entry leaves `settlementId` as it is.
unfoldable pub capture_update :
    Env → PaymentOrder → Merchant → MerchantLedgerEntry → MerchantLedgerEntry
unfolding capture_entry
capture_update env order merchant e = record (capture_entry env order merchant) {
  settlement_id = e.settlement_id;
  external_key = e.external_key;
}

unfoldable pub fee_entry : Env → PaymentOrder → Merchant → MerchantLedgerEntry
unfolding fee_metadata
fee_entry env order merchant = record {
  merchant_id = order.merchant_id;
  payment_order_id = some order.id;
  payment_refund_id = none;
  settlement_id = none;
  type = payment_fee;
  direction = debit;
  amount = pos order.fee_amount;
  currency = order.currency;
  description = String.◌++◌ "支付手续费 " order.external_order_id;
  external_key = fee_key order.id;
  metadata = fee_metadata env order merchant;
  occurred_at = occurred_at order;
}

unfoldable pub fee_update :
    Env → PaymentOrder → Merchant → MerchantLedgerEntry → MerchantLedgerEntry
unfolding fee_entry
fee_update env order merchant e = record (fee_entry env order merchant) {
  external_key = e.external_key;
}

-- The two writes of a paid order.
unfoldable pub post_order :
    Env → PaymentOrder → Merchant → List MerchantLedgerEntry → List MerchantLedgerEntry
post_order env order merchant entries =
    let captured =
      upsert (capture_key order.id) (capture_update env order merchant)
        (capture_entry env order merchant) entries in
    if ltb 0 order.fee_amount
    then upsert (fee_key order.id) (fee_update env order merchant) (fee_entry env order merchant)
        captured
    else delete_where (is_key (fee_key order.id)) captured

unfoldable pub sync_loaded_order : Env → Option (PaymentOrder × Merchant) → Action (Unit {0})
sync_loaded_order env none = pure tt
sync_loaded_order env (some (order, merchant)) =
    if order.status is succeeded
    then modify (λ w. record w { ledger = post_order env order merchant w.ledger })
    else pure tt

unfoldable pub sync_payment_order_ledger_entries : Env → String → Action (Unit {0})
unfolding sync_loaded_order
sync_payment_order_ledger_entries env order_id = do
  found ← gets (load_with_merchant order_id)
  sync_loaded_order env found

unfoldable pub refund_entry : Env → PaymentRefund → PaymentOrder → Merchant → MerchantLedgerEntry
refund_entry env r order merchant = record {
  merchant_id = r.merchant_id;
  payment_order_id = some r.payment_order_id;
  payment_refund_id = some r.id;
  settlement_id = none;
  type = refund;
  direction = debit;
  amount = pos r.amount;
  currency = r.currency;
  description = String.◌++◌ "退款支出 " r.external_refund_id;
  external_key = refund_key r.id;
  metadata = obj (
      field "merchantCode" (str merchant.code) (
        field "externalOrderId" (str order.external_order_id) (
          field "externalRefundId" (str r.external_refund_id) (
            field "channelCode" (str order.channel_code) (
              field "providerRefundId" (nullable r.provider_refund_id)
                (field "netAmountImpact" (str (env.decimal r.net_amount_impact)) end))))));
  occurred_at = get_or r.refunded_at r.updated_at;
}

unfoldable pub refund_update :
    Env → PaymentRefund → PaymentOrder → Merchant → MerchantLedgerEntry → MerchantLedgerEntry
unfolding refund_entry
refund_update env r order merchant e = record (refund_entry env r order merchant) {
  settlement_id = e.settlement_id;
  external_key = e.external_key;
}

unfoldable pub post_refund :
    Env
    → PaymentRefund
    → PaymentOrder
    → Merchant
    → List MerchantLedgerEntry
    → List MerchantLedgerEntry
post_refund env r order merchant =
    upsert (refund_key r.id) (refund_update env r order merchant)
      (refund_entry env r order merchant)

abbrev pub join_refund :
    PaymentRefund
    → Option PaymentOrder
    → Option Merchant
    → Option (PaymentRefund × PaymentOrder × Merchant)
join_refund r none m = none
join_refund r (some o) none = none
join_refund r (some o) (some m) = some (r, o, m)

-- `findUnique` with the order and the merchant, which the foreign keys provide.
abbrev pub load_refund :
    World → Option PaymentRefund → Option (PaymentRefund × PaymentOrder × Merchant)
load_refund w none = none
load_refund w (some r) =
    join_refund r (find_order r.payment_order_id w) (find_merchant r.merchant_id w)

unfoldable pub sync_loaded_refund :
    Env → Option (PaymentRefund × PaymentOrder × Merchant) → Action (Unit {0})
sync_loaded_refund env none = pure tt
sync_loaded_refund env (some (r, order, merchant)) =
    if is_refunded r
    then modify (λ w. record w { ledger = post_refund env r order merchant w.ledger })
    else pure tt

unfoldable pub sync_payment_refund_ledger_entries : Env → String → Action (Unit {0})
unfolding sync_loaded_refund
sync_payment_refund_ledger_entries env refund_id = do
  found ← gets (λ w. load_refund w (find_refund refund_id w))
  sync_loaded_refund env found

sync_orders : Env → List PaymentOrder → Action (Unit {0})
sync_orders env [] = pure tt
sync_orders env (o ∷ os) = sync_payment_order_ledger_entries env o.id >> sync_orders env os

sync_refunds : Env → List PaymentRefund → Action (Unit {0})
sync_refunds env [] = pure tt
sync_refunds env (r ∷ rs) = sync_payment_refund_ledger_entries env r.id >> sync_refunds env rs

pub record BackfillReport : Type 0 where
  pub payment_orders : ℕ
  pub payment_refunds : ℕ

unfoldable pub backfill_merchant_ledger_entries : Env → Action BackfillReport
unfolding sync_orders sync_refunds
backfill_merchant_ledger_entries env = do
  orders ← gets (λ w. keep (λ o. o.status is succeeded) w.orders)
  refunds ← gets (λ w. keep (λ r. is_refunded r) w.refunds)
  sync_orders env orders
  sync_refunds env refunds
  pure (record { payment_orders = length orders; payment_refunds = length refunds })
