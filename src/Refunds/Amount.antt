-- ===== src/Refunds/Amount.antt =====
-- lib/refunds/service.ts: how much of an order is reserved by its refunds, the cap on a new one, and
-- the transaction that reserves it.
pub mod Cap
use nova_pay.Base.{
  ℕ, ◌+◌, ◌*◌, ◌/◌, String, Bool, true, false, not, ◌&&◌, ◌||◌, Option, none, some, List, [], ◌∷◌,
  ◌++◌, str_eq, ltb, ◌==◌, if◌then◌else◌,
}
use nova_pay.Base.Int.{ℤ, pos, negsuc}
use nova_pay.Base.Json.{Json}
use nova_pay.Refunds.Status.{PaymentRefundStatus, pending, processing, succeeded, ◌is◌}
use nova_pay.Store.Schema.{PaymentOrder, PaymentRefund}
use nova_pay.Store.World.{Env, World, Error, app, invalid_refund_amount, refund_amount_exceeded}
use nova_pay.Store.Monad.{
  Action, ◌>>=◌, ◌>>◌, pure, raise, gets, ask, read_clock, modify, set_refunds,
}

-- The refunds that count against the order; `excluded` is left out.
unfoldable pub is_reserving : String → Option String → PaymentRefund → Bool
is_reserving order_id excluded r =
    str_eq r.payment_order_id order_id
    && ((r.status is pending || (r.status is processing || r.status is succeeded))
        && elim excluded [ none ↦ true | some id ↦ not (str_eq r.id id) ])

unfoldable pub get_reserved_refund_amount : String → Option String → List PaymentRefund → ℕ
get_reserved_refund_amount order_id excluded [] = 0
get_reserved_refund_amount order_id excluded (r ∷ rs) =
    let rest = get_reserved_refund_amount order_id excluded rs in
    if is_reserving order_id excluded r then r.amount + rest else rest

-- The request is in millionths, the order's amount and the reserved sum in cents. The available
-- balance is their difference, which may be negative, and the request may exceed it by a cent.
unfoldable pub check_requested : ℕ → ℕ → Option ℤ → Option Error
check_requested amount reserved none = some (app invalid_refund_amount 400)
check_requested amount reserved (some (negsuc n)) = some (app invalid_refund_amount 400)
check_requested amount reserved (some (pos requested)) =
    if requested == 0
    then some (app invalid_refund_amount 400)
    else if ltb (10000 * amount + 10000) (requested + 10000 * reserved)
    then some (app refund_amount_exceeded 422)
    else none

unfoldable pub assert_refund_amount : Env → String → ℕ → ℕ → Option Error
unfolding check_requested
assert_refund_amount env raw amount reserved = check_requested amount reserved (env.amount_of raw)

-- The column Decimal(18, 2) rounds what is written to it to the cent, halves away from zero.
unfoldable pub to_cents : Option ℤ → ℕ
to_cents none = 0
to_cents (some (negsuc n)) = 0
to_cents (some (pos n)) = (n + 5000) / 10000

-- CreateMerchantPaymentRefundInput, less the references that have been looked up.
pub record RefundInput : Type 0 where
  pub external_refund_id : String
  pub api_credential_id : Option String
  pub amount : String
  pub reason : Option String
  pub metadata : Json

unfoldable pub new_refund : Env → String → ℕ → PaymentOrder → RefundInput → PaymentRefund
new_refund env id now order input =
    let cents = to_cents (env.amount_of input.amount) in
    record {
      id = id;
      merchant_id = order.merchant_id;
      payment_order_id = order.id;
      merchant_channel_account_id = order.merchant_channel_account_id;
      api_credential_id = input.api_credential_id;
      external_refund_id = input.external_refund_id;
      amount = cents;
      fee_amount = 0;
      net_amount_impact = cents;
      currency = order.currency;
      status = pending;
      provider_refund_id = none;
      provider_status = none;
      reason = input.reason;
      metadata = input.metadata;
      failure_code = none;
      failure_message = none;
      refunded_at = none;
      updated_at = now;
    }

unfoldable pub insert_refund :
    Env → PaymentOrder → RefundInput → Option Error → Action PaymentRefund
insert_refund env order input (some e) = raise e
insert_refund env order input none = do
  id ← ask env.fresh
  now ← read_clock env
  modify λ w. set_refunds (w.refunds ++ new_refund env id now order input ∷ []) w
  pure (new_refund env id now order input)

-- The transaction. It holds the lock on the order's row, so no other one runs in between.
unfoldable pub reserve_refund : Env → PaymentOrder → RefundInput → Action PaymentRefund
unfolding insert_refund
reserve_refund env order input = do
  reserved ← gets (λ w. get_reserved_refund_amount order.id none w.refunds)
  insert_refund env order input (assert_refund_amount env input.amount order.amount reserved)
