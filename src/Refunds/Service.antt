-- ===== src/Refunds/Service.antt =====
-- lib/refunds/service.ts: asking for a refund, and asking the provider about one.
pub mod Laws
use nova_pay.Base.{
  ℕ, ◌*◌, String, Bool, true, false, not, ◌&&◌, ◌||◌, Option, none, some, or_else, get_or, str_eq,
  ltb, ◌==◌, if◌then◌else◌,
}
use nova_pay.Base.Int.{ℤ, pos, distance}
use nova_pay.Base.Rows.{find}
use nova_pay.Refunds.Status.{PaymentRefundStatus, pending, failed, ◌is◌}
use nova_pay.Orders.Status
use nova_pay.Store.Schema.{PaymentOrder, PaymentRefund, Merchant}
use nova_pay.Store.World.{
  Env, World, Error, Outcome, PaymentProvider, PaymentRefundNotification, app, refund_not_found,
  refund_reference_conflict, refund_amount_conflict, refund_reason_conflict, order_not_refundable,
  channel_refund_unsupported,
}
use nova_pay.Store.Monad.{
  Action, ◌>>=◌, ◌>>◌, pure, raise, gets, await, catch, find_order, update_refund,
}
use nova_pay.Orders.Provider.{
  require_merchant_runtime_account, find_merchant_by_code, get_merchant_payment_order_by_reference,
  sync_payment_order_from_provider,
}
use nova_pay.Refunds.Amount.{
  RefundInput, get_reserved_refund_amount, assert_refund_amount, to_cents, reserve_refund,
}
use nova_pay.Refunds.Notify.{apply_payment_refund_notification_by_id}

abbrev Query : Type 0
Query = ℕ → PaymentOrder → PaymentRefund → Outcome PaymentRefundNotification

abbrev Creator : Type 0
Creator = ℕ → PaymentOrder → PaymentRefund → String → Outcome PaymentRefundNotification

abbrev differs : Option String → Option String → Bool
differs none none = false
differs none (some b) = true
differs (some a) none = true
differs (some a) (some b) = not (str_eq a b)

-- `Math.abs(stored - Number(raw)) > 0.01`: no number is at no distance.
abbrev is_far : ℕ → Option ℤ → Bool
is_far cents none = false
is_far cents (some actual) = ltb 10000 (distance (pos (cents * 10000)) actual)

unfoldable pub assert_existing_refund_matches :
    Env → PaymentRefund → String → RefundInput → Option Error
assert_existing_refund_matches env r order_id input =
    if not (str_eq r.payment_order_id order_id)
    then some (app refund_reference_conflict 409)
    else if is_far r.amount (env.amount_of input.amount)
    then some (app refund_amount_conflict 409)
    else if differs r.reason input.reason
    then some (app refund_reason_conflict 409)
    else none

abbrev refund_query_of : Option PaymentProvider → Option Query
refund_query_of none = none
refund_query_of (some p) = p.query_refund

abbrev refund_creator_of : Option PaymentProvider → Option Creator
refund_creator_of none = none
refund_creator_of (some p) = p.create_refund

sync_refund_by : Env → PaymentRefund → PaymentOrder → Option Query → Action PaymentRefund
sync_refund_by env r order none = pure r
sync_refund_by env r order (some query) = do
  account ←
      require_merchant_runtime_account
        (or_else r.merchant_channel_account_id order.merchant_channel_account_id)
  n ← await (λ tick. query tick order r)
  found ← apply_payment_refund_notification_by_id env r.id n
  pure (get_or found r)

-- `refund.paymentOrder`, which the foreign key provides.
sync_joined : Env → PaymentRefund → Option PaymentOrder → Action PaymentRefund
unfolding sync_refund_by
sync_joined env r none = pure r
sync_joined env r (some order) =
    sync_refund_by env r order (refund_query_of (env.provider order.channel_code))

unfoldable pub sync_payment_refund_from_provider : Env → PaymentRefund → Action PaymentRefund
unfolding sync_joined
sync_payment_refund_from_provider env r = do
  order ← gets (find_order r.payment_order_id)
  sync_joined env r order

or_refund_missing : Option PaymentRefund → Action PaymentRefund
or_refund_missing none = raise (app refund_not_found 404)
or_refund_missing (some r) = pure r

abbrev is_refund_reference : Merchant → String → PaymentRefund → Bool
is_refund_reference m reference r =
    str_eq r.merchant_id m.id && (str_eq r.id reference || str_eq r.external_refund_id reference)

-- `sync` is false only where the caller says `syncWithProvider: false`.
unfoldable pub get_merchant_payment_refund : Env → String → String → Bool → Action PaymentRefund
unfolding or_refund_missing
get_merchant_payment_refund env merchant_code reference sync = do
  m ← find_merchant_by_code merchant_code
  found ← gets (λ w. find (is_refund_reference m reference) w.refunds)
  r ← or_refund_missing found
  if sync then sync_payment_refund_from_provider env r else pure r

pub record RefundCreation : Type 0 where
  pub created : Bool
  pub refund : PaymentRefund
  pub order : PaymentOrder

returned : Bool → PaymentOrder → Option PaymentRefund → Action RefundCreation
returned created order none = raise (app refund_not_found 404)
returned created order (some r) = pure (record { created = created; refund = r; order = order })

-- The row of a refund that the provider did not take.
unfoldable pub refused_refund : Env → Error → PaymentRefund → PaymentRefund
refused_refund env e r = record r {
  status = failed;
  provider_status = some "REFUND_CREATE_FAILED";
  failure_code = some "REFUND_CREATE_FAILED";
  failure_message = some (env.message e);
}

-- The last `try` and its `catch`.
unfoldable pub send_refund :
    Env → Creator → Bool → PaymentOrder → RefundInput → PaymentRefund → Action RefundCreation
unfolding returned
send_refund env create created order input r =
    catch
      (await (λ tick. create tick order r input.amount) >>= λ n.
        apply_payment_refund_notification_by_id env r.id n >>= λ found.
        returned created order found)
      (λ e. update_refund env r.id (refused_refund env e) >> raise e)

-- The row of a failed refund that is asked for again.
unfoldable pub retried_refund : Env → PaymentOrder → RefundInput → PaymentRefund → PaymentRefund
retried_refund env order input r =
    let cents = to_cents (env.amount_of input.amount) in
    record r {
      amount = cents;
      fee_amount = 0;
      net_amount_impact = cents;
      currency = order.currency;
      status = pending;
      provider_status = none;
      provider_refund_id = none;
      reason = input.reason;
      metadata = input.metadata;
      failure_code = none;
      failure_message = none;
      refunded_at = none;
      api_credential_id = or_else input.api_credential_id r.api_credential_id;
      merchant_channel_account_id = order.merchant_channel_account_id;
    }

retry_checked :
    Env → PaymentOrder → RefundInput → PaymentRefund → Option Error → Action PaymentRefund
retry_checked env order input r (some e) = raise e
retry_checked env order input r none = update_refund env r.id (retried_refund env order input)

-- Without the lock.
unfoldable pub reserve_again :
    Env → PaymentOrder → RefundInput → PaymentRefund → Action PaymentRefund
unfolding retry_checked
reserve_again env order input r = do
  reserved ← gets (λ w. get_reserved_refund_amount order.id (some r.id) w.refunds)
  retry_checked env order input r (assert_refund_amount env input.amount order.amount reserved)

reserve : Env → PaymentOrder → RefundInput → Option PaymentRefund → Action PaymentRefund
reserve env order input none = reserve_refund env order input
reserve env order input (some r) = reserve_again env order input r

abbrev is_new : Option PaymentRefund → Bool
is_new none = true
is_new (some r) = false

create_by :
    Env → PaymentOrder → RefundInput → Option PaymentRefund → Option Creator → Action RefundCreation
unfolding reserve
create_by env order input existing none = raise (app channel_refund_unsupported 422)
create_by env order input existing (some create) = do
  account ← require_merchant_runtime_account order.merchant_channel_account_id
  r ← reserve env order input existing
  send_refund env create (is_new existing) order input r

create_refund_at : Env → PaymentOrder → RefundInput → Option PaymentRefund → Action RefundCreation
unfolding create_by
create_refund_at env order input existing =
    create_by env order input existing (refund_creator_of (env.provider order.channel_code))

create_again :
    Env → PaymentOrder → RefundInput → PaymentRefund → Option Error → Action RefundCreation
unfolding create_refund_at
create_again env order input r (some e) = raise e
create_again env order input r none = do
  current ← sync_payment_refund_from_provider env r
  if current.status is failed
      then create_refund_at env order input (some current)
      else pure (record { created = false; refund = current; order = order })

create_known : Env → PaymentOrder → RefundInput → Option PaymentRefund → Action RefundCreation
unfolding create_again
create_known env order input none = create_refund_at env order input none
create_known env order input (some r) =
    create_again env order input r (assert_existing_refund_matches env r order.id input)

abbrev is_paid : PaymentOrder → Bool
is_paid o = Status.rank o.status == Status.rank Status.succeeded

create_refundable : Env → PaymentOrder → RefundInput → Action RefundCreation
unfolding create_known
create_refundable env order input =
    if is_paid order
    then (gets (λ w.
          find
            (λ r.
              str_eq r.merchant_id order.merchant_id
              && str_eq r.external_refund_id input.external_refund_id)
            w.refunds)
        >>= create_known env order input)
    else raise (app order_not_refundable 409)

unfoldable pub create_merchant_payment_refund :
    Env → String → String → RefundInput → Action RefundCreation
unfolding create_refundable
create_merchant_payment_refund env merchant_code reference input = do
  order ← get_merchant_payment_order_by_reference merchant_code reference
  current ← if is_paid order then pure order else sync_payment_order_from_provider env order
  create_refundable env current input
