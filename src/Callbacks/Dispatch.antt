-- ===== src/Callbacks/Dispatch.antt =====
-- lib/callbacks/service.ts: dispatchMerchantCallback, one attempt to tell a merchant.
pub mod Recorded
pub mod Laws
use nova_pay.Base.{
  ℕ, ◌+◌, ◌*◌, String, Bool, true, false, not, ◌&&◌, ◌||◌, Option, none, some, List, [], ◌∷◌, ◌++◌,
  str_eq, ltb, leb, if◌then◌else◌,
}
use nova_pay.Orders.Status.{
  PaymentStatus, is_terminal_payment_status, not_required, waiting, in_flight, delivered,
  undelivered, succeeded, failed, cancelled, ◌is◌,
}
use nova_pay.Store.Schema.{
  Merchant, PaymentOrder, PaymentCallbackAttempt, attempt_succeeded, attempt_failed, ◌at◌,
}
use nova_pay.Store.World.{
  Env, World, app, order_not_found, thrown, Outcome, answered, threw, Response,
}
use nova_pay.Store.Monad.{
  Action, ok, ◌>>=◌, ◌>>◌, pure, raise, gets, ask, modify, read_clock, find_order, find_merchant,
  update_order,
}
use nova_pay.EasyPay.Notify.{CallbackRequestPlan}
use nova_pay.Callbacks.Config.{CallbackRuntimeConfig, get_callback_runtime_config}
use nova_pay.Callbacks.Claim.{claim_merchant_callback_dispatch}
use nova_pay.Callbacks.Plan.{resolve_callback_target, build_plan}

pub data SkipReason : Type 0 where
  callback_target_missing callback_already_delivered order_not_terminal : SkipReason
  max_attempts_reached callback_already_processing callback_not_retryable : SkipReason
  callback_not_claimed easypay_callback_not_applicable : SkipReason

-- `skipped` keeps `delivered` and `reason`; `sent` keeps `delivered`, `httpStatus` and
-- `errorMessage`.
pub data DispatchResult : Type 0 where
  skipped : Bool → SkipReason → DispatchResult
  sent : Bool → Option ℕ → Option String → DispatchResult

-- What came of the request.
pub record Delivery : Type 0 where
  pub delivered : Bool
  pub http_status : Option ℕ
  pub error_message : Option String

unfoldable pub delivery_of : CallbackRequestPlan → Outcome Response → Delivery
delivery_of plan (answered r) = record {
  delivered = plan.is_delivered r;
  http_status = some r.status;
  error_message = none;
}
delivery_of plan (threw text) = record {
  delivered = false;
  http_status = none;
  error_message = some text;
}

-- The row after an attempt. `seen` is the order as it was read at the start of the dispatch.
unfoldable pub attempted_row :
    CallbackRuntimeConfig → PaymentOrder → Bool → ℕ → PaymentOrder → PaymentOrder
attempted_row config seen is_delivered completed_at o = record o {
  callback_status = if is_delivered then delivered else undelivered;
  callback_attempts_count = o.callback_attempts_count + 1;
  last_callback_at = some completed_at;
  callback_delivered_at = if is_delivered then some completed_at else none;
  next_callback_at =
      if is_delivered
      then none
      else if leb config.max_attempts (seen.callback_attempts_count + 1)
      then none
      else some (completed_at + config.retry_interval_seconds * 1000);
}

attempt_record : Env → PaymentOrder → CallbackRequestPlan → Delivery → ℕ → PaymentCallbackAttempt
attempt_record env order plan d completed_at = record {
  payment_order_id = order.id;
  target_url = env.redact_callback_url plan.request.url;
  status = if d.delivered then attempt_succeeded else attempt_failed;
  http_status = d.http_status;
  error_message = d.error_message;
  completed_at = completed_at;
}

-- The transaction after the request. Its two writes are of different tables: the one that can fail
-- is made first, so that a failure writes neither.
unfoldable pub save_attempt :
    Env
    → CallbackRuntimeConfig
    → PaymentOrder
    → CallbackRequestPlan
    → Delivery
    → ℕ
    → Action DispatchResult
unfolding attempt_record
save_attempt env config order plan d completed_at = do
  update_order env order.id (attempted_row config order d.delivered completed_at)
  modify
      λ w. record w { attempts = w.attempts ++ attempt_record env order plan d completed_at ∷ [] }
  pure (sent d.delivered d.http_status d.error_message)

unfoldable pub deliver :
    Env → CallbackRuntimeConfig → PaymentOrder → CallbackRequestPlan → Action DispatchResult
deliver env config order plan = do
  outcome ← ask (λ tick. env.safe_fetch tick plan.request)
  completed_at ← read_clock env
  save_attempt env config order plan (delivery_of plan outcome) completed_at

-- `callbackStatus: NOT_REQUIRED, nextCallbackAt: null`
abbrev pub not_required_row : PaymentOrder → PaymentOrder
not_required_row o = record o { callback_status = not_required; next_callback_at = none }

abbrev pub is_processing_until : ℕ → PaymentOrder → Bool
is_processing_until now o =
    o.callback_status at in_flight && elim o.next_callback_at [ none ↦ false | some t ↦ ltb now t ]

-- Where no plan can be made, the error leaves the function after the claim and before the `try`.
deliver_plan :
    Env
    → CallbackRuntimeConfig
    → PaymentOrder
    → Outcome (Option CallbackRequestPlan)
    → Action DispatchResult
deliver_plan env config order (threw text) = raise (thrown text)
deliver_plan env config order (answered none) =
    update_order env order.id not_required_row
    >> pure (skipped false easypay_callback_not_applicable)
deliver_plan env config order (answered (some plan)) = deliver env config order plan

-- From the plan of the request on.
unfoldable pub plan_and_deliver :
    Env → CallbackRuntimeConfig → PaymentOrder → Merchant → String → ℕ → Action DispatchResult
unfolding deliver_plan
plan_and_deliver env config order merchant target_url now = do
  plan ← gets (build_plan env order merchant target_url (env.iso now))
  deliver_plan env config order plan

-- From the claim on.
unfoldable pub claim_and_deliver :
    Env
    → CallbackRuntimeConfig
    → PaymentOrder
    → Merchant
    → String
    → ℕ
    → Bool
    → Action DispatchResult
claim_and_deliver env config order merchant target_url now force = do
  claimed ← claim_merchant_callback_dispatch env (record {
    order_id = order.id;
    force = force;
    now = now;
    max_attempts = config.max_attempts;
    lease_expires_at = now + config.processing_lease_ms;
  })
  if not claimed
      then pure (skipped false callback_not_claimed)
      else plan_and_deliver env config order merchant target_url now

abbrev pub is_exhausted : CallbackRuntimeConfig → Bool → PaymentOrder → Bool
is_exhausted config force order = not force && leb config.max_attempts order.callback_attempts_count

abbrev pub is_not_retryable : Bool → PaymentOrder → Bool
is_not_retryable force order =
    not force
    && (not (order.callback_status at waiting)
        && (not (order.callback_status at undelivered) && not (order.callback_status at in_flight)))

-- The guards before the claim at the time `now`, from the last to the first.
pub claim_if_retryable :
    Env
    → CallbackRuntimeConfig
    → PaymentOrder
    → Merchant
    → String
    → Bool
    → ℕ
    → Action DispatchResult
claim_if_retryable env config order merchant target_url force now =
    if is_not_retryable force order
    then pure (skipped false callback_not_retryable)
    else claim_and_deliver env config order merchant target_url now force

pub claim_if_free :
    Env
    → CallbackRuntimeConfig
    → PaymentOrder
    → Merchant
    → String
    → Bool
    → ℕ
    → Action DispatchResult
claim_if_free env config order merchant target_url force now =
    if is_processing_until now order
    then pure (skipped false callback_already_processing)
    else claim_if_retryable env config order merchant target_url force now

unfoldable pub attempt_at :
    Env
    → CallbackRuntimeConfig
    → PaymentOrder
    → Merchant
    → String
    → Bool
    → ℕ
    → Action DispatchResult
unfolding claim_if_retryable claim_if_free
attempt_at env config order merchant target_url force now =
    if is_exhausted config force order
    then pure (skipped false max_attempts_reached)
    else claim_if_free env config order merchant target_url force now

-- From the first reading of the clock on.
unfoldable pub attempt_callback :
    Env → PaymentOrder → Merchant → String → Bool → Action DispatchResult
attempt_callback env order merchant target_url force = do
  now ← read_clock env
  attempt_at env (get_callback_runtime_config env) order merchant target_url force now

-- `!targetUrl`, which an empty text is too
abbrev pub present : Option String → Option String
present none = none
present (some s) = if str_eq s "" then none else some s

abbrev pub is_not_terminal : PaymentOrder → Bool
is_not_terminal order =
    not (order.status is succeeded)
    && (not (order.status is failed) && not (order.status is cancelled))

pub dispatch_if_terminal : Env → PaymentOrder → Merchant → Bool → String → Action DispatchResult
dispatch_if_terminal env order merchant force target_url =
    if is_not_terminal order
    then pure (skipped false order_not_terminal)
    else attempt_callback env order merchant target_url force

unfoldable pub dispatch_to :
    Env → PaymentOrder → Merchant → Bool → Option String → Action DispatchResult
unfolding dispatch_if_terminal
dispatch_to env order merchant force none =
    update_order env order.id not_required_row >> pure (skipped false callback_target_missing)
dispatch_to env order merchant force (some target_url) =
    if not force && order.callback_status at delivered
    then pure (skipped true callback_already_delivered)
    else dispatch_if_terminal env order merchant force target_url

unfoldable pub dispatch_found :
    Env → Bool → Option (PaymentOrder × Merchant) → Action DispatchResult
unfolding dispatch_to
dispatch_found env force none = raise (app order_not_found 404)
dispatch_found env force (some (order, merchant)) =
    dispatch_to env order merchant force (present (resolve_callback_target order merchant))

abbrev pub pair_with : PaymentOrder → Option Merchant → Option (PaymentOrder × Merchant)
pair_with o none = none
pair_with o (some m) = some (o, m)

abbrev pub join_merchant : World → Option PaymentOrder → Option (PaymentOrder × Merchant)
join_merchant w none = none
join_merchant w (some o) = pair_with o (find_merchant o.merchant_id w)

-- `findUnique` with the merchant, which the foreign key provides.
abbrev pub load_with_merchant : String → World → Option (PaymentOrder × Merchant)
load_with_merchant id w = join_merchant w (find_order id w)

unfoldable pub dispatch_merchant_callback : Env → String → Bool → Action DispatchResult
unfolding dispatch_found
dispatch_merchant_callback env order_id force = do
  found ← gets (load_with_merchant order_id)
  dispatch_found env force found
