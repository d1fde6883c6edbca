-- ===== src/Callbacks/Dispatch/Laws.antt =====
-- dispatchMerchantCallback of lib/callbacks/service.ts from its start to its end, on every way through it.
use nova_pay.Base.{
  ℕ, suc, ap, subst, ◌+◌, ◌≡◌, refl, String, Bool, true, false, not, ◌&&◌, Option, none, some,
  arith,
}
use nova_pay.Orders.Status.{delivered}
use nova_pay.Store.Schema.{◌at◌, PaymentOrder, Merchant}
use nova_pay.Store.World.{Env, World}
use nova_pay.Store.Ends.{either_if}
use nova_pay.Store.Monad.{Result, ok, pure, find_merchant, find_order, is_order}
use nova_pay.Store.Frame.{find_order_self}
use nova_pay.Base.Rows.{find-update_if}
use nova_pay.Callbacks.Plan.{resolve_callback_target}
use nova_pay.Callbacks.Claim.{
  ClaimInput, claim_where, claimed_row, claim_merchant_callback_dispatch,
}
use nova_pay.Callbacks.Config.{CallbackRuntimeConfig, get_callback_runtime_config}
use nova_pay.Callbacks.Dispatch.{
  DispatchResult, skipped, plan_and_deliver, claim_and_deliver, attempt_at, attempt_callback,
  dispatch_to, is_exhausted, is_processing_until, is_not_retryable, is_not_terminal,
  dispatch_if_terminal, claim_if_free, claim_if_retryable, callback_target_missing,
  callback_already_delivered, order_not_terminal, max_attempts_reached, callback_already_processing,
  callback_not_retryable, dispatch_merchant_callback, present, load_with_merchant,
}
use nova_pay.Callbacks.Dispatch.Recorded.{
  facts, rest, Dispatched, Ends-Dispatched, not_required-Recorded, plan_and_deliver-Dispatched,
}

claim_lem :
    (env : Env) (input : ClaimInput) (cur : PaymentOrder) (w : World)
    → find_order input.order_id w ≡ some cur
    → (claimed : Bool) × (w' : World) × (cur' : PaymentOrder) × (claim_merchant_callback_dispatch
          env input w
        ≡ (ok claimed, w'))
      × (rest w' ≡ rest w)
      × (find_order input.order_id w' ≡ some cur')
      × (facts cur' ≡ facts cur)
unfolding claim_merchant_callback_dispatch
claim_lem env input cur w e = (
  _,
  _,
  _,
  refl,
  refl,
  find-update_if (is_order input.order_id) (claim_where input)
      (claimed_row input.lease_expires_at (env.time w.ticks)) w.orders cur (λ y. refl) e,
  ground arith,
)

claim_and_deliver-Dispatched :
    (env : Env) (config : CallbackRuntimeConfig) (o : PaymentOrder) (m : Merchant) (target : String)
    (now : ℕ) (force : Bool) (w : World)
    → find_order o.id w ≡ some o
    → Dispatched env o m (rest w) (claim_and_deliver env config o m target now force w)
unfolding claim_and_deliver
claim_and_deliver-Dispatched env config o m target now force w e = go (claim_lem env _ o w e)
  where
    input : ClaimInput
    input = record {
      order_id = o.id;
      force = force;
      now = now;
      max_attempts = config.max_attempts;
      lease_expires_at = now + config.processing_lease_ms;
    }

    go :
        (claimed : Bool) × (w' : World) × (cur' : PaymentOrder) × (claim_merchant_callback_dispatch
              env input w
            ≡ (ok claimed, w'))
          × (rest w' ≡ rest w)
          × (find_order o.id w' ≡ some cur')
          × (facts cur' ≡ facts o)
        → Dispatched env o m (rest w) (claim_and_deliver env config o m target now force w)
    go (true, w', cur', p, a, f, c) = rw p (
        subst (λ before. Dispatched env o m before (plan_and_deliver env config o m target now w'))
          a (plan_and_deliver-Dispatched env config o cur' m target now w' f c))
    go (false, w', cur', p, a, f, c) = rw p (cur', f, ap (λ t. t.0) c, ap (λ t. t.1) c, a)

attempt_at-Dispatched :
    (env : Env) (config : CallbackRuntimeConfig) (o : PaymentOrder) (m : Merchant) (target : String)
    (force : Bool) (now : ℕ) (w : World)
    → find_order o.id w ≡ some o
    → Dispatched env o m (rest w) (attempt_at env config o m target force now w)
unfolding attempt_at
attempt_at-Dispatched env config o m target force now w e =
    either_if P (is_exhausted config force o) (pure (skipped false max_attempts_reached))
      (claim_if_free env config o m target force now) w (o, e, refl, refl, refl)
      (either_if P (is_processing_until now o) (pure (skipped false callback_already_processing))
        (claim_if_retryable env config o m target force now) w (o, e, refl, refl, refl)
        (either_if P (is_not_retryable force o) (pure (skipped false callback_not_retryable))
          (claim_and_deliver env config o m target now force) w (o, e, refl, refl, refl)
          (claim_and_deliver-Dispatched env config o m target now force w e)))
  where
    P : Result DispatchResult × World → Type 0
    P = Dispatched env o m (rest w)

attempt_callback-Dispatched :
    (env : Env) (o : PaymentOrder) (m : Merchant) (target : String) (force : Bool) (w : World)
    → find_order o.id w ≡ some o
    → Dispatched env o m (rest w) (attempt_callback env o m target force w)
unfolding attempt_callback
attempt_callback-Dispatched env o m target force w e =
    attempt_at-Dispatched env (get_callback_runtime_config env) o m target force (env.time w.ticks)
      (record w { ticks = suc w.ticks }) e

dispatch_to-Dispatched :
    (env : Env) (o : PaymentOrder) (m : Merchant) (force : Bool) (target : Option String)
    (w : World)
    → find_order o.id w ≡ some o
    → Dispatched env o m (rest w) (dispatch_to env o m force target w)
unfolding dispatch_to
dispatch_to-Dispatched env o m force none w e =
    Ends-Dispatched env o m (rest w) _
      (not_required-Recorded env o o false callback_target_missing w e refl)
dispatch_to-Dispatched env o m force (some target) w e =
    either_if P (not force && o.callback_status at delivered)
      (pure (skipped true callback_already_delivered)) (dispatch_if_terminal env o m force target) w
      (o, e, refl, refl, refl)
      (either_if P (is_not_terminal o) (pure (skipped false order_not_terminal))
        (attempt_callback env o m target force) w (o, e, refl, refl, refl)
        (attempt_callback-Dispatched env o m target force w e))
  where
    P : Result DispatchResult × World → Type 0
    P = Dispatched env o m (rest w)

pub load_lem :
    (id : String) (w : World) (o : PaymentOrder) (m : Merchant)
    → find_order id w ≡ some o
    → find_merchant o.merchant_id w ≡ some m
    → load_with_merchant id w ≡ some (o, m)
load_lem id w o m e f = rw (e, f)

-- A dispatch of an order that is there, with its merchant, returns, or it throws the error for which
-- no request could be made: a secret that does not decrypt, or a URL that is none. If it returns that
-- it sent a request, then exactly one attempt was added, for this order and with the reported HTTP
-- status and error, the order's counter went up by one, and its callback status says whether the
-- merchant took it. If it returns that it skipped, or if it throws, no attempt was added and the
-- counter stayed. In each case the order's status and money, the merchants and the ledger are as they
-- were.
pub dispatch-Dispatched :
    (env : Env) (id : String) (force : Bool) (w : World) (o : PaymentOrder) (m : Merchant)
    → find_order id w ≡ some o
    → find_merchant o.merchant_id w ≡ some m
    → Dispatched env o m (rest w) (dispatch_merchant_callback env id force w)
unfolding dispatch_merchant_callback
dispatch-Dispatched env id force w o m e f = rw (load_lem id w o m e f) (
    dispatch_to-Dispatched env o m force (present (resolve_callback_target o m)) w
      (find_order_self id w o e))
