-- ===== src/Callbacks/Dispatch/Recorded.antt =====
-- What a dispatch records, and what its last part, from the plan of the request on, leaves.
use nova_pay.Base.{
  ℕ, suc, ap, ◌+◌, ◌≡◌, refl, String, Bool, false, some, [], ◌∷◌, ◌++◌, if◌then◌else◌, inl, inr,
  List,
}
use nova_pay.Orders.Status.{PaymentStatus, delivered, undelivered}
use nova_pay.Store.Schema.{PaymentOrder, Merchant, PaymentCallbackAttempt, MerchantLedgerEntry}
use nova_pay.Store.World.{Env, World, Error, thrown, threw}
use nova_pay.Store.Ends.{Ends}
use nova_pay.Store.Monad.{Result, ok, err, continue, pure, find_order, update_order}
use nova_pay.Store.Frame.{update_order_lem, find_order-update}
use nova_pay.EasyPay.Notify.{CallbackRequestPlan}
use nova_pay.Callbacks.Plan.{planned_cases, build_plan}
use nova_pay.Callbacks.Config.{CallbackRuntimeConfig}
use nova_pay.Callbacks.Dispatch.{
  DispatchResult, skipped, sent, SkipReason, easypay_callback_not_applicable, deliver, delivery_of,
  attempted_row, Delivery, save_attempt, not_required_row, plan_and_deliver,
}

-- What a dispatch keeps of an order: its status and its money.
abbrev pub Terms : Type 0
Terms = PaymentStatus × ℕ × ℕ × String

abbrev pub terms : PaymentOrder → Terms
terms o = (o.status, o.amount, o.fee_amount, o.merchant_id)

abbrev pub facts : PaymentOrder → ℕ × Terms
facts o = (o.callback_attempts_count, terms o)

-- The other tables: the attempts, the merchants and the ledger.
abbrev pub Rest : Type 0
Rest = List PaymentCallbackAttempt × List Merchant × List MerchantLedgerEntry

abbrev pub rest : World → Rest
rest w = (w.attempts, w.merchants, w.ledger)

-- What the world `w'` after a dispatch of the order `o` says of it, given the other tables before.
abbrev pub Recorded : PaymentOrder → Rest → DispatchResult → World → Type 0
Recorded o before (skipped d reason) w' =
    (o' : PaymentOrder) × (find_order o.id w' ≡ some o')
    × (o'.callback_attempts_count ≡ o.callback_attempts_count)
    × (terms o' ≡ terms o)
    × (rest w' ≡ before)
Recorded o before (sent d status message) w' =
    (o' : PaymentOrder) × (a : PaymentCallbackAttempt) × (find_order o.id w' ≡ some o')
    × (rest w' ≡ (before.0 ++ a ∷ [], before.1, before.2))
    × (a.payment_order_id ≡ o.id)
    × (a.http_status ≡ status)
    × (a.error_message ≡ message)
    × (o'.callback_attempts_count ≡ o.callback_attempts_count + 1)
    × (terms o' ≡ terms o)
    × (o'.callback_status ≡ (if d then delivered else undelivered))

-- The error `e` that left the dispatch of `o`, and the world `w'` that it left. No request could be
-- made for the order, no attempt is recorded, and the counter and the order's money stay.
abbrev pub Stopped : Env → PaymentOrder → Merchant → Rest → Error → World → Type 0
Stopped env o m before e w' =
    (o' : PaymentOrder) × (text : String) × (target : String) × (now : ℕ) × (find_order o.id w'
      ≡ some o')
    × (rest w' ≡ before)
    × (o'.callback_attempts_count ≡ o.callback_attempts_count)
    × (terms o' ≡ terms o)
    × (e ≡ thrown text)
    × (build_plan env o m target (env.iso now) w' ≡ threw text)

abbrev pub Dispatched :
    Env → PaymentOrder → Merchant → Rest → Result DispatchResult × World → Type 0
Dispatched env o m before (ok r, w') = Recorded o before r w'
Dispatched env o m before (err e, w') = Stopped env o m before e w'

pub Ends-Dispatched :
    (env : Env) (o : PaymentOrder) (m : Merchant) (before : Rest)
    (p : Result DispatchResult × World)
    → Ends (Recorded o before) p
    → Dispatched env o m before p
Ends-Dispatched env o m before (ok r, w') h = h
Ends-Dispatched env o m before (err e, w') h = elim h [ ]

save_attempt-Recorded :
    (env : Env) (config : CallbackRuntimeConfig) (o cur : PaymentOrder) (plan : CallbackRequestPlan)
    (d : Delivery) (completed_at : ℕ) (w : World)
    → find_order o.id w ≡ some cur
    → facts cur ≡ facts o
    → Ends (Recorded o (rest w)) (save_attempt env config o plan d completed_at w)
unfolding save_attempt attempted_row
save_attempt-Recorded env config o cur plan d completed_at w e same =
    rw (update_order_lem env o.id (attempted_row config o d.delivered completed_at) w cur e, Ends)
      (
        _,
        _,
        find_order-update env o.id (attempted_row config o d.delivered completed_at) w cur
            (λ y. refl) e,
        refl,
        refl,
        refl,
        refl,
        ap (λ t. t.0 + 1) same,
        ap (λ t. t.1) same,
        refl,
      )

deliver-Recorded :
    (env : Env) (config : CallbackRuntimeConfig) (o cur : PaymentOrder) (plan : CallbackRequestPlan)
    (w : World)
    → find_order o.id w ≡ some cur
    → facts cur ≡ facts o
    → Ends (Recorded o (rest w)) (deliver env config o plan w)
unfolding deliver
deliver-Recorded env config o cur plan w e same =
    save_attempt-Recorded env config o cur plan
      (delivery_of plan (env.safe_fetch w.ticks plan.request)) (env.time (suc w.ticks))
      (record w { ticks = suc (suc w.ticks) }) e same

pub not_required-Recorded :
    (env : Env) (o cur : PaymentOrder) (d : Bool) (reason : SkipReason) (w : World)
    → find_order o.id w ≡ some cur
    → facts cur ≡ facts o
    → Ends
        (Recorded o (rest w))
        (continue (λ _. pure (skipped d reason)) (update_order env o.id not_required_row w))
not_required-Recorded env o cur d reason w e same =
    rw (update_order_lem env o.id not_required_row w cur e, Ends)
      (
        _,
        find_order-update env o.id not_required_row w cur (λ y. refl) e,
        ap (λ t. t.0) same,
        ap (λ t. t.1) same,
        refl,
      )

pub plan_and_deliver-Dispatched :
    (env : Env) (config : CallbackRuntimeConfig) (o cur : PaymentOrder) (m : Merchant)
    (target : String) (now : ℕ) (w : World)
    → find_order o.id w ≡ some cur
    → facts cur ≡ facts o
    → Dispatched env o m (rest w) (plan_and_deliver env config o m target now w)
unfolding plan_and_deliver
plan_and_deliver-Dispatched env config o cur m target now w e same =
    elim (planned_cases (build_plan env o m target (env.iso now) w)) [
      | inl (text, p) ↦
          rw p (cur, text, target, now, e, refl, ap (λ t. t.0) same, ap (λ t. t.1) same, refl, p)
      | inr (inl p) ↦ rw p (
          Ends-Dispatched env o m (rest w) _
            (not_required-Recorded env o cur false easypay_callback_not_applicable w e same))
      | inr (inr (plan, p)) ↦
          rw p
            (Ends-Dispatched env o m (rest w) _ (deliver-Recorded env config o cur plan w e same))
    ]
