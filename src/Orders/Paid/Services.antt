-- ===== src/Orders/Paid/Services.antt =====
-- Every service on orders keeps the paid orders paid.
use nova_pay.Base.{
  ℕ, suc, ◌≡◌, refl, sym, subst, ap, ◌∙◌, String, Bool, true, false, not, ◌&&◌, Option, none, some,
  get_or, Bool-cases, Option-cases, inl, inr, eq_iff,
}
use nova_pay.Orders.Status.{succeeded, ◌is◌, delivered}
use nova_pay.Orders.Status.Laws.{resolve-Move, Move-succeeded}
use nova_pay.Store.Schema.{PaymentOrder, Merchant, ◌at◌}
use nova_pay.Store.World.{Env, World, PaymentNotification, Error}
use nova_pay.Store.Monad.{◌>>◌, pure, find_order, find_merchant, is_order, update_order}
use nova_pay.Store.Frame.{find_order-id, find_order_self}
use nova_pay.EasyPay.Notify.{CallbackRequestPlan}
use nova_pay.Callbacks.Config.{CallbackRuntimeConfig, get_callback_runtime_config}
use nova_pay.Callbacks.Claim.{claim_merchant_callback_dispatch}
use nova_pay.Callbacks.Plan.{planned_cases, build_plan, resolve_callback_target}
use nova_pay.Callbacks.Dispatch.{
  DispatchResult, Delivery, delivery_of, attempted_row, not_required_row, save_attempt, deliver,
  plan_and_deliver, claim_and_deliver, attempt_at, attempt_callback, dispatch_merchant_callback,
  present, load_with_merchant, join_merchant, pair_with, is_exhausted, is_processing_until,
  is_not_retryable, claim_if_free, claim_if_retryable, dispatch_to, dispatch_if_terminal,
  is_not_terminal, dispatch_found, skipped, max_attempts_reached, callback_already_processing,
  callback_not_retryable, callback_target_missing, callback_already_delivered, order_not_terminal,
}
use nova_pay.Finance.Ledger.{sync_payment_order_ledger_entries, sync_loaded_order}
use nova_pay.Payments.ChannelCodes.{is_ctf_bill_capture_channel_code}
use nova_pay.Orders.Notify.Amount.{assert_payment_notification_amount_matches}
use nova_pay.Orders.Notify.{
  apply_payment_notification, sync_if_succeeded, dispatch_if_queued, write_notification,
  apply_to_amount, apply_to_found, is_ctf_evidence, expected_amount, notified_row, next_status,
  should_queue_callback,
}
use nova_pay.Orders.Paid.{
  IsPaid, Keeps, Keeps->>=_at, Keeps->>=, Keeps-if, update_order-Keeps, claim-Keeps,
}

load_self :
    (k : String) (w : World) (o : PaymentOrder) (m : Merchant)
    → load_with_merchant k w ≡ some (o, m)
    → find_order o.id w ≡ some o
load_self k w o m q = find_order_self k w o (joined (find_order k w) refl q)
  where
    paired :
        (y : PaymentOrder) (x : Option Merchant) → pair_with y x ≡ some (o, m) → some y ≡ some o
    paired y none h = cc
    paired y (some n) h = cc

    joined :
        (x : Option PaymentOrder)
        → find_order k w ≡ x
        → join_merchant w x ≡ some (o, m)
        → find_order k w ≡ some o
    joined none e h = cc
    joined (some y) e h = e ∙ paired y (find_merchant y.merchant_id w) h

module _ (id : String) (env : Env) where
  save_attempt-Keeps :
      (config : CallbackRuntimeConfig) (o : PaymentOrder) (plan : CallbackRequestPlan)
      (d : Delivery) (at_time : ℕ)
      → Keeps id (save_attempt env config o plan d at_time)
  unfolding save_attempt attempted_row
  save_attempt-Keeps config o plan d at_time =
      Keeps->>= id (update_order env o.id (attempted_row config o d.delivered at_time)) _
        (λ w h. update_order-Keeps id env o.id _ w (λ y. refl) (λ y e t p. p) h) (λ x w h. h)

  not_required-Keeps :
      (k : String) (r : DispatchResult) → Keeps id (update_order env k not_required_row >> pure r)
  not_required-Keeps k r =
      Keeps->>= id (update_order env k not_required_row) _
        (λ w h. update_order-Keeps id env k not_required_row w (λ y. refl) (λ y e t p. p) h)
        (λ x w h. h)

  plan_and_deliver-Keeps :
      (config : CallbackRuntimeConfig) (o : PaymentOrder) (m : Merchant) (target : String) (now : ℕ)
      → Keeps id (plan_and_deliver env config o m target now)
  unfolding plan_and_deliver deliver
  plan_and_deliver-Keeps config o m target now w h =
      elim (planned_cases (build_plan env o m target (env.iso now) w)) [
        | inl (text, p) ↦ rw p h
        | inr (inl p) ↦ rw p (not_required-Keeps o.id _ w h)
        | inr (inr (plan, p)) ↦ rw p (
            save_attempt-Keeps config o plan
              (delivery_of plan (env.safe_fetch w.ticks plan.request)) (env.time (suc w.ticks))
              (record w { ticks = suc (suc w.ticks) }) h)
      ]

  claim_and_deliver-Keeps :
      (config : CallbackRuntimeConfig) (o : PaymentOrder) (m : Merchant) (target : String) (now : ℕ)
      (force : Bool)
      → Keeps id (claim_and_deliver env config o m target now force)
  unfolding claim_and_deliver
  claim_and_deliver-Keeps config o m target now force =
      Keeps->>= id (claim_merchant_callback_dispatch env _) _ (claim-Keeps id env _) (λ claimed.
        Keeps-if id (not claimed) _ (plan_and_deliver env config o m target now) (λ w h. h)
          (plan_and_deliver-Keeps config o m target now))

  attempt_at-Keeps :
      (config : CallbackRuntimeConfig) (o : PaymentOrder) (m : Merchant) (target : String)
      (force : Bool) (now : ℕ)
      → Keeps id (attempt_at env config o m target force now)
  unfolding attempt_at
  attempt_at-Keeps config o m target force now =
      Keeps-if id (is_exhausted config force o) (pure (skipped false max_attempts_reached))
        (claim_if_free env config o m target force now) (λ w h. h)
        (Keeps-if id (is_processing_until now o) (pure (skipped false callback_already_processing))
          (claim_if_retryable env config o m target force now) (λ w h. h)
          (Keeps-if id (is_not_retryable force o) (pure (skipped false callback_not_retryable))
            (claim_and_deliver env config o m target now force) (λ w h. h)
            (claim_and_deliver-Keeps config o m target now force)))

  dispatch_to-Keeps :
      (o : PaymentOrder) (m : Merchant) (force : Bool) (target : Option String)
      → Keeps id (dispatch_to env o m force target)
  unfolding dispatch_to attempt_callback
  dispatch_to-Keeps o m force none = not_required-Keeps o.id (skipped false callback_target_missing)
  dispatch_to-Keeps o m force (some target) =
      Keeps-if id (not force && o.callback_status at delivered)
        (pure (skipped true callback_already_delivered)) (dispatch_if_terminal env o m force target)
        (λ w h. h)
        (Keeps-if id (is_not_terminal o) (pure (skipped false order_not_terminal))
          (attempt_callback env o m target force) (λ w h. h)
          (λ w.
            attempt_at-Keeps (get_callback_runtime_config env) o m target force (env.time w.ticks)
              (record w { ticks = suc w.ticks })))

  dispatch_found-Keeps :
      (force : Bool) (found : Option (PaymentOrder × Merchant))
      → Keeps id (dispatch_found env force found)
  unfolding dispatch_found
  dispatch_found-Keeps force none = λ w h. h
  dispatch_found-Keeps force (some (o, m)) =
      dispatch_to-Keeps o m force (present (resolve_callback_target o m))

  pub dispatch-Keeps :
      (k : String) (force : Bool) → Keeps id (dispatch_merchant_callback env k force)
  unfolding dispatch_merchant_callback
  dispatch-Keeps k force w = dispatch_found-Keeps force (load_with_merchant k w) w

  sync_ledger-Keeps : (k : String) → Keeps id (sync_payment_order_ledger_entries env k)
  unfolding sync_payment_order_ledger_entries
  sync_ledger-Keeps k w = found-Keeps (load_with_merchant k w) w
    where
      found-Keeps : (x : Option (PaymentOrder × Merchant)) → Keeps id (sync_loaded_order env x)
      found-Keeps none = λ w h. h
      found-Keeps (some (o, m)) =
          Keeps-if id (o.status is succeeded) _ (pure tt) (λ w h. h) (λ w h. h)

  sync_if_succeeded-Keeps : (row : PaymentOrder) → Keeps id (sync_if_succeeded env row)
  unfolding sync_if_succeeded
  sync_if_succeeded-Keeps row =
      Keeps-if id (row.status is succeeded)
        (sync_payment_order_ledger_entries env row.id >> pure row) (pure row)
        (Keeps->>= id (sync_payment_order_ledger_entries env row.id) _ (sync_ledger-Keeps row.id)
          (λ x w h. h))
        (λ w h. h)

  dispatch_if_queued-Keeps :
      (queued : Bool) (row : PaymentOrder) → Keeps id (dispatch_if_queued env queued row)
  unfolding dispatch_if_queued
  dispatch_if_queued-Keeps queued row =
      Keeps-if id (queued && not (row.callback_status at delivered))
        (dispatch_merchant_callback env row.id false >> sync_if_succeeded env row)
        (sync_if_succeeded env row)
        (Keeps->>= id (dispatch_merchant_callback env row.id false) _ (dispatch-Keeps row.id false)
          (λ x. sync_if_succeeded-Keeps row))
        (sync_if_succeeded-Keeps row)

  -- The write itself: the row that it rewrites is the order that was read.
  write_notification-Keeps :
      (n : PaymentNotification) (o : PaymentOrder) (m : Merchant) (w : World)
      → find_order o.id w ≡ some o
      → IsPaid id w
      → IsPaid id (write_notification env n o m w).1
  unfolding write_notification notified_row
  write_notification-Keeps n o m w e h =
      Keeps->>=_at id (update_order env o.id (notified_row o m n (env.time w.ticks))) _ later
        (λ x. dispatch_if_queued-Keeps (should_queue_callback o m (next_status o n)) x)
        (update_order-Keeps id env o.id (notified_row o m n (env.time w.ticks)) later (λ y. refl)
          (λ y found same paid.
            Move-succeeded (resolve-Move o.status n.provider_status n.succeeds)
              (still_paid y found same paid))
          h)
    where
      later : World
      later = record w { ticks = suc w.ticks }

      still_paid :
          (y : PaymentOrder)
          → find_order id w ≡ some y
          → is_order o.id y ≡ true
          → y.status ≡ succeeded
          → o.status ≡ succeeded
      still_paid y found same paid =
          ap (λ x. (get_or x o).status)
            (sym e
              ∙ subst (λ k. find_order k w ≡ some y)
                  (sym (find_order-id id w y found) ∙ (eq_iff y.id o.id).0 same) found)
          ∙ paid

  -- A paid order stays paid, whichever order, this one or another, a notification is about, and
  -- whatever it says.
  pub apply-IsPaid :
      (n : PaymentNotification) (w : World)
      → IsPaid id w
      → IsPaid id (apply_payment_notification env n w).1
  unfolding apply_payment_notification apply_to_found apply_to_amount
  apply-IsPaid n w h = elim (Option-cases (load_with_merchant n.order_id w)) [
    | inl q ↦ rw q h
    | inr ((o, m), q) ↦ rw q (guarded o m (load_self n.order_id w o m q))
  ]
    where
      checked :
          (o : PaymentOrder) (m : Merchant) (r : Option Error)
          → find_order o.id w ≡ some o
          → IsPaid id (apply_to_amount env n o m r w).1
      checked o m none e = write_notification-Keeps n o m w e h
      checked o m (some x) e = h

      guarded :
          (o : PaymentOrder) (m : Merchant)
          → find_order o.id w ≡ some o
          → IsPaid id (apply_to_found env n (some (o, m)) w).1
      guarded o m e =
          elim (Bool-cases (
            is_ctf_evidence n.evidence_kind
            && not (is_ctf_bill_capture_channel_code env o.channel_code))) [
              | inl t ↦ rw t h
              | inr t ↦ rw t (
                  checked o m
                    (assert_payment_notification_amount_matches env (expected_amount o) n.amount
                      n.succeeds)
                    e)
            ]
