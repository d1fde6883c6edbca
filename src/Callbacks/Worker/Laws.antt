-- ===== src/Callbacks/Worker/Laws.antt =====
-- What the worker selects, and what it reports.
use nova_pay.Base.{
  ℕ, ◌+◌, ◌≡◌, String, Bool, true, false, Option, List, [], ◌∷◌, keep, length, arith, eq_iff,
  Bool-cases, inl, inr,
}
use nova_pay.Base.Sort.{All, All-sort_by, All-take, All-mono}
use nova_pay.Store.Schema.{PaymentOrder}
use nova_pay.Store.World.{Env, World}
use nova_pay.Store.Monad.{Result}
use nova_pay.Store.Ends.{Ends}
use nova_pay.Callbacks.Claim.{build_automatic_claim_where}
use nova_pay.Callbacks.Dispatch.{DispatchResult, dispatch_merchant_callback}
use nova_pay.Callbacks.Worker.{
  due_where, due_orders, Tally, count_dispatch, dispatch_each, run_due_merchant_callback_dispatches,
  list_due_merchant_callback_order_ids,
}

abbrev pub total : Tally → ℕ
total t = t.delivered_count + t.failed_count + t.skipped_count + t.error_count

count_dispatch-total :
    (r : Result DispatchResult) (t : Tally) → total (count_dispatch r t) ≡ total t + 1
unfolding count_dispatch
count_dispatch-total r t = ground arith

dispatch_each-total :
    (env : Env) (ids : List String) (t : Tally) (w : World)
    → total (dispatch_each env ids t w).0 ≡ total t + length ids
unfolding dispatch_each
dispatch_each-total env [] t w = omega arith
dispatch_each-total env (id ∷ ids) t w = omega (
  arith,
  count_dispatch-total (dispatch_merchant_callback env id false w).0 t,
  dispatch_each-total env ids (count_dispatch (dispatch_merchant_callback env id false w).0 t)
      (dispatch_merchant_callback env id false w).1,
)

-- The worker's run always returns, and counts each selected order exactly once: as delivered, as
-- failed, as skipped or as an error.
pub run_due-total :
    (env : Env) (limit : Option ℕ) (w : World)
    → Ends
        (λ report w'. total report.tally ≡ report.selected_count)
        (run_due_merchant_callback_dispatches env limit w)
unfolding run_due_merchant_callback_dispatches list_due_merchant_callback_order_ids
run_due-total env limit w = omega (arith, dispatch_each-total env)

keep-All : (p : PaymentOrder → Bool) (os : List PaymentOrder) → All (λ o. p o ≡ true) (keep p os)
keep-All p [] = tt
keep-All p (o ∷ os) = elim (Bool-cases (p o)) [
  | inl h ↦ rw h (h, keep-All p os)
  | inr h ↦ rw h (keep-All p os)
]

due-claimable :
    (now max : ℕ) (o : PaymentOrder)
    → due_where now max o ≡ true
    → build_automatic_claim_where o.id now max o ≡ true
unfolding due_where build_automatic_claim_where
due-claimable now max o h = ground (arith, eq_iff o.id o.id)

-- Every order that the worker selects could be claimed at that moment: it has attempts left, and it
-- is due, or its last dispatcher's lease has run out.
pub due_orders-claimable :
    (now max limit : ℕ) (os : List PaymentOrder)
    → All (λ o. build_automatic_claim_where o.id now max o ≡ true) (due_orders now max limit os)
unfolding due_orders
due_orders-claimable now max limit os =
    All-mono _ _ _ (due-claimable now max)
      (All-take _ limit _ (All-sort_by _ _ _ (keep-All (due_where now max) os)))
