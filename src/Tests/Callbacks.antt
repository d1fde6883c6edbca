-- ===== src/Tests/Callbacks.antt =====
-- Callbacks of the sample database.
use nova_pay.Base.{◌≡◌, refl, true, none, [], ◌∷◌, arith}
use nova_pay.Base.Rows.{find, count_where}
use nova_pay.Base.Sort.{All}
use nova_pay.Store.Ends.{Ends}
use nova_pay.Store.Sample.{env, world, paid_order, merchant}
use nova_pay.Callbacks.Claim.{
  ClaimInput, claim_where, claim_merchant_callback_dispatch, build_automatic_claim_where,
}
use nova_pay.Callbacks.Claim.Exclusive.{AllFail, LaterClaim, is_leased, claim_exclusive}
use nova_pay.Callbacks.Dispatch.{dispatch_merchant_callback}
use nova_pay.Callbacks.Dispatch.Laws.{dispatch-Dispatched}
use nova_pay.Callbacks.Dispatch.Recorded.{Dispatched, rest}
use nova_pay.Callbacks.Worker.{due_orders, run_due_merchant_callback_dispatches}
use nova_pay.Callbacks.Worker.Laws.{total, run_due-total, due_orders-claimable}

abbrev claim : ClaimInput
claim = record {
  order_id = "o2";
  force = true;
  now = 1000;
  max_attempts = 6;
  lease_expires_at = 16000;
}

abbrev later_claim : ClaimInput
later_claim = record claim { now = 15999; lease_expires_at = 30999 }

-- Before the later claim, another order is placed.
abbrev later : LaterClaim
later = record { meanwhile = λ os. record paid_order { id = "o3" } ∷ os; input = later_claim }

claim_exclusive_example :
    AllFail env (later ∷ []) (claim_merchant_callback_dispatch env claim world).1
unfolding count_where claim_merchant_callback_dispatch claim_where is_leased
claim_exclusive_example =
    claim_exclusive env claim (later ∷ []) world (omega arith) refl
      (refl, omega arith, (λ os h. (refl, h)), tt)

dispatch-Dispatched_example :
    Dispatched env paid_order merchant (rest world) (dispatch_merchant_callback env "o2" true world)
unfolding find
dispatch-Dispatched_example = dispatch-Dispatched env "o2" true world paid_order merchant refl refl

run_due-total_example :
    Ends
      (λ report w'. total report.tally ≡ report.selected_count)
      (run_due_merchant_callback_dispatches env none world)
run_due-total_example = run_due-total env none world

due_orders-claimable_example :
    All (λ o. build_automatic_claim_where o.id 1000 6 o ≡ true) (due_orders 1000 6 20 world.orders)
due_orders-claimable_example = due_orders-claimable 1000 6 20 world.orders
