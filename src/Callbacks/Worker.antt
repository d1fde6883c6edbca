-- ===== src/Callbacks/Worker.antt =====
-- lib/callbacks/service.ts: the worker that dispatches the callbacks that are due.
pub mod Laws
use nova_pay.Base.{
  ℕ, suc, ◌+◌, String, Bool, true, false, ◌&&◌, ◌||◌, Option, none, some, List, [], ◌∷◌, ltb, leb,
  ◌==◌, map, keep, get_or, length, if◌then◌else◌,
}
use nova_pay.Base.Sort.{sort_by, take}
use nova_pay.Orders.Status.{succeeded, failed, cancelled, waiting, in_flight, undelivered, ◌is◌}
use nova_pay.Store.Schema.{PaymentOrder, ◌at◌}
use nova_pay.Store.World.{Env, World}
use nova_pay.Store.Monad.{Action, Result, ok, err, ◌>>=◌, pure, gets, read_clock}
use nova_pay.Callbacks.Config.{get_callback_runtime_config}
use nova_pay.Callbacks.Claim.{is_due, is_lease_over}
use nova_pay.Callbacks.Dispatch.{DispatchResult, skipped, sent, dispatch_merchant_callback}

unfoldable pub due_where : ℕ → ℕ → PaymentOrder → Bool
due_where now max_attempts o =
    (o.status is succeeded || (o.status is failed || o.status is cancelled))
    && (ltb o.callback_attempts_count max_attempts
        && ((o.callback_status at waiting || o.callback_status at undelivered) && is_due now o
            || o.callback_status at in_flight && is_lease_over now o))

-- `ASC` puts null last.
abbrev leb_null_last : Option ℕ → Option ℕ → Bool
leb_null_last none none = true
leb_null_last none (some t) = false
leb_null_last (some s) none = true
leb_null_last (some s) (some t) = leb s t

abbrev ltb_null_last : Option ℕ → Option ℕ → Bool
ltb_null_last none none = false
ltb_null_last none (some t) = false
ltb_null_last (some s) none = true
ltb_null_last (some s) (some t) = ltb s t

-- `orderBy: [{ nextCallbackAt: "asc" }, { createdAt: "asc" }]`
callback_order : PaymentOrder → PaymentOrder → Bool
callback_order a b =
    ltb_null_last a.next_callback_at b.next_callback_at
    || leb_null_last a.next_callback_at b.next_callback_at && leb a.created_at b.created_at

unfoldable pub due_orders : ℕ → ℕ → ℕ → List PaymentOrder → List PaymentOrder
unfolding callback_order
due_orders now max_attempts limit orders =
    take limit (sort_by callback_order (keep (due_where now max_attempts) orders))

unfoldable pub list_due_merchant_callback_order_ids : Env → Option ℕ → Action (List String)
unfolding due_orders
list_due_merchant_callback_order_ids env limit = do
  now ← read_clock env
  gets λ w.
      map (λ o. o.id)
        (due_orders now (get_callback_runtime_config env).max_attempts (get_or limit 20) w.orders)

pub record Tally : Type 0 where
  pub delivered_count : ℕ
  pub failed_count : ℕ
  pub skipped_count : ℕ
  pub error_count : ℕ

-- What one round of the loop counts; an error is caught.
unfoldable pub count_dispatch : Result DispatchResult → Tally → Tally
count_dispatch (ok (skipped d reason)) t = record t { skipped_count = suc t.skipped_count }
count_dispatch (ok (sent true status message)) t = record t {
  delivered_count = suc t.delivered_count;
}
count_dispatch (ok (sent false status message)) t = record t { failed_count = suc t.failed_count }
count_dispatch (err e) t = record t { error_count = suc t.error_count }

unfoldable pub dispatch_each : Env → List String → Tally → World → Tally × World
dispatch_each env [] t w = (t, w)
dispatch_each env (id ∷ ids) t w =
    let (r, w') = dispatch_merchant_callback env id false w in
    dispatch_each env ids (count_dispatch r t) w'

pub record RunReport : Type 0 where
  pub selected_count : ℕ
  pub tally : Tally

abbrev no_dispatch : Tally
no_dispatch = record { delivered_count = 0; failed_count = 0; skipped_count = 0; error_count = 0 }

unfoldable pub run_due_merchant_callback_dispatches : Env → Option ℕ → Action RunReport
run_due_merchant_callback_dispatches env limit = do
  ids ← list_due_merchant_callback_order_ids env limit
  λ w.
      let (t, w') = dispatch_each env ids no_dispatch w in
      (ok (record { selected_count = length ids; tally = t }), w')
