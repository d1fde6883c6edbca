-- ===== src/Callbacks/Claim.antt =====
-- lib/callbacks/service.ts: a dispatcher claims an order by one conditional update.
pub mod Exclusive
use nova_pay.Base.{
  ℕ, String, Bool, true, false, not, ◌&&◌, ◌||◌, Option, none, some, ltb, leb, ◌==◌, if◌then◌else◌,
}
use nova_pay.Base.Rows.{count_where, update_where}
use nova_pay.Orders.Status.{waiting, in_flight, undelivered}
use nova_pay.Store.Schema.{PaymentOrder, ◌at◌}
use nova_pay.Store.World.{Env, World}
use nova_pay.Store.Monad.{Action, ok, ◌>>=◌, read_clock, is_order, set_orders}

-- `nextCallbackAt: { lte: now }`, which no null passes
abbrev pub is_due : ℕ → PaymentOrder → Bool
is_due now o = elim o.next_callback_at [ none ↦ false | some t ↦ leb t now ]

-- `OR: [{ nextCallbackAt: { lte: now } }, { nextCallbackAt: null }]`
abbrev pub is_lease_over : ℕ → PaymentOrder → Bool
is_lease_over now o = elim o.next_callback_at [ none ↦ true | some t ↦ leb t now ]

unfoldable pub build_automatic_claim_where : String → ℕ → ℕ → PaymentOrder → Bool
build_automatic_claim_where id now max_attempts o =
    is_order id o
    && (ltb o.callback_attempts_count max_attempts
        && ((o.callback_status at waiting || o.callback_status at undelivered) && is_due now o
            || o.callback_status at in_flight && is_lease_over now o))

unfoldable pub build_forced_claim_where : String → ℕ → PaymentOrder → Bool
build_forced_claim_where id now o =
    is_order id o
    && (not (o.callback_status at in_flight)
        || o.callback_status at in_flight && is_lease_over now o)

pub record ClaimInput : Type 0 where
  pub order_id : String
  pub force : Bool
  pub now : ℕ
  pub max_attempts : ℕ
  pub lease_expires_at : ℕ

unfoldable pub claim_where : ClaimInput → PaymentOrder → Bool
unfolding build_automatic_claim_where build_forced_claim_where
claim_where input o =
    if input.force
    then build_forced_claim_where input.order_id input.now o
    else build_automatic_claim_where input.order_id input.now input.max_attempts o

abbrev pub claimed_row : ℕ → ℕ → PaymentOrder → PaymentOrder
claimed_row lease at_time o = record o {
  callback_status = in_flight;
  next_callback_at = some lease;
  updated_at = at_time;
}

-- `updateMany` writes every row that the condition selects, and returns their number.
unfoldable pub claim_merchant_callback_dispatch : Env → ClaimInput → Action Bool
claim_merchant_callback_dispatch env input = do
  at_time ← read_clock env
  λ w.
      let count = count_where (claim_where input) w.orders in
      (
        ok (count == 1),
        set_orders
            (update_where (claim_where input) (claimed_row input.lease_expires_at at_time) w.orders)
            w,
      )
