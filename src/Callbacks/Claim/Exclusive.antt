-- ===== src/Callbacks/Claim/Exclusive.antt =====
-- The lease of an order: claims of it, with what other requests write between them.
use nova_pay.Base.{
  ℕ, ◌≤◌, ◌<◌, ◌≡◌, refl, sym, subst, String, Bool, true, false, not, ◌&&◌, ◌||◌, none, some, List,
  [], ◌∷◌, arith, ◌==◌, Bool-cases, inl, inr,
}
use nova_pay.Base.Rows.{count_where, count_where_mono, update_where, update_where_none}
use nova_pay.Base.Sort.{All}
use nova_pay.Orders.Status.{in_flight}
use nova_pay.Store.Schema.{PaymentOrder, ◌at◌}
use nova_pay.Store.World.{Env, World}
use nova_pay.Store.Monad.{Result, ok, is_order, set_orders}
use nova_pay.Callbacks.Claim.{
  ClaimInput, claim_where, claimed_row, claim_merchant_callback_dispatch,
}

claim_where-is_order :
    (input : ClaimInput) (o : PaymentOrder)
    → claim_where input o ≡ true
    → is_order input.order_id o ≡ true
unfolding claim_where
claim_where-is_order input o h = ground arith

-- The row, if it is of this order, is in flight with a lease until this instant.
unfoldable pub is_leased : String → ℕ → PaymentOrder → Bool
is_leased id lease o =
    not (is_order id o)
    || o.callback_status at in_flight
      && elim o.next_callback_at [ none ↦ false | some t ↦ t == lease ]

abbrev pub IsLeased : String → ℕ → List PaymentOrder → Type 0
IsLeased id lease os = All (λ o. is_leased id lease o ≡ true) os

-- A claim, and what other requests do to the orders before it.
pub record LaterClaim : Type 0 where
  pub meanwhile : List PaymentOrder → List PaymentOrder
  pub input : ClaimInput

abbrev pub run_later : Env → LaterClaim → World → Result Bool × World
run_later env c w =
    claim_merchant_callback_dispatch env c.input (set_orders (c.meanwhile w.orders) w)

-- Every claim of a sequence fails.
abbrev pub AllFail : Env → List LaterClaim → World → Type 0
AllFail env [] w = Unit
AllFail env (c ∷ cs) w = let (r, w') = run_later env c w in (r ≡ ok false) × AllFail env cs w'

-- Every claim of a sequence is for this order and is made before this instant, and the other requests
-- leave the order in flight with its lease.
abbrev pub AllBefore : String → ℕ → List LaterClaim → Type 0
AllBefore id lease [] = Unit
AllBefore id lease (c ∷ cs) =
    (c.input.order_id ≡ id)
    × (c.input.now < lease)
    × ((os : List PaymentOrder) → IsLeased id lease os → IsLeased id lease (c.meanwhile os))
    × AllBefore id lease cs

is_leased-unclaimable :
    (c : ClaimInput) (lease : ℕ) (o : PaymentOrder)
    → c.now < lease
    → is_leased c.order_id lease o ≡ true
    → claim_where c o ≡ false
unfolding claim_where is_leased
is_leased-unclaimable c lease o early h = ground arith

IsLeased-none :
    (c : ClaimInput) (lease : ℕ) (os : List PaymentOrder)
    → c.now < lease
    → IsLeased c.order_id lease os
    → count_where (claim_where c) os ≡ 0
unfolding count_where
IsLeased-none c lease [] early h = refl
IsLeased-none c lease (o ∷ os) early (h, hs) =
    rw (is_leased-unclaimable c lease o early h) (IsLeased-none c lease os early hs)

IsLeased-AllFail :
    (env : Env) (id : String) (lease : ℕ) (cs : List LaterClaim) (w : World)
    → IsLeased id lease w.orders
    → AllBefore id lease cs
    → AllFail env cs w
unfolding claim_merchant_callback_dispatch
IsLeased-AllFail env id lease [] w held h = tt
IsLeased-AllFail env id lease (c ∷ cs) w held (same, early, leaves, rest) = (
  rw none_left refl,
  IsLeased-AllFail env id lease cs (run_later env c w).1
      (subst (IsLeased id lease) (sym (update_where_none _ _ _ none_left)) (leaves w.orders held))
      rest,
)
  where
    none_left : count_where (claim_where c.input) (c.meanwhile w.orders) ≡ 0
    none_left =
        IsLeased-none c.input lease (c.meanwhile w.orders) early
          (subst (λ k. IsLeased k lease (c.meanwhile w.orders)) (sym same) (leaves w.orders held))

claimed_row-is_leased :
    (id : String) (lease at_time : ℕ) (o : PaymentOrder)
    → is_leased id lease (claimed_row lease at_time o) ≡ true
unfolding is_leased
claimed_row-is_leased id lease at_time o = ground arith

foreign-is_leased :
    (id : String) (lease : ℕ) (o : PaymentOrder)
    → is_order id o ≡ false
    → is_leased id lease o ≡ true
unfolding is_leased
foreign-is_leased id lease o h = rw h refl

-- A claim that selects as many rows as there are of the order leases them all.
claim-IsLeased :
    (input : ClaimInput) (at_time : ℕ) (os : List PaymentOrder)
    → count_where (is_order input.order_id) os ≤ count_where (claim_where input) os
    → IsLeased input.order_id input.lease_expires_at
        (update_where (claim_where input) (claimed_row input.lease_expires_at at_time) os)
unfolding count_where update_where
claim-IsLeased input at_time [] h = tt
claim-IsLeased input at_time (o ∷ os) h = elim (Bool-cases (claim_where input o)) [
  | inl t ↦ rw t (
    claimed_row-is_leased input.order_id input.lease_expires_at at_time o,
    claim-IsLeased input at_time os (ground (arith, claim_where-is_order input o t)),
  )
  | inr t ↦ rw t (
    foreign-is_leased input.order_id input.lease_expires_at o (foreign t),
    claim-IsLeased input at_time os (
        ground (
          arith,
          count_where_mono (is_order input.order_id) (claim_where input) os
              (claim_where-is_order input),
        )),
  )
]
  where
    foreign : claim_where input o ≡ false → is_order input.order_id o ≡ false
    foreign t = ground (
      arith,
      count_where_mono (is_order input.order_id) (claim_where input) os
          (claim_where-is_order input),
    )

-- Once a claim of an order has succeeded, every other claim of that order fails that is made before
-- the lease ends, forced or not, whatever their number and order, and whatever other requests write
-- between them, as long as they leave the order in flight with its lease. The order's id is unique.
pub claim_exclusive :
    (env : Env) (input : ClaimInput) (cs : List LaterClaim) (w : World)
    → count_where (is_order input.order_id) w.orders ≤ 1
    → (claim_merchant_callback_dispatch env input w).0 ≡ ok true
    → AllBefore input.order_id input.lease_expires_at cs
    → AllFail env cs (claim_merchant_callback_dispatch env input w).1
unfolding claim_merchant_callback_dispatch
claim_exclusive env input cs w one e before =
    IsLeased-AllFail env input.order_id input.lease_expires_at cs _
      (claim-IsLeased input (env.time w.ticks) w.orders
        (claimed_one (count_where (claim_where input) w.orders) e one))
      before
  where
    claimed_one :
        (n : ℕ)
        → ◌≡◌ {A = Result Bool} (ok (n == 1)) (ok true)
        → count_where (is_order input.order_id) w.orders ≤ 1
        → count_where (is_order input.order_id) w.orders ≤ n
    claimed_one n h k = ground arith
