-- ===== src/Orders/Create/Laws.antt =====
-- Creating an order.
use nova_pay.Base.{
  ℕ, suc, ◌≡◌, refl, sym, ap, subst, ◌∙◌, String, true, false, not, Option, none, some, List, [],
  ◌∷◌, ◌++◌, ◌⊎◌, inl, inr, Bool-cases, str_eq, get_or,
}
use nova_pay.Base.Int.{pos, ◌+ℤ◌}
use nova_pay.Base.Rows.{find}
use nova_pay.Finance.Calculations.Fees.{fee-net_sum}
use nova_pay.Merchants.Profile.{
  assert_merchant_can_create_orders, assert_merchant_profile_ready_for_orders,
}
use nova_pay.Orders.Provider.{find_merchant_by_code}
use nova_pay.Orders.Slots.{PayableAmount, allocate_ctf_payable_amount, round_cents}
use nova_pay.Orders.Status.{failed, status_from_create_payment}
use nova_pay.Payments.ChannelCodes.{normalize_payment_channel_code}
use nova_pay.Payments.Routes.{ResolvedMerchantChannelRoute, select_provider_account_for_order}
use nova_pay.Payments.Routes.Laws.{select-Quiet}
use nova_pay.Store.Schema.{PaymentOrder, Merchant}
use nova_pay.Store.World.{
  Env, World, PaymentProvider, CreatePaymentResult, CreatePaymentInput, app, channel_not_configured,
  plugin_not_installed,
}
use nova_pay.Store.Monad.{Result, ok, err, ◌>>=◌, raise_if, is_order, ask, set_orders}
use nova_pay.Store.Quiet.{after_quiet, raise_if-Quiet}
use nova_pay.Orders.Create.{
  payment_input, start_payment, create_new, create_unless_existing, create_with,
  create_payment_order,
}
use nova_pay.Orders.Create.Record.{
  CreatePaymentOrderInput, CreatedPaymentOrder, is_external, natural, new_order, insert_unique,
  create_row,
}
use nova_pay.Orders.Create.Reads.{
  allocate-Quiet, status-Quiet, profile-Quiet, merchant-Quiet, expire-Quiet,
}
use nova_pay.Orders.Create.Appends.{Started, Kept, start_payment-Started}
use nova_pay.Orders.Create.Quote.{build_payment_expire_at}

-- The end of a call, against the orders before it.
unfoldable pub Added :
    CreatePaymentOrderInput → List PaymentOrder → Result CreatedPaymentOrder × World → Type 0
Added input os (ok r, w) =
    ((r.created ≡ false)
      × (w.orders ≡ os)
      × (find (is_external r.merchant.id input.external_order_id) os ≡ some r.order))
    ⊎ ((r.created ≡ true)
        × (w.orders ≡ os ++ r.order ∷ [])
        × (find (is_external r.merchant.id input.external_order_id) os ≡ none)
        × (r.order.merchant_id ≡ r.merchant.id)
        × (r.order.external_order_id ≡ input.external_order_id)
        × (r.order.net_amount +ℤ pos r.order.fee_amount ≡ pos r.order.amount)
        × ((p : CreatePaymentResult) × (r.payment ≡ some p)
            × (r.order.status ≡ status_from_create_payment p.status)))
Added input os (err e, w) =
    (w.orders ≡ os) ⊎ ((y : PaymentOrder) × (w.orders ≡ os ++ y ∷ []) × (y.status ≡ failed))

-- A row of the order that is asked for.
unfoldable IsRow : CreatePaymentOrderInput → Merchant → String → PaymentOrder → Type 0
IsRow input m id x =
    (x.id ≡ id)
    × (x.merchant_id ≡ m.id)
    × (x.external_order_id ≡ input.external_order_id)
    × (x.net_amount +ℤ pos x.fee_amount ≡ pos x.amount)

Started-Added :
    (input : CreatePaymentOrderInput) (os : List PaymentOrder) (m : Merchant) (id : String)
    (x : PaymentOrder) (p : Result CreatedPaymentOrder × World)
    → IsRow input m id x
    → find (is_external m.id input.external_order_id) os ≡ none
    → Started os m x p
    → Added input os p
unfolding Started Kept Added IsRow
Started-Added input os m id x (err e, w) row new (y, at_end, is_failed, kept) =
    inr (y, at_end, is_failed)
Started-Added input os m id x (ok r, w) (i, j, k, sum) new
      (p, paid, created, same, at_end, status, (_, merchant_id, external, amount, fee, net)) =
    inr (
      created,
      at_end,
      subst (λ n. find (is_external n.id input.external_order_id) os ≡ none) (sym same) new,
      merchant_id ∙ j ∙ ap (λ n. n.id) (sym same),
      external ∙ k,
      rw (net, fee, amount) sum,
      (p, paid, status),
    )

module _ (env : Env) (input : CreatePaymentOrderInput) (os : List PaymentOrder) where
  -- From the row on.
  from_row-Added :
      (provider : PaymentProvider) (m : Merchant) (row : ℕ → String → ℕ → PaymentOrder)
      (request : PaymentOrder → CreatePaymentInput) (amount : Option ℕ) (w : World)
      → ((t : ℕ) → find (is_order (env.fresh t)) os ≡ none)
      → find (is_external m.id input.external_order_id) os ≡ none
      → ((n : ℕ) (id : String) (now : ℕ) → IsRow input m id (row n id now))
      → w.orders ≡ os
      → Added input os (
          (create_row env row amount >>= λ order.
          start_payment env input provider m order (request order))
            w)
  unfolding create_row insert_unique Added IsRow
  from_row-Added provider m row request none w fresh new fits h = inl h
  from_row-Added provider m row request (some millionths) w fresh new fits h =
      inserted (find (is_external x.merchant_id x.external_order_id) w.orders)
    where
      x : PaymentOrder
      x = row (round_cents millionths) (env.fresh w.ticks) (env.time (suc w.ticks))

      w' : World
      w' = record w { ticks = suc (suc w.ticks) }

      is_row : IsRow input m (env.fresh w.ticks) x
      is_row = fits (round_cents millionths) (env.fresh w.ticks) (env.time (suc w.ticks))

      inserted :
          (taken : Option PaymentOrder)
          → Added input os (
              (insert_unique x taken >>= λ order.
              start_payment env input provider m order (request order))
                w')
      inserted (some o) = inl h
      inserted none = Started-Added input os m (env.fresh w.ticks) x _ is_row new (
          start_payment-Started env input provider m (request x) os x
            (set_orders (w.orders ++ x ∷ []) w')
            (subst (λ k. find (is_order k) os ≡ none) (sym is_row.0) (fresh w.ticks))
            (ap (λ l. l ++ x ∷ []) h))

  new_order-IsRow :
      (channel : String) (m : Merchant) (route : ResolvedMerchantChannelRoute)
      (payable : PayableAmount) (expire_at cents : ℕ) (id : String) (now : ℕ)
      → IsRow input m id (new_order env input channel m route payable expire_at cents id now)
  unfolding IsRow new_order
  new_order-IsRow channel m route payable expire_at cents id now =
      (refl, refl, refl, fee-net_sum cents (pos (get_or route.fee_rate 0)))

  create_new-Added :
      (channel : String) (provider : PaymentProvider) (m : Merchant) (w : World)
      → ((t : ℕ) → find (is_order (env.fresh t)) os ≡ none)
      → find (is_external m.id input.external_order_id) os ≡ none
      → w.orders ≡ os
      → Added input os (create_new env input channel provider m w)
  unfolding create_new Added
  create_new-Added channel provider m w fresh new =
      after_quiet (Added input os) os
        (select_provider_account_for_order env m.id channel input.amount) _
        (select-Quiet env m.id channel input.amount) (λ e w1 h. inl h)
        (λ route.
          after_quiet (Added input os) os
            (allocate_ctf_payable_amount env (some route.account.id) channel input.currency
              input.amount)
            _ (allocate-Quiet env (some route.account.id) channel input.currency input.amount)
            (λ e w1 h. inl h)
            (λ payable.
              after_quiet (Added input os) os
                (raise_if (not (provider.is_configured route.account))
                  (app channel_not_configured 422))
                _ (raise_if-Quiet _ _) (λ e w1 h. inl h)
                (λ u.
                  after_quiet (Added input os) os (build_payment_expire_at env channel) _
                    (expire-Quiet env channel) (λ e w1 h. inl h)
                    (λ expire_at w1.
                      from_row-Added provider m
                        (new_order env input channel m route payable expire_at)
                        (payment_input env input m route payable expire_at)
                        (natural (env.amount_of input.amount)) w1 fresh new
                        (new_order-IsRow channel m route payable expire_at)))))
        w

  existing-Added :
      (channel : String) (provider : PaymentProvider) (m : Merchant) (w : World)
      (found : Option PaymentOrder)
      → ((t : ℕ) → find (is_order (env.fresh t)) os ≡ none)
      → find (is_external m.id input.external_order_id) os ≡ found
      → w.orders ≡ os
      → Added input os (create_unless_existing env input channel provider m found w)
  unfolding create_unless_existing Added
  existing-Added channel provider m w none fresh e h =
      create_new-Added channel provider m w fresh e h
  existing-Added channel provider m w (some o) fresh e h =
      elim (Bool-cases (not (str_eq o.channel_code channel))) [
        | inl t ↦ rw t (inl h)
        | inr t ↦ rw t (inl (refl, h, e))
      ]

  create_with-Added :
      (channel : String) (provider : Option PaymentProvider) (w : World)
      → ((t : ℕ) → find (is_order (env.fresh t)) os ≡ none)
      → w.orders ≡ os
      → Added input os (create_with env input channel provider w)
  unfolding create_with Added
  create_with-Added channel none w fresh = λ h. inl h
  create_with-Added channel (some provider) w fresh =
      after_quiet (Added input os) os (find_merchant_by_code input.merchant_code) _
        (merchant-Quiet env input.merchant_code) (λ e w1 h. inl h)
        (λ m.
          after_quiet (Added input os) os (ask (λ tick. env.plugin_installed tick m.id channel)) _
            (λ w1. refl) (λ e w1 h. inl h)
            (λ installed.
              after_quiet (Added input os) os
                (raise_if (not installed) (app plugin_not_installed 422)) _ (raise_if-Quiet _ _)
                (λ e w1 h. inl h)
                (λ u.
                  after_quiet (Added input os) os (assert_merchant_can_create_orders m) _
                    (status-Quiet env m) (λ e w1 h. inl h)
                    (λ v.
                      after_quiet (Added input os) os
                        (assert_merchant_profile_ready_for_orders env m channel) _
                        (profile-Quiet env m channel) (λ e w1 h. inl h)
                        (λ x w1 h.
                          existing-Added channel provider m w1
                            (find (is_external m.id input.external_order_id) w1.orders) fresh
                            (ap (find (is_external m.id input.external_order_id)) (sym h)) h)))))
        w

-- A request for an order, where no order has one of the ids that new rows get, ends in one of four
-- ways. It returns the order that the merchant has under that external id, and changes no order. It
-- adds one order and returns it: the merchant had none under that external id, the order is its own,
-- its net amount and its fee make up its amount, and its status is the one that the provider's answer
-- says. It throws and changes no order. It throws and has added one failed order.
pub create-Added :
    (env : Env) (input : CreatePaymentOrderInput) (w : World)
    → ((t : ℕ) → find (is_order (env.fresh t)) w.orders ≡ none)
    → Added input w.orders (create_payment_order env input w)
unfolding create_payment_order
create-Added env input w fresh =
    create_with-Added env input w.orders (normalize_payment_channel_code env input.channel_code)
      (env.provider (normalize_payment_channel_code env input.channel_code)) w fresh refl
