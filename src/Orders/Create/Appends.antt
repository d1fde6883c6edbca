-- ===== src/Orders/Create/Appends.antt =====
-- What creating an order adds to the orders.
use nova_pay.Base.{
  ℕ, suc, ◌≡◌, refl, sym, subst, String, Bool, true, Option, none, some, List, [], ◌∷◌, ◌++◌, arith,
  eq_iff,
}
use nova_pay.Base.Rows.{find, update_where, find-append}
use nova_pay.Orders.Status.{failed, status_from_create_payment}
use nova_pay.Store.Schema.{PaymentOrder, Merchant}
use nova_pay.Store.World.{
  Env, World, Outcome, answered, threw, PaymentProvider, CreatePaymentInput, CreatePaymentResult,
}
use nova_pay.Store.Monad.{
  Result, ok, err, continue, ◌>>=◌, recover, awaited, is_order, update_order,
}
use nova_pay.Store.Frame.{update_order_lem, written_order, after_order_update}
use nova_pay.Store.Quiet.{Quiet, after_quiet, Quiet->>=}
use nova_pay.Orders.Create.{returned, ask_provider, start_payment}
use nova_pay.Orders.Create.Record.{
  CreatePaymentOrderInput, CreatedPaymentOrder, decimal_or_refused, natural, quoted_column,
  quote_columns, answered_row, record_created, failed_row, record_create_failed,
}
use nova_pay.Orders.Create.Quote.{QuotedPaymentFields, get_quoted_payment_fields}

update_where-append :
    (p : PaymentOrder → Bool) (f : PaymentOrder → PaymentOrder) (os : List PaymentOrder)
    (x : PaymentOrder)
    → find p os ≡ none
    → p x ≡ true
    → update_where p f (os ++ x ∷ []) ≡ os ++ f x ∷ []
unfolding find update_where
update_where-append p f [] x e h = ground arith
update_where-append p f (y ∷ os) x e h = ground (arith, update_where-append p f os x)

-- An update of the last order, by an id that no other has.
update_last :
    (env : Env) (f : PaymentOrder → PaymentOrder) (os : List PaymentOrder) (x : PaymentOrder)
    (w : World)
    → find (is_order x.id) os ≡ none
    → w.orders ≡ os ++ x ∷ []
    → (w' : World) × (update_order env x.id f w ≡ (ok (written_order env w f x), w'))
      × (w'.orders ≡ os ++ written_order env w f x ∷ [])
update_last env f os x w fresh e = (
  after_order_update env x.id f w,
  update_order_lem env x.id f w x (
      subst (λ l. find (is_order x.id) l ≡ some x) (sym e)
        (find-append (is_order x.id) os x fresh ((eq_iff x.id x.id).1 refl))),
  subst
      (λ l.
        update_where (is_order x.id) (written_order env w f) l ≡ os ++ written_order env w f x ∷ [])
      (sym e)
      (update_where-append (is_order x.id) (written_order env w f) os x fresh
        ((eq_iff x.id x.id).1 refl)),
)

-- What an update of a new order keeps.
unfoldable pub Kept : PaymentOrder → PaymentOrder → Type 0
Kept x y =
    (y.id ≡ x.id)
    × (y.merchant_id ≡ x.merchant_id)
    × (y.external_order_id ≡ x.external_order_id)
    × (y.amount ≡ x.amount)
    × (y.fee_amount ≡ x.fee_amount)
    × (y.net_amount ≡ x.net_amount)

-- The end of a payment's start, on a new last order.
unfoldable pub Started :
    List PaymentOrder → Merchant → PaymentOrder → Result CreatedPaymentOrder × World → Type 0
Started os m x (ok r, w) =
    (p : CreatePaymentResult) × (r.payment ≡ some p)
    × (r.created ≡ true)
    × (r.merchant ≡ m)
    × (w.orders ≡ os ++ r.order ∷ [])
    × (r.order.status ≡ status_from_create_payment p.status)
    × Kept x r.order
Started os m x (err e, w) =
    (y : PaymentOrder) × (w.orders ≡ os ++ y ∷ []) × (y.status ≡ failed) × Kept x y

-- The same of the body of the `try`, where a throw has left the order as it was.
abbrev Tried :
    List PaymentOrder → Merchant → PaymentOrder → Result CreatedPaymentOrder × World → Type 0
Tried os m x (ok r, w) = Started os m x (ok r, w)
Tried os m x (err e, w) = w.orders ≡ os ++ x ∷ []

answered_row-Kept :
    (input : CreatePaymentOrderInput) (p : CreatePaymentResult)
    (q : Option (QuotedPaymentFields × (Option ℕ × Option ℕ))) (x : PaymentOrder) (now : ℕ)
    → let y : PaymentOrder = record (answered_row input p q x) { updated_at = now } in
      (y.status ≡ status_from_create_payment p.status) × Kept x y
unfolding answered_row Kept
answered_row-Kept input p none x now = (refl, (refl, refl, refl, refl, refl, refl))
answered_row-Kept input p (some (q, (a, b))) x now = (refl, (refl, refl, refl, refl, refl, refl))

module _ (env : Env) where
  decimal-Quiet : (n : Option ℕ) → Quiet (decimal_or_refused n)
  unfolding decimal_or_refused
  decimal-Quiet none = λ w. refl
  decimal-Quiet (some m) = λ w. refl

  quoted_column-Quiet : (raw : Option String) → Quiet (quoted_column env raw)
  unfolding quoted_column
  quoted_column-Quiet none = λ w. refl
  quoted_column-Quiet (some raw) = decimal-Quiet (natural (env.amount_of raw))

  quote_columns-Quiet : (q : Option QuotedPaymentFields) → Quiet (quote_columns env q)
  unfolding quote_columns
  quote_columns-Quiet none = λ w. refl
  quote_columns-Quiet (some q) =
      Quiet->>= (quoted_column env q.payable_amount) _ (quoted_column-Quiet q.payable_amount) (λ a.
        Quiet->>= (quoted_column env q.quote_rate) _ (quoted_column-Quiet q.quote_rate)
          (λ b w. refl))

  -- The update after the provider's answer, with what is returned from it.
  created-Tried :
      (input : CreatePaymentOrderInput) (m : Merchant) (os : List PaymentOrder) (x : PaymentOrder)
      (p : CreatePaymentResult) (w : World)
      → find (is_order x.id) os ≡ none
      → w.orders ≡ os ++ x ∷ []
      → Tried os m x ((record_created env input x.id p >>= returned m p) w)
  unfolding record_created Started
  created-Tried input m os x p w fresh =
      after_quiet (λ q. Tried os m x (continue (returned m p) q)) (os ++ x ∷ [])
        (quote_columns env (get_quoted_payment_fields env p.provider_payload)) _
        (quote_columns-Quiet (get_quoted_payment_fields env p.provider_payload)) (λ e w' h. h)
        written w
    where
      written :
          (q : Option (QuotedPaymentFields × (Option ℕ × Option ℕ))) (w' : World)
          → w'.orders ≡ os ++ x ∷ []
          → Tried os m x
              (continue (returned m p) (update_order env x.id (answered_row input p q) w'))
      written q w' h =
          let (w'', e, e') = update_last env (answered_row input p q) os x w' fresh h in
          let (s, k) = answered_row-Kept input p q x (env.time w'.ticks) in
          rw e (p, refl, refl, refl, e', s, k)

  ask_provider-Tried :
      (input : CreatePaymentOrderInput) (provider : PaymentProvider) (m : Merchant)
      (request : CreatePaymentInput) (os : List PaymentOrder) (x : PaymentOrder) (w : World)
      → find (is_order x.id) os ≡ none
      → w.orders ≡ os ++ x ∷ []
      → Tried os m x (ask_provider env input provider m x request w)
  unfolding ask_provider
  ask_provider-Tried input provider m request os x w fresh h =
      outcome (provider.create_payment w.ticks request)
    where
      outcome :
          (o : Outcome CreatePaymentResult)
          → Tried os m x
              (continue (λ p. record_created env input x.id p >>= returned m p) (awaited w o))
      outcome (answered p) = created-Tried input m os x p (record w { ticks = suc w.ticks }) fresh h
      outcome (threw text) = h

  pub start_payment-Started :
      (input : CreatePaymentOrderInput) (provider : PaymentProvider) (m : Merchant)
      (request : CreatePaymentInput) (os : List PaymentOrder) (x : PaymentOrder) (w : World)
      → find (is_order x.id) os ≡ none
      → w.orders ≡ os ++ x ∷ []
      → Started os m x (start_payment env input provider m x request w)
  unfolding start_payment record_create_failed failed_row Started Kept
  start_payment-Started input provider m request os x w fresh h =
      recovered (ask_provider env input provider m x request w)
        (ask_provider-Tried input provider m request os x w fresh h)
    where
      recovered :
          (q : Result CreatedPaymentOrder × World)
          → Tried os m x q
          → Started os m x (recover (record_create_failed env x.id) q)
      recovered (ok r, w') t = t
      recovered (err e, w') t =
          let (w'', eq, at_end) = update_last env (failed_row env e) os x w' fresh t in
          rw eq (_, at_end, refl, (refl, refl, refl, refl, refl, refl))
