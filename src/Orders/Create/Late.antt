-- ===== src/Orders/Create/Late.antt =====
-- createPaymentOrder and the payments: what it does to orders that are paid, before it runs or while
-- the provider is asked.
use nova_pay.Base.{
  ℕ, Bool, ◌≡◌, ◌≢◌, refl, sym, ap, subst, ◌∙◌, String, none, some, List, [], ◌∷◌, ◌++◌, get_or,
  inl, inr, arith,
}
use nova_pay.Base.Rows.{find}
use nova_pay.Orders.Create.{create_payment_order}
use nova_pay.Orders.Create.Record.{
  CreatePaymentOrderInput, CreatedPaymentOrder, record_created, record_create_failed, failed_row,
  answered_row, quote_columns,
}
use nova_pay.Orders.Create.Laws.{Added, create-Added}
use nova_pay.Orders.Create.Quote.{get_quoted_payment_fields}
use nova_pay.Orders.Paid.{IsPaid}
use nova_pay.Orders.Status.{
  CreatedStatus, requires_action, now_processing, succeeded, status_from_create_payment,
}
use nova_pay.Store.Frame.{update_order_lem, find_order-update, after_order_update}
use nova_pay.Store.Monad.{Result, ok, err, is_order, update_order, continue, raise}
use nova_pay.Store.Schema.{PaymentOrder}
use nova_pay.Store.World.{Env, World, Error, CreatePaymentResult}

find-prefix :
    {A : Type 0} (p : A → Bool) (xs : List A) (y x : A)
    → find p xs ≡ some x
    → find p (xs ++ y ∷ []) ≡ some x
unfolding find
find-prefix p [] y x e = cc
find-prefix p (z ∷ xs) y x e = ground (arith, find-prefix p xs y x)

-- A request for an order keeps every paid order paid, where no order has one of the ids that new rows
-- get and no other call runs meanwhile.
pub create-IsPaid :
    (id : String) (env : Env) (input : CreatePaymentOrderInput) (w : World)
    → ((t : ℕ) → find (is_order (env.fresh t)) w.orders ≡ none)
    → IsPaid id w
    → IsPaid id (create_payment_order env input w).1
unfolding create_payment_order Added
create-IsPaid id env input w fresh (o, e, paid) =
    after (create_payment_order env input w) (create-Added env input w fresh)
  where
    same : (w' : World) → w'.orders ≡ w.orders → IsPaid id w'
    same w' h = (o, subst (λ l. find (is_order id) l ≡ some o) (sym h) e, paid)

    added : (w' : World) (y : PaymentOrder) → w'.orders ≡ w.orders ++ y ∷ [] → IsPaid id w'
    added w' y h = (
      o,
      subst (λ l. find (is_order id) l ≡ some o) (sym h) (find-prefix (is_order id) w.orders y o e),
      paid,
    )

    after : (p : Result CreatedPaymentOrder × World) → Added input w.orders p → IsPaid id p.1
    after (ok r, w') (inl (c, h, f)) = same w' h
    after (ok r, w') (inr (c, h, f, i, j, k, l)) = added w' r.order h
    after (err x, w') (inl h) = same w' h
    after (err x, w') (inr (y, h, f)) = added w' y h

-- An update that writes another status undoes the payment.
update_undoes :
    (env : Env) (id : String) (f : PaymentOrder → PaymentOrder) (w : World)
    → ((y : PaymentOrder) → (f y).id ≡ y.id)
    → ((y : PaymentOrder) → (f y).status ≢ succeeded)
    → IsPaid id w
    → ¬ IsPaid id (update_order env id f w).1
update_undoes env id f w keeps writes (o, e, paid) now =
    overwritten (subst (λ p. IsPaid id p.1) (update_order_lem env id f w o e) now)
  where
    overwritten : ¬ IsPaid id (after_order_update env id f w)
    overwritten (y, e', s) =
        writes o
          (ap (λ x. (get_or x o).status) (sym (find_order-update env id f w o keeps e) ∙ e') ∙ s)

not_succeeded : (s : CreatedStatus) → status_from_create_payment s ≢ succeeded
unfolding status_from_create_payment
not_succeeded requires_action e = cc
not_succeeded now_processing e = cc

-- If an order is paid while createPaymentOrder waits for the provider, what is recorded then undoes the
-- payment: the order is not paid after the answer is recorded, where the answer has no quote, nor after
-- an error is recorded.
pub late-undoes :
    (env : Env) (input : CreatePaymentOrderInput) (id : String) (p : CreatePaymentResult)
    (e : Error) (w : World)
    → IsPaid id w
    → get_quoted_payment_fields env p.provider_payload ≡ none
    → (¬ IsPaid id (record_created env input id p w).1)
      × (¬ IsPaid id (record_create_failed env id e w).1)
unfolding record_created record_create_failed quote_columns answered_row failed_row
late-undoes env input id p e w paid plain = (
  rw plain (
      update_undoes env id (answered_row input p none) w (λ y. refl) (λ y. not_succeeded p.status)
        paid),
  λ now. update_undoes env id (failed_row env e) w (λ y. refl) (λ y s. cc) paid (failing now),
)
  where
    same_world :
        (q : Result PaymentOrder × World)
        → (continue (λ _. raise {A = CreatedPaymentOrder} e) q).1 ≡ q.1
    same_world (ok o, w') = refl
    same_world (err x, w') = refl

    failing :
        IsPaid id (record_create_failed env id e w).1
        → IsPaid id (update_order env id (failed_row env e) w).1
    failing = subst (IsPaid id) (same_world (update_order env id (failed_row env e) w))
