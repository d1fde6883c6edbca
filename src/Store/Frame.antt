-- ===== src/Store/Frame.antt =====
-- What a single update does to the world.
use nova_pay.Base.{suc, ◌≡◌, refl, sym, subst, String, none, some, eq_iff}
use nova_pay.Base.Rows.{update_where, find-update_if, find_sound}
use nova_pay.Store.Schema.{PaymentOrder, PaymentRefund}
use nova_pay.Store.World.{World, Env, record_missing}
use nova_pay.Store.Monad.{
  ok, err, find_order, find_refund, is_order, is_refund, set_orders, set_refunds, update_order,
  update_refund,
}

-- The row that an update writes at the current tick.
abbrev pub written_order : Env → World → (PaymentOrder → PaymentOrder) → PaymentOrder → PaymentOrder
written_order env w f o = record (f o) { updated_at = env.time w.ticks }

abbrev pub written_refund :
    Env → World → (PaymentRefund → PaymentRefund) → PaymentRefund → PaymentRefund
written_refund env w f r = record (f r) { updated_at = env.time w.ticks }

abbrev pub after_order_update : Env → String → (PaymentOrder → PaymentOrder) → World → World
after_order_update env id f w =
    set_orders (update_where (is_order id) (written_order env w f) w.orders)
      (record w { ticks = suc w.ticks })

abbrev pub after_refund_update : Env → String → (PaymentRefund → PaymentRefund) → World → World
after_refund_update env id f w =
    set_refunds (update_where (is_refund id) (written_refund env w f) w.refunds)
      (record w { ticks = suc w.ticks })

-- An update of a row that is there returns the new row.
pub update_order_lem :
    (env : Env) (id : String) (f : PaymentOrder → PaymentOrder) (w : World) (o : PaymentOrder)
    → find_order id w ≡ some o
    → update_order env id f w ≡ (ok (written_order env w f o), after_order_update env id f w)
unfolding update_order
update_order_lem env id f w o e = rw e

pub update_refund_lem :
    (env : Env) (id : String) (f : PaymentRefund → PaymentRefund) (w : World) (r : PaymentRefund)
    → find_refund id w ≡ some r
    → update_refund env id f w ≡ (ok (written_refund env w f r), after_refund_update env id f w)
unfolding update_refund
update_refund_lem env id f w r e = rw e

-- The next read of that row sees what was written, if the update keeps the ids.
pub find_order-update :
    (env : Env) (id : String) (f : PaymentOrder → PaymentOrder) (w : World) (o : PaymentOrder)
    → ((y : PaymentOrder) → (f y).id ≡ y.id)
    → find_order id w ≡ some o
    → find_order id (after_order_update env id f w) ≡ some (written_order env w f o)
find_order-update env id f w o keeps e =
    rw
      (find-update_if (is_order id) (is_order id) (written_order env w f) w.orders o
        (λ y. rw (keeps y) refl) e)
      (rw (find_sound (is_order id) w.orders o e) refl)

-- A row found by an id has that id.
pub find_order-id :
    (id : String) (w : World) (o : PaymentOrder) → find_order id w ≡ some o → o.id ≡ id
find_order-id id w o e = (eq_iff o.id id).0 (find_sound (is_order id) w.orders o e)

pub find_order_self :
    (id : String) (w : World) (o : PaymentOrder)
    → find_order id w ≡ some o
    → find_order o.id w ≡ some o
find_order_self id w o e = subst (λ k. find_order k w ≡ some o) (sym (find_order-id id w o e)) e

pub find_refund-id :
    (id : String) (w : World) (r : PaymentRefund) → find_refund id w ≡ some r → r.id ≡ id
find_refund-id id w r e = (eq_iff r.id id).0 (find_sound (is_refund id) w.refunds r e)

pub update_order_missing :
    (env : Env) (id : String) (f : PaymentOrder → PaymentOrder) (w : World)
    → find_order id w ≡ none
    → update_order env id f w ≡ (err record_missing, record w { ticks = suc w.ticks })
unfolding update_order
update_order_missing env id f w e = rw e
