-- ===== src/Orders/Paid.antt =====
-- A paid order stays paid, whatever any service does to any order. `Keeps m` says that of a call;
-- it holds of a sequence, a branch and a handler if it holds of their parts.
pub mod Services
pub mod Lookup
use nova_pay.Base.{
  ℕ, suc, ◌≡◌, refl, sym, subst, ap, ◌∙◌, String, Bool, true, false, not, ◌&&◌, Option, none, some,
  List, arith, if◌then◌else◌, Bool-cases, Option-cases, inl, inr, str_eq,
}
use nova_pay.Base.Rows.{find, update_where, find-update_if}
use nova_pay.Orders.Status.{succeeded, ◌is◌}
use nova_pay.Store.Schema.{PaymentOrder}
use nova_pay.Store.World.{Env, World, Outcome, answered, threw, Error}
use nova_pay.Store.Monad.{
  Action, Result, ok, err, continue, ◌>>=◌, recover, catch, await, awaited, is_order, find_order,
  update_order,
}
use nova_pay.Store.Frame.{update_order_lem, update_order_missing, written_order}
use nova_pay.Callbacks.Claim.{
  ClaimInput, claim_where, claimed_row, claim_merchant_callback_dispatch,
}

module _ (id : String) where
  abbrev pub IsPaid : World → Type 0
  IsPaid w = (o : PaymentOrder) × (find_order id w ≡ some o) × (o.status ≡ succeeded)

  abbrev pub Keeps {ℓ} : {A : Type ℓ} → Action A → Type 0
  Keeps m = (w : World) → IsPaid w → IsPaid (m w).1

module _ (id : String) {A B : Type 0} where
  pub Keeps->>= :
      (m : Action A) (f : A → Action B)
      → Keeps id m
      → ((a : A) → Keeps id (f a))
      → Keeps id (m >>= f)
  Keeps->>= m f km kf w h = go (m w) (km w h)
    where
      go : (p : Result A × World) → IsPaid id p.1 → IsPaid id (continue f p).1
      go (ok a, w') k = kf a w' k
      go (err e, w') k = k

  -- The same from one world.
  pub Keeps->>=_at :
      (m : Action A) (f : A → Action B) (w : World)
      → ((a : A) → Keeps id (f a))
      → IsPaid id (m w).1
      → IsPaid id ((m >>= f) w).1
  Keeps->>=_at m f w kf h = go (m w) h
    where
      go : (p : Result A × World) → IsPaid id p.1 → IsPaid id (continue f p).1
      go (ok a, w') k = kf a w' k
      go (err e, w') k = k

module _ (id : String) {A : Type 0} where
  pub Keeps-catch :
      (m : Action A) (h : Error → Action A)
      → Keeps id m
      → ((e : Error) → Keeps id (h e))
      → Keeps id (catch m h)
  Keeps-catch m h km kh w p = go (m w) (km w p)
    where
      go : (q : Result A × World) → IsPaid id q.1 → IsPaid id (recover h q).1
      go (ok a, w') k = k
      go (err e, w') k = kh e w' k

  pub Keeps-if :
      (b : Bool) (x y : Action A) → Keeps id x → Keeps id y → Keeps id (if b then x else y)
  Keeps-if true x y kx ky = kx
  Keeps-if false x y kx ky = ky

  pub Keeps-await : (f : ℕ → Outcome A) → Keeps id (await f)
  Keeps-await f w h = go (f w.ticks)
    where
      go : (o : Outcome A) → IsPaid id (awaited w o).1
      go (answered a) = h
      go (threw text) = h

module _ (id : String) (env : Env) where
  -- An update that does not undo the payment of the row that it finds.
  pub update_order-Keeps :
      (k : String) (f : PaymentOrder → PaymentOrder) (w : World)
      → ((y : PaymentOrder) → (f y).id ≡ y.id)
      → ((y : PaymentOrder)
          → find_order id w ≡ some y
          → is_order k y ≡ true
          → y.status ≡ succeeded
          → (f y).status ≡ succeeded)
      → IsPaid id w
      → IsPaid id (update_order env k f w).1
  update_order-Keeps k f w keeps pays (o, e, paid) = elim (Option-cases (find_order k w)) [
    | inl missing ↦ rw (update_order_missing env k f w missing) (o, e, paid)
    | inr (x, found) ↦ rw (update_order_lem env k f w x found) (
      _,
      find-update_if (is_order id) (is_order k) (written_order env w f) w.orders o
          (λ y. ap (λ i. str_eq i id) (keeps y)) e,
      status_after,
    )
  ]
    where
      status_after : (if is_order k o then written_order env w f o else o).status ≡ succeeded
      status_after = elim (Bool-cases (is_order k o)) [
        | inl t ↦ rw t (pays o e t paid)
        | inr t ↦ rw t paid
      ]

  pub claim-Keeps : (input : ClaimInput) → Keeps id (claim_merchant_callback_dispatch env input)
  unfolding claim_merchant_callback_dispatch
  claim-Keeps input w (o, e, paid) = (
    _,
    find-update_if (is_order id) (claim_where input)
        (claimed_row input.lease_expires_at (env.time w.ticks)) w.orders o (λ y. refl) e,
    status_after (claim_where input o),
  )
    where
      status_after :
          (b : Bool)
          → (if b then claimed_row input.lease_expires_at (env.time w.ticks) o else o).status
            ≡ succeeded
      status_after true = paid
      status_after false = paid
