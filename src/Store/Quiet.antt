-- ===== src/Store/Quiet.antt =====
-- Calls that leave the orders as they are, and what follows them.
use nova_pay.Base.{◌≡◌, refl, ◌∙◌, Bool, true, false, Option, none, some, List, if◌then◌else◌}
use nova_pay.Store.Schema.{PaymentOrder}
use nova_pay.Store.World.{World, Error}
use nova_pay.Store.Monad.{Action, Result, ok, err, continue, ◌>>=◌, raise_if, refuse}

module _ {A : Type 0} where
  abbrev pub Quiet : Action A → Type 0
  Quiet m = (w : World) → (m w).1.orders ≡ w.orders

  pub Quiet-if : (b : Bool) (x y : Action A) → Quiet x → Quiet y → Quiet (if b then x else y)
  Quiet-if true x y h k = h
  Quiet-if false x y h k = k

pub raise_if-Quiet : (b : Bool) (e : Error) → Quiet (raise_if b e)
raise_if-Quiet true e w = refl
raise_if-Quiet false e w = refl

pub refuse-Quiet : (refusal : Option Error) → Quiet (refuse refusal)
refuse-Quiet none w = refl
refuse-Quiet (some e) w = refl

module _ {A B : Type 0} where
  pub Quiet->>= :
      (m : Action A) (f : A → Action B) → Quiet m → ((a : A) → Quiet (f a)) → Quiet (m >>= f)
  Quiet->>= m f h k w = go (m w) (h w)
    where
      go : (p : Result A × World) → p.1.orders ≡ w.orders → (continue f p).1.orders ≡ w.orders
      go (ok a, w') e = k a w' ∙ e
      go (err x, w') e = e

  -- What holds of each end, holds after a quiet call.
  pub after_quiet :
      (P : Result B × World → Type 0) (os : List PaymentOrder) (m : Action A) (f : A → Action B)
      → Quiet m
      → ((e : Error) (w : World) → w.orders ≡ os → P (err e, w))
      → ((a : A) (w : World) → w.orders ≡ os → P (f a w))
      → (w : World) → w.orders ≡ os
      → P ((m >>= f) w)
  after_quiet P os m f quiet refused next w h = go (m w) (quiet w ∙ h)
    where
      go : (p : Result A × World) → p.1.orders ≡ os → P (continue f p)
      go (ok a, w') e = next a w' e
      go (err x, w') e = refused x w' e
