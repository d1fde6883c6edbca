-- ===== src/Store/Ends.antt =====
-- What holds when a call has returned. A call that throws satisfies nothing.
use nova_pay.Base.{◌≡◌, Bool, true, false, if◌then◌else◌}
use nova_pay.Store.World.{World}
use nova_pay.Store.Monad.{Action, Result, ok, err}

module _ {A : Type 0} where
  abbrev pub Ends : (A → World → Type 0) → Result A × World → Type 0
  Ends P (ok a, w) = P a w
  Ends P (err e, w) = ⊥

  -- What holds of both branches.
  pub either_if :
      (P : Result A × World → Type 0) (b : Bool) (x y : Action A) (w : World)
      → P (x w)
      → P (y w)
      → P ((if b then x else y) w)
  either_if P true x y w h k = h
  either_if P false x y w h k = k

  -- A call that changes nothing if it throws.
  abbrev pub Atomic : (A → World → Type 0) → World → Result A × World → Type 0
  Atomic P before (ok a, w) = P a w
  Atomic P before (err e, w) = w ≡ before

  pub Atomic-mono :
      (P Q : A → World → Type 0) (before : World) (p : Result A × World)
      → ((a : A) (w : World) → P a w → Q a w)
      → Atomic P before p
      → Atomic Q before p
  Atomic-mono P Q before (ok a, w) f h = f a w h
  Atomic-mono P Q before (err e, w) f h = h

  pub Atomic-if :
      (P : A → World → Type 0) (before : World) (b : Bool) (x y : Action A) (w : World)
      → Atomic P before (x w)
      → Atomic P before (y w)
      → Atomic P before ((if b then x else y) w)
  Atomic-if P before true x y w h k = h
  Atomic-if P before false x y w h k = k
