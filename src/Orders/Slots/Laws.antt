-- ===== src/Orders/Slots/Laws.antt =====
-- The slot of a new order is free.
use nova_pay.Base.{
  ℕ, zero, suc, ◌+◌, ◌≤◌, ◌<◌, ◌≡◌, refl, String, Bool, true, false, ◌&&◌, Option, none, some, List,
  [], ◌∷◌, arith, ◌==◌, keep, Bool-cases, inl, inr,
}
use nova_pay.Base.Rows.{find}
use nova_pay.Store.Schema.{PaymentOrder}
use nova_pay.Store.World.{Error, World}
use nova_pay.Store.Monad.{ok, err}
use nova_pay.Orders.Slots.{
  slot, used_cents, is_active, is_used, first_free, slot_or_exhausted, allocate_slot,
}

first_free-free :
    (active : List PaymentOrder) (base n c : ℕ)
    → first_free active base n ≡ some c
    → (is_used c active ≡ false) × (base ≤ c) × (c < base + n)
unfolding first_free
first_free-free active base zero c e = cc
first_free-free active base (suc n) c e = ground (arith, first_free-free active (base + 1) n c)

unused-find :
    (p : PaymentOrder → Bool) (c : ℕ) (os : List PaymentOrder)
    → is_used c (keep p os) ≡ false
    → find (λ o. p o && (used_cents o == c)) os ≡ none
unfolding is_used find
unused-find p c [] h = refl
unused-find p c (o ∷ os) h = ground (arith, unused-find p c os)

-- A slot that is given to a new order is not the payable amount of any open order of the account on
-- the channel in the currency, and lies less than a hundred cents above the base amount.
pub allocate_slot-free :
    (account channel currency : String) (base c : ℕ) (w : World)
    → (allocate_slot account channel currency base w).0 ≡ ok (slot c)
    → (find (λ o. is_active account channel currency o && (used_cents o == c)) w.orders ≡ none)
      × (base ≤ c)
      × (c < base + 100)
unfolding allocate_slot slot_or_exhausted
allocate_slot-free account channel currency base c w h =
    let (free, low, high) =
      first_free-free (keep (is_active account channel currency) w.orders) base 100 c
        (chosen (first_free (keep (is_active account channel currency) w.orders) base 100) h) in
    (unused-find (is_active account channel currency) c w.orders free, low, high)
  where
    chosen : (x : Option ℕ) → (slot_or_exhausted x w).0 ≡ ok (slot c) → x ≡ some c
    chosen none e = cc
    chosen (some b) e = cc

first_free-full :
    (active : List PaymentOrder) (base n k : ℕ)
    → first_free active base n ≡ none
    → base ≤ k
    → k < base + n
    → is_used k active ≡ true
unfolding first_free
first_free-full active base zero k e low high = ground arith
first_free-full active base (suc n) k e low high = elim (Bool-cases (k == base)) [
  | inl same ↦ ground (arith, at_base same)
  | inr later ↦ ground (arith, first_free-full active (base + 1) n k)
]
  where
    at_base : (k == base) ≡ true → k ≡ base
    at_base same = ground arith

-- If the allocation of a slot fails, each of the hundred amounts from the base amount on is the
-- payable amount of an open order of the account on the channel in the currency.
pub allocate_slot-full :
    (account channel currency : String) (base k : ℕ) (w : World) (e : Error)
    → (allocate_slot account channel currency base w).0 ≡ err e
    → base ≤ k
    → k < base + 100
    → is_used k (keep (is_active account channel currency) w.orders) ≡ true
unfolding allocate_slot slot_or_exhausted
allocate_slot-full account channel currency base k w e h low high =
    first_free-full (keep (is_active account channel currency) w.orders) base 100 k
      (failed (first_free (keep (is_active account channel currency) w.orders) base 100) h) low high
  where
    failed : (x : Option ℕ) → (slot_or_exhausted x w).0 ≡ err e → x ≡ none
    failed none q = refl
    failed (some b) q = cc
