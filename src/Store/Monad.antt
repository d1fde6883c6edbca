-- ===== src/Store/Monad.antt =====
-- A service call: it reads and writes the world, and returns or throws. What was written before a
-- throw stays written.
use nova_pay.Base.{ℕ, suc, String, Bool, Option, none, some, List, str_eq, if◌then◌else◌}
use nova_pay.Base.Rows.{find, update_where}
use nova_pay.Store.World.{World, Env, Error, Outcome, answered, threw, record_missing, thrown}
use nova_pay.Store.Schema.{Merchant, PaymentOrder, PaymentRefund}

pub data Result {ℓ} (A : Type ℓ) : Type ℓ where
  ok : A → Result A
  err : Error → Result A

abbrev pub Action {ℓ} : Type ℓ → Type ℓ
Action A = World → Result A × World

abbrev pub continue {ℓ κ} :
    {A : Type ℓ} {B : Type κ} → (A → Action B) → Result A × World → Result B × World
continue f (ok a, w) = f a w
continue f (err e, w) = (err e, w)

infixl 5 ◌>>=◌ ◌>>◌
abbrev pub ◌>>=◌ {ℓ κ} : {A : Type ℓ} {B : Type κ} → Action A → (A → Action B) → Action B
◌>>=◌ m f w = continue f (m w)

abbrev pub ◌>>◌ {ℓ κ} : {A : Type ℓ} {B : Type κ} → Action A → Action B → Action B
m >> k = m >>= λ _. k

module _ {ℓ} {A : Type ℓ} where
  abbrev pub pure : A → Action A
  pure a w = (ok a, w)

  abbrev pub raise : Error → Action A
  raise e w = (err e, w)

  abbrev pub gets : (World → A) → Action A
  gets f w = (ok (f w), w)

  -- `try { … } catch (error) { … }`
  abbrev pub recover : (Error → Action A) → Result A × World → Result A × World
  recover h (ok a, w) = (ok a, w)
  recover h (err e, w) = h e w

  abbrev pub catch : Action A → (Error → Action A) → Action A
  catch m h w = recover h (m w)

  -- One question to the surroundings.
  abbrev pub ask : (ℕ → A) → Action A
  ask f w = (ok (f w.ticks), record w { ticks = suc w.ticks })

  abbrev pub awaited : World → Outcome A → Result A × World
  awaited w (answered a) = (ok a, record w { ticks = suc w.ticks })
  awaited w (threw text) = (err (thrown text), record w { ticks = suc w.ticks })

  -- A promise that may be rejected.
  abbrev pub await : (ℕ → Outcome A) → Action A
  await f w = awaited w (f w.ticks)

abbrev pub read_clock : Env → Action ℕ
read_clock env = ask env.time

abbrev pub modify : (World → World) → Action (Unit {0})
modify f w = (ok tt, f w)

abbrev pub raise_if : Bool → Error → Action (Unit {0})
raise_if c e = if c then raise e else pure tt

abbrev pub refuse : Option Error → Action (Unit {0})
refuse none = pure tt
refuse (some e) = raise e

abbrev pub is_order : String → PaymentOrder → Bool
is_order id o = str_eq o.id id

abbrev pub find_order : String → World → Option PaymentOrder
find_order id w = find (is_order id) w.orders

abbrev pub find_merchant : String → World → Option Merchant
find_merchant id w = find (λ m. str_eq m.id id) w.merchants

abbrev pub is_refund : String → PaymentRefund → Bool
is_refund id r = str_eq r.id id

abbrev pub find_refund : String → World → Option PaymentRefund
find_refund id w = find (is_refund id) w.refunds

abbrev pub set_orders : List PaymentOrder → World → World
set_orders os w = record w { orders = os }

abbrev pub set_refunds : List PaymentRefund → World → World
set_refunds rs w = record w { refunds = rs }

write_order : String → (PaymentOrder → PaymentOrder) → Option PaymentOrder → Action PaymentOrder
write_order id written none w = (err record_missing, w)
write_order id written (some o) w =
    (ok (written o), set_orders (update_where (is_order id) written w.orders) w)

-- `prisma.paymentOrder.update`: it throws if there is no such row, and returns the new row. Prisma
-- sets `updatedAt`.
unfoldable pub update_order : Env → String → (PaymentOrder → PaymentOrder) → Action PaymentOrder
unfolding write_order
update_order env id f = do
  now ← read_clock env
  found ← gets (find_order id)
  write_order id (λ o. record (f o) { updated_at = now }) found

write_refund :
    String → (PaymentRefund → PaymentRefund) → Option PaymentRefund → Action PaymentRefund
write_refund id written none w = (err record_missing, w)
write_refund id written (some r) w =
    (ok (written r), set_refunds (update_where (is_refund id) written w.refunds) w)

-- `prisma.paymentRefund.update`
unfoldable pub update_refund : Env → String → (PaymentRefund → PaymentRefund) → Action PaymentRefund
unfolding write_refund
update_refund env id f = do
  now ← read_clock env
  found ← gets (find_refund id)
  write_refund id (λ r. record (f r) { updated_at = now }) found
