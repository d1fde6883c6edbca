-- ===== src/Orders/Slots.antt =====
-- lib/orders/service.ts, allocateCtfPayableAmount: on a channel whose payments are told apart by their
-- amount alone, a new order gets an amount that no open order of the account has.
pub mod Laws
use nova_pay.Base.{
  ℕ, zero, suc, ◌+◌, ◌/◌, String, Bool, true, false, not, ◌&&◌, ◌||◌, Option, none, some, List, [],
  ◌∷◌, str_eq, ◌==◌, is_some, keep, if◌then◌else◌,
}
use mathlib.Core.List.{map}
use nova_pay.Base.Int.{ℤ, pos, negsuc}
use nova_pay.Orders.Status.{pending, processing, ◌is◌}
use nova_pay.Store.Schema.{PaymentOrder}
use nova_pay.Store.World.{Env, World, app, ctf_unique_amount_exhausted}
use nova_pay.Store.Monad.{Action, Result, ok, err, ◌>>=◌, pure, raise, gets}
use nova_pay.Payments.ChannelCodes.{is_ctf_bill_capture_channel_code}
use nova_pay.Callbacks.Dispatch.{present}

-- The amount as it was given, or a slot in cents.
pub data PayableAmount : Type 0 where
  given : String → PayableAmount
  slot : ℕ → PayableAmount

-- `Math.round(amount * 100)` of millionths
abbrev pub round_cents : ℕ → ℕ
round_cents millionths = (millionths + 5000) / 10000

-- `order.payableAmount ?? order.amount`, rounded
abbrev pub used_cents : PaymentOrder → ℕ
used_cents o = elim o.payable_amount [ none ↦ o.amount | some p ↦ round_cents p ]

-- The open orders of the account on the channel, in the currency.
unfoldable pub is_active : String → String → String → PaymentOrder → Bool
is_active account channel currency o =
    elim o.merchant_channel_account_id [ none ↦ false | some a ↦ str_eq a account ]
    && (str_eq o.channel_code channel
        && (str_eq o.currency currency && (o.status is pending || o.status is processing)))

unfoldable pub is_used : ℕ → List PaymentOrder → Bool
is_used cents [] = false
is_used cents (o ∷ os) = used_cents o == cents || is_used cents os

-- The loop over the offsets; the second number is how many are left.
unfoldable pub first_free : List PaymentOrder → ℕ → ℕ → Option ℕ
first_free active cents zero = none
first_free active cents (suc n) =
    let rest = first_free active (cents + 1) n in if is_used cents active then rest else some cents

unfoldable pub slot_or_exhausted : Option ℕ → Action PayableAmount
slot_or_exhausted none = raise (app ctf_unique_amount_exhausted 409)
slot_or_exhausted (some cents) = pure (slot cents)

unfoldable pub allocate_slot : String → String → String → ℕ → Action PayableAmount
unfolding slot_or_exhausted
allocate_slot account channel currency base_cents = do
  active ← gets (λ w. keep (is_active account channel currency) w.orders)
  slot_or_exhausted (first_free active base_cents 100)

unfoldable pub allocate_positive :
    String → String → String → String → Option ℤ → Action PayableAmount
unfolding allocate_slot
allocate_positive account channel currency raw none = pure (given raw)
allocate_positive account channel currency raw (some (negsuc n)) = pure (given raw)
allocate_positive account channel currency raw (some (pos n)) =
    if n == 0 then pure (given raw) else allocate_slot account channel currency (round_cents n)

unfoldable pub allocate_for_account :
    Env → String → String → String → Option String → Action PayableAmount
unfolding allocate_positive
allocate_for_account env channel currency raw none = pure (given raw)
allocate_for_account env channel currency raw (some account) =
    if not (is_ctf_bill_capture_channel_code env channel)
    then pure (given raw)
    else allocate_positive account channel currency raw (env.amount_of raw)

unfoldable pub allocate_ctf_payable_amount :
    Env → Option String → String → String → String → Action PayableAmount
unfolding allocate_for_account
allocate_ctf_payable_amount env account_id channel currency raw =
    allocate_for_account env channel currency raw (present account_id)
