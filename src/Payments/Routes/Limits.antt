-- ===== src/Payments/Routes/Limits.antt =====
-- What a binding asks of an order that is routed by it, apart from the checks in the code.
use nova_pay.Base.{
  ℕ, ◌*◌, ◌≡◌, refl, arith, String, Bool, true, false, not, Option, none, some, get_or, is_some,
  eq_iff, if◌then◌else◌,
}
use nova_pay.Base.Int.{ℤ, pos, negsuc, ◌≤ℤ◌, int_laws}
use nova_pay.Store.Schema.{MerchantChannelBinding}
use nova_pay.Store.World.{Error}
use nova_pay.Callbacks.Dispatch.{present}
use nova_pay.Payments.Routes.{is_below, is_above, binding_refusal}

-- The limits of a binding, on amounts in millionths.
unfoldable pub IsAtLeast : Option ℕ → ℤ → Type 0
IsAtLeast none amount = Unit
IsAtLeast (some least) amount = pos (least * 10000) ≤ℤ amount

unfoldable pub IsAtMost : Option ℕ → ℤ → Type 0
IsAtMost none amount = Unit
IsAtMost (some most) amount = amount ≤ℤ pos (most * 10000)

-- A text that is no number is held against no limit.
unfoldable pub IsWithin : MerchantChannelBinding → Option ℤ → Type 0
IsWithin b none = Unit
IsWithin b (some amount) = IsAtLeast b.min_amount amount × IsAtMost b.max_amount amount

-- What a binding, if there is one, must say for an order of the amount to be routed: it is enabled, the
-- amount is within its limits, and it names no account of the platform.
unfoldable pub Allows : Option ℤ → Option MerchantChannelBinding → Type 0
Allows amount none = Unit
Allows amount (some b) =
    (b.enabled ≡ true) × IsWithin b amount × (get_or b.provider_account_id "" ≡ "")

not_below :
    (limit : Option ℕ) (amount : ℤ)
    → elim limit [ none ↦ false | some m ↦ is_below (some amount) m ] ≡ false
    → IsAtLeast limit amount
unfolding is_below IsAtLeast
not_below none amount h = tt
not_below (some m) (pos n) h = ground arith
not_below (some m) (negsuc n) h = cc

not_above :
    (limit : Option ℕ) (amount : ℤ)
    → elim limit [ none ↦ false | some m ↦ is_above (some amount) m ] ≡ false
    → IsAtMost limit amount
unfolding is_above IsAtMost
not_above none amount h = tt
not_above (some m) (pos n) h = ground arith
not_above (some m) (negsuc n) h = omega int_laws

no_platform_account : (id : Option String) → is_some (present id) ≡ false → get_or id "" ≡ ""
no_platform_account none h = refl
no_platform_account (some s) h = ground (arith, eq_iff s "")

if_none :
    (c : Bool) (e : Error) (r : Option Error)
    → (if c then some e else r) ≡ none
    → (c ≡ false) × (r ≡ none)
if_none true e r h = cc
if_none false e r h = (refl, h)

pub binding_refusal-Allows :
    (amount : Option ℤ) (b : Option MerchantChannelBinding)
    → binding_refusal amount b ≡ none
    → Allows amount b
unfolding binding_refusal Allows IsWithin
binding_refusal-Allows amount none h = tt
binding_refusal-Allows amount (some b) h =
    let (enabled, h1) = if_none (not b.enabled) _ _ h in
    let (low, h2) = if_none _ _ _ h1 in
    let (high, h3) = if_none _ _ _ h2 in
    let (own, h4) = if_none _ _ _ h3 in
    (ground arith, within amount low high, no_platform_account b.provider_account_id own)
  where
    within :
        (x : Option ℤ)
        → elim b.min_amount [ none ↦ false | some m ↦ is_below x m ] ≡ false
        → elim b.max_amount [ none ↦ false | some m ↦ is_above x m ] ≡ false
        → IsWithin b x
    within none low high = tt
    within (some z) low high = (not_below b.min_amount z low, not_above b.max_amount z high)
