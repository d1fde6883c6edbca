-- ===== src/Orders/Notify/Amount.antt =====
-- lib/orders/service.ts, assertPaymentNotificationAmountMatches. Amounts are millionths; the source
-- compares doubles.
use nova_pay.Base.{
  ℕ, ◌≤◌, ◌≡◌, ◌≢◌, String, Bool, not, Option, none, some, [], ◌∷◌, str_eq, ltb, arith,
  if◌then◌else◌, Bool-cases, refl, subst, eq_iff, inl, inr,
}
use nova_pay.Base.Int.{ℤ, pos, distance}
use nova_pay.Base.Text.{is_one_of}
use nova_pay.Store.World.{
  Env, Error, app, amount_validation_config_invalid, amount_required, invalid_amount,
  amount_mismatch,
}
use nova_pay.Callbacks.Dispatch.{present}

-- Where no amount came: what the setting, or else the environment, asks for.
unfoldable pub missing_amount : Env → Bool → Option Error
missing_amount env require =
    let configured = env.require_notification_amount in
    let required : Option Error = some (app amount_required 400) in
    if not require
    then none
    else if is_one_of ("1" ∷ "TRUE" ∷ "YES" ∷ []) configured
    then required
    else if is_one_of ("0" ∷ "FALSE" ∷ "NO" ∷ []) configured
    then none
    else if not (str_eq configured "")
    then some (app amount_validation_config_invalid 500)
    else if env.is_dev_like
    then none
    else required

compare_amount : ℕ → Option ℤ → Option Error
compare_amount expected none = some (app invalid_amount 400)
compare_amount expected (some actual) =
    if ltb 10000 (distance (pos expected) actual) then some (app amount_mismatch 409) else none

check_present : Env → ℕ → Option String → Bool → Option Error
unfolding compare_amount
check_present env expected none require = missing_amount env require
check_present env expected (some actual) require = compare_amount expected (env.amount_of actual)

-- The error that is thrown, or none if the notification may be applied.
unfoldable pub assert_payment_notification_amount_matches :
    Env → ℕ → Option String → Bool → Option Error
unfolding check_present
assert_payment_notification_amount_matches env expected actual require =
    check_present env expected (present actual) require

compare_amount-accepts :
    (expected : ℕ) (amount : Option ℤ)
    → compare_amount expected amount ≡ none
    → (actual : ℤ) × (amount ≡ some actual) × (distance (pos expected) actual ≤ 10000)
unfolding compare_amount
compare_amount-accepts expected none h = cc
compare_amount-accepts expected (some actual) h = (actual, refl, ground arith)

present-some : (raw : String) → raw ≢ "" → present (some raw) ≡ some raw
present-some raw ne = elim (Bool-cases (str_eq raw "")) [
  | inl t ↦ absurd (ne ((eq_iff raw "").0 t))
  | inr f ↦ rw f
]

-- A notification whose amount is given is accepted only if that is a finite number within a cent of
-- what the order expects.
pub amount_matches-accepts :
    (env : Env) (expected : ℕ) (raw : String) (require : Bool)
    → raw ≢ ""
    → assert_payment_notification_amount_matches env expected (some raw) require ≡ none
    → (actual : ℤ) × (env.amount_of raw ≡ some actual) × (distance (pos expected) actual ≤ 10000)
unfolding assert_payment_notification_amount_matches
amount_matches-accepts env expected raw require ne h =
    compare_amount-accepts expected (env.amount_of raw)
      (subst (λ p. check_present env expected p require ≡ none) (present-some raw ne) h)
