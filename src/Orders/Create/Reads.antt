-- ===== src/Orders/Create/Reads.antt =====
-- What createPaymentOrder does before its `create` changes no order.
use nova_pay.Base.{ℕ, ◌≡◌, refl, String, Option, none, some, List, [], ◌∷◌, str_eq}
use nova_pay.Base.Int.{ℤ, pos, negsuc}
use nova_pay.Base.Rows.{find}
use nova_pay.Merchants.Profile.{
  assert_merchant_can_create_orders, assert_merchant_profile_ready_for_orders, refuse_missing,
  refused_status, MerchantProfileFieldKey, get_merchant_profile_missing_fields_for_channel,
}
use nova_pay.Orders.Provider.{find_merchant_by_code, or_merchant_missing}
use nova_pay.Orders.Slots.{
  allocate_ctf_payable_amount, allocate_for_account, allocate_positive, allocate_slot,
  slot_or_exhausted, round_cents,
}
use nova_pay.Store.Schema.{Merchant, MerchantStatus, approved, awaiting_review, rejected, suspended}
use nova_pay.Store.World.{Env, World}
use nova_pay.Store.Quiet.{Quiet, Quiet-if}
use nova_pay.Orders.Create.Quote.{build_payment_expire_at}

module _ (env : Env) where
  slot-Quiet : (free : Option ℕ) → Quiet (slot_or_exhausted free)
  unfolding slot_or_exhausted
  slot-Quiet none = λ w. refl
  slot-Quiet (some n) = λ w. refl

  positive-Quiet :
      (account channel currency raw : String) (amount : Option ℤ)
      → Quiet (allocate_positive account channel currency raw amount)
  unfolding allocate_positive allocate_slot
  positive-Quiet account channel currency raw none = λ w. refl
  positive-Quiet account channel currency raw (some (negsuc n)) = λ w. refl
  positive-Quiet account channel currency raw (some (pos n)) =
      Quiet-if _ _ (allocate_slot account channel currency (round_cents n)) (λ w. refl)
        (λ w. slot-Quiet _ w)

  for_account-Quiet :
      (channel currency raw : String) (account : Option String)
      → Quiet (allocate_for_account env channel currency raw account)
  unfolding allocate_for_account
  for_account-Quiet channel currency raw none = λ w. refl
  for_account-Quiet channel currency raw (some account) =
      Quiet-if _ _ (allocate_positive account channel currency raw (env.amount_of raw)) (λ w. refl)
        (positive-Quiet account channel currency raw (env.amount_of raw))

  pub allocate-Quiet :
      (account : Option String) (channel currency raw : String)
      → Quiet (allocate_ctf_payable_amount env account channel currency raw)
  unfolding allocate_ctf_payable_amount
  allocate-Quiet account channel currency raw = for_account-Quiet channel currency raw _

  pub status-Quiet : (m : Merchant) → Quiet (assert_merchant_can_create_orders m)
  unfolding assert_merchant_can_create_orders refused_status
  status-Quiet m = of_status m.status
    where
      of_status : (s : MerchantStatus) → Quiet (refused_status s)
      of_status approved = λ w. refl
      of_status awaiting_review = λ w. refl
      of_status rejected = λ w. refl
      of_status suspended = λ w. refl

  pub profile-Quiet :
      (m : Merchant) (channel : String)
      → Quiet (assert_merchant_profile_ready_for_orders env m channel)
  unfolding assert_merchant_profile_ready_for_orders refuse_missing
  profile-Quiet m channel = missing (get_merchant_profile_missing_fields_for_channel env m channel)
    where
      missing : (keys : List MerchantProfileFieldKey) → Quiet (refuse_missing keys)
      missing [] = λ w. refl
      missing (key ∷ keys) = λ w. refl

  pub merchant-Quiet : (code : String) → Quiet (find_merchant_by_code code)
  unfolding find_merchant_by_code or_merchant_missing
  merchant-Quiet code = λ w. found w (find (λ m. str_eq m.code code) w.merchants)
    where
      found : (w : World) (m : Option Merchant) → (or_merchant_missing m w).1.orders ≡ w.orders
      found w none = refl
      found w (some m) = refl

  pub expire-Quiet : (channel : String) → Quiet (build_payment_expire_at env channel)
  unfolding build_payment_expire_at
  expire-Quiet channel = λ w. refl
