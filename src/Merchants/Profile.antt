-- ===== src/Merchants/Profile.antt =====
-- lib/merchant-profile-completion.ts, and the two checks of a merchant at the head of
-- createPaymentOrder in lib/orders/service.ts. The labels of the fields, which only the wording of the
-- error shows, are left out.
use nova_pay.Base.{
  String, Bool, not, ◌||◌, Option, some, get_or, List, [], ◌∷◌, str_eq, keep, if◌then◌else◌,
}
use nova_pay.Base.Text.{codes, starts_with}
use nova_pay.Store.Schema.{Merchant, MerchantStatus, awaiting_review, approved, rejected, suspended}
use nova_pay.Store.World.{
  Env, app, merchant_pending_review, merchant_rejected, merchant_suspended,
  merchant_profile_incomplete,
}
use nova_pay.Store.Monad.{Action, pure, raise}

pub data MerchantProfileFieldKey : Type 0 where
  name_key legal_name_key contact_name_key : MerchantProfileFieldKey
  contact_phone_key company_registration_id_key : MerchantProfileFieldKey

abbrev pub merchant_profile_field_order : List MerchantProfileFieldKey
merchant_profile_field_order =
    name_key ∷ legal_name_key ∷ contact_name_key ∷ contact_phone_key ∷ company_registration_id_key
    ∷ []

-- `merchant[field]`
abbrev pub profile_field : Merchant → MerchantProfileFieldKey → Option String
profile_field m name_key = some m.name
profile_field m legal_name_key = m.legal_name
profile_field m contact_name_key = m.contact_name
profile_field m contact_phone_key = m.contact_phone
profile_field m company_registration_id_key = m.company_registration_id

unfoldable pub has_text : Env → Option String → Bool
has_text env value = not (str_eq (env.trim (get_or value "")) "")

unfoldable pub is_pending_merchant_name : Env → String → Bool
unfolding starts_with
is_pending_merchant_name env name =
    starts_with (codes "__NOVAPAY_PENDING_PROFILE__") (codes (env.trim name))

unfoldable pub is_missing : Env → Merchant → MerchantProfileFieldKey → Bool
unfolding has_text is_pending_merchant_name
is_missing env m name_key = not (has_text env (some m.name)) || is_pending_merchant_name env m.name
is_missing env m key = not (has_text env (profile_field m key))

unfoldable pub get_merchant_profile_missing_keys : Env → Merchant → List MerchantProfileFieldKey
unfolding is_missing
get_merchant_profile_missing_keys env m = keep (is_missing env m) merchant_profile_field_order

unfoldable pub channel_requires_merchant_profile : String → Bool
channel_requires_merchant_profile channel =
    str_eq channel "alipay.page" || str_eq channel "wxpay.native"

unfoldable pub get_merchant_profile_missing_fields_for_channel :
    Env → Merchant → String → List MerchantProfileFieldKey
unfolding channel_requires_merchant_profile get_merchant_profile_missing_keys
get_merchant_profile_missing_fields_for_channel env m channel =
    if not (channel_requires_merchant_profile channel)
    then []
    else get_merchant_profile_missing_keys env m

unfoldable pub refused_status : MerchantStatus → Action (Unit {0})
refused_status approved = pure tt
refused_status awaiting_review = raise (app merchant_pending_review 403)
refused_status rejected = raise (app merchant_rejected 403)
refused_status suspended = raise (app merchant_suspended 403)

unfoldable pub assert_merchant_can_create_orders : Merchant → Action (Unit {0})
unfolding refused_status
assert_merchant_can_create_orders m = refused_status m.status

unfoldable pub refuse_missing : List MerchantProfileFieldKey → Action (Unit {0})
refuse_missing [] = pure tt
refuse_missing (key ∷ keys) = raise (app merchant_profile_incomplete 403)

unfoldable pub assert_merchant_profile_ready_for_orders :
    Env → Merchant → String → Action (Unit {0})
unfolding refuse_missing
assert_merchant_profile_ready_for_orders env m channel =
    refuse_missing (get_merchant_profile_missing_fields_for_channel env m channel)
