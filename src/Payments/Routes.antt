-- ===== src/Payments/Routes.antt =====
-- lib/payments/provider-accounts.ts, selectProviderAccountForOrder: the account of the merchant that
-- carries a new order. An account is passed on as its row; its configuration is decrypted by the
-- provider that gets it.
pub mod Laws
pub mod Limits
use nova_pay.Base.{
  ℕ, ◌*◌, String, Bool, true, false, not, ◌&&◌, ◌||◌, Option, none, some, is_some, str_eq, ltb, leb,
  keep, if◌then◌else◌,
}
use nova_pay.Base.Int.{ℤ, pos, negsuc}
use nova_pay.Base.Rows.{find}
use nova_pay.Base.Sort.{sort_by}
use nova_pay.Store.Schema.{MerchantChannelAccount, MerchantChannelBinding}
use nova_pay.Store.World.{
  Env, World, Error, app, thrown, channel_disabled, amount_too_small, amount_too_large,
  account_not_found, account_disabled, channel_not_configured, legacy_platform_account_unsupported,
}
use nova_pay.Store.Monad.{Action, ◌>>=◌, ◌>>◌, pure, raise, refuse, gets}
use nova_pay.Callbacks.Dispatch.{present}

pub record ResolvedMerchantChannelRoute : Type 0 where
  pub account : MerchantChannelAccount
  pub fee_rate : Option ℕ
  pub notify_url : Option String

-- `amount < Number(limit)`: a number in millionths, or no number, against cents
unfoldable pub is_below : Option ℤ → ℕ → Bool
is_below none limit = false
is_below (some (pos n)) limit = ltb n (limit * 10000)
is_below (some (negsuc n)) limit = true

-- `amount > Number(limit)`
unfoldable pub is_above : Option ℤ → ℕ → Bool
is_above none limit = false
is_above (some (pos n)) limit = ltb (limit * 10000) n
is_above (some (negsuc n)) limit = false

unfoldable pub resolve_notify_url : Env → MerchantChannelAccount → Action (Option String)
resolve_notify_url env account =
    if not (env.supports_callback_route account.channel_code)
    then pure none
    else if str_eq account.callback_token ""
    then raise (thrown "Merchant channel callback route is not configured.")
    else pure (some (env.build_callback_url account.channel_code account.id account.callback_token))

unfoldable pub route_by :
    Env → Option ℕ → MerchantChannelAccount → Action ResolvedMerchantChannelRoute
unfolding resolve_notify_url
route_by env fee_rate account = do
  notify_url ← resolve_notify_url env account
  pure (record { account = account; fee_rate = fee_rate; notify_url = notify_url })

-- The checks of the binding, if there is one.
unfoldable pub binding_refusal : Option ℤ → Option MerchantChannelBinding → Option Error
unfolding is_below is_above
binding_refusal amount none = none
binding_refusal amount (some b) =
    if not b.enabled
    then some (app channel_disabled 422)
    else if elim b.min_amount [ none ↦ false | some m ↦ is_below amount m ]
    then some (app amount_too_small 422)
    else if elim b.max_amount [ none ↦ false | some m ↦ is_above amount m ]
    then some (app amount_too_large 422)
    else if is_some (present b.provider_account_id)
    then some (app legacy_platform_account_unsupported 422)
    else none

unfoldable pub route_to_bound :
    Env → Option ℕ → Option MerchantChannelAccount → Action ResolvedMerchantChannelRoute
unfolding route_by
route_to_bound env fee_rate none = raise (app account_not_found 422)
route_to_bound env fee_rate (some account) =
    if not account.enabled then raise (app account_disabled 422) else route_by env fee_rate account

-- The merchant's enabled accounts on the channel, the most recently updated first.
unfoldable pub is_candidate : String → String → MerchantChannelAccount → Bool
is_candidate merchant_id channel a =
    str_eq a.merchant_id merchant_id && (str_eq a.channel_code channel && a.enabled)

unfoldable pub newest_first : MerchantChannelAccount → MerchantChannelAccount → Bool
newest_first a b =
    ltb b.updated_at a.updated_at || leb b.updated_at a.updated_at && leb b.created_at a.created_at

unfoldable pub find_newest_account : String → String → World → Option MerchantChannelAccount
unfolding is_candidate newest_first
find_newest_account merchant_id channel w =
    find (λ a. true) (sort_by newest_first (keep (is_candidate merchant_id channel) w.accounts))

unfoldable pub route_to_newest :
    Env → Option ℕ → Option MerchantChannelAccount → Action ResolvedMerchantChannelRoute
unfolding route_by
route_to_newest env fee_rate none = raise (app channel_not_configured 422)
route_to_newest env fee_rate (some account) = route_by env fee_rate account

abbrev pub bound_account : Option MerchantChannelBinding → Option String
bound_account none = none
bound_account (some b) = present b.merchant_channel_account_id

-- `binding?.feeRate`
abbrev pub bound_fee_rate : Option MerchantChannelBinding → Option ℕ
bound_fee_rate none = none
bound_fee_rate (some b) = b.fee_rate

unfoldable pub route_by_account :
    Env → String → String → Option ℕ → Option String → Action ResolvedMerchantChannelRoute
unfolding route_to_bound route_to_newest find_newest_account
route_by_account env merchant_id channel fee_rate none =
    gets (find_newest_account merchant_id channel) >>= route_to_newest env fee_rate
route_by_account env merchant_id channel fee_rate (some id) =
    gets (λ w. find (λ a. str_eq a.id id) w.accounts) >>= route_to_bound env fee_rate

-- The unique key `merchantId_channelCode`.
unfoldable pub find_binding : String → String → World → Option MerchantChannelBinding
find_binding merchant_id channel w =
    find (λ b. str_eq b.merchant_id merchant_id && str_eq b.channel_code channel) w.bindings

unfoldable pub select_by_binding :
    Env
    → String
    → String
    → String
    → Option MerchantChannelBinding
    → Action ResolvedMerchantChannelRoute
unfolding binding_refusal route_by_account
select_by_binding env merchant_id channel raw binding =
    refuse (binding_refusal (env.amount_of raw) binding)
    >> route_by_account env merchant_id channel (bound_fee_rate binding) (bound_account binding)

unfoldable pub select_provider_account_for_order :
    Env → String → String → String → Action ResolvedMerchantChannelRoute
unfolding select_by_binding
select_provider_account_for_order env merchant_id channel raw =
    gets (find_binding merchant_id channel) >>= select_by_binding env merchant_id channel raw
