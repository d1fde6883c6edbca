-- ===== src/Payments/Routes/Laws.antt =====
-- The account that a new order goes to.
use nova_pay.Base.{
  ℕ, ◌≡◌, refl, ap, ◌∙◌, arith, keep, eq_iff, Bool-cases, Option-cases, inl, inr, str_eq, String,
  Option, none, some, not, true,
}
use nova_pay.Base.Rows.{All-find, find, find_sound}
use nova_pay.Base.Sort.{All-kept, All-sort_by, sort_by}
use nova_pay.Store.Schema.{MerchantChannelAccount, MerchantChannelBinding}
use nova_pay.Store.World.{World, Env}
use nova_pay.Payments.Routes.Limits.{Allows, binding_refusal-Allows}
use nova_pay.Store.Monad.{Result, ok, err, refuse}
use nova_pay.Store.Ends.{Atomic, Atomic-mono}
use nova_pay.Store.Quiet.{Quiet, Quiet->>=, Quiet-if, refuse-Quiet}
use nova_pay.Payments.Routes.{
  ResolvedMerchantChannelRoute, resolve_notify_url, is_candidate, newest_first, find_newest_account,
  route_by, binding_refusal, route_to_bound, route_to_newest, route_by_account, find_binding,
  select_by_binding, bound_fee_rate, bound_account, select_provider_account_for_order,
}

module _ (env : Env) where
  route_by-Quiet : (rate : Option ℕ) (a : MerchantChannelAccount) → Quiet (route_by env rate a)
  unfolding route_by resolve_notify_url
  route_by-Quiet rate a =
      Quiet->>= (resolve_notify_url env a) _
        (Quiet-if (not (env.supports_callback_route a.channel_code)) _ _ (λ w. refl)
          (Quiet-if _ _ _ (λ w. refl) (λ w. refl)))
        (λ u w. refl)

  bound-Quiet :
      (rate : Option ℕ) (a : Option MerchantChannelAccount) → Quiet (route_to_bound env rate a)
  unfolding route_to_bound
  bound-Quiet rate none = λ w. refl
  bound-Quiet rate (some a) = Quiet-if (not a.enabled) _ _ (λ w. refl) (route_by-Quiet rate a)

  newest-Quiet :
      (rate : Option ℕ) (a : Option MerchantChannelAccount) → Quiet (route_to_newest env rate a)
  unfolding route_to_newest
  newest-Quiet rate none = λ w. refl
  newest-Quiet rate (some a) = route_by-Quiet rate a

  by_account-Quiet :
      (merchant channel : String) (rate : Option ℕ) (id : Option String)
      → Quiet (route_by_account env merchant channel rate id)
  unfolding route_by_account
  by_account-Quiet merchant channel rate none w = newest-Quiet rate _ w
  by_account-Quiet merchant channel rate (some id) w = bound-Quiet rate _ w

  by_binding-Quiet :
      (merchant channel raw : String) (b : Option MerchantChannelBinding)
      → Quiet (select_by_binding env merchant channel raw b)
  unfolding select_by_binding
  by_binding-Quiet merchant channel raw b =
      Quiet->>= (refuse (binding_refusal (env.amount_of raw) b)) _
        (refuse-Quiet (binding_refusal (env.amount_of raw) b))
        (λ u. by_account-Quiet merchant channel (bound_fee_rate b) (bound_account b))

  pub select-Quiet :
      (merchant channel raw : String)
      → Quiet (select_provider_account_for_order env merchant channel raw)
  unfolding select_provider_account_for_order
  select-Quiet merchant channel raw w =
      by_binding-Quiet merchant channel raw (find_binding merchant channel w) w

-- What a route owes to the binding of the merchant and the channel: it allows the order, its fee rate is
-- the route's, and its account too, if it has one. If it has none, the account is the merchant's own, on
-- the channel. Either way the account is enabled.
unfoldable pub IsAccount : Option String → String → String → MerchantChannelAccount → Type 0
IsAccount none merchant channel a = (a.merchant_id ≡ merchant) × (a.channel_code ≡ channel)
IsAccount (some id) merchant channel a = a.id ≡ id

pub record IsRoute (env : Env) (merchant channel raw : String) (before : World)
    (route : ResolvedMerchantChannelRoute) (after : World) : Type 0 where
  pub unchanged : after ≡ before
  pub is_enabled : route.account.enabled ≡ true
  pub allowed : Allows (env.amount_of raw) (find_binding merchant channel before)
  pub fee_rate : route.fee_rate ≡ bound_fee_rate (find_binding merchant channel before)
  pub account :
      IsAccount
        (bound_account (find_binding merchant channel before))
        merchant
        channel
        route.account

module _ (env : Env) (merchant channel : String) where
  -- An answer for the given account and rate, or a refusal that changes nothing.
  abbrev Routed :
      Option ℕ
      → MerchantChannelAccount
      → World
      → Result ResolvedMerchantChannelRoute × World
      → Type 0
  Routed rate a w = Atomic (λ route w'. (w' ≡ w) × (route.account ≡ a) × (route.fee_rate ≡ rate)) w

  route_by-Routed :
      (rate : Option ℕ) (a : MerchantChannelAccount) (w : World)
      → Routed rate a w (route_by env rate a w)
  unfolding route_by resolve_notify_url
  route_by-Routed rate a w = elim (Bool-cases (not (env.supports_callback_route a.channel_code))) [
    | inl t ↦ rw t (refl, refl, refl)
    | inr t ↦ rw t (elim (Bool-cases (str_eq a.callback_token "")) [
      | inl u ↦ rw u refl
      | inr u ↦ rw u (refl, refl, refl)
    ])
  ]

  -- What holds of a route to the account, holds of the answer.
  routed :
      (P : ResolvedMerchantChannelRoute → World → Type 0) (rate : Option ℕ)
      (a : MerchantChannelAccount) (w : World) (p : Result ResolvedMerchantChannelRoute × World)
      → ((route : ResolvedMerchantChannelRoute) (w' : World)
          → w' ≡ w
          → route.account ≡ a
          → route.fee_rate ≡ rate
          → P route w')
      → Routed rate a w p
      → Atomic P w p
  routed P rate a w (ok route, w') f (e, e1, e2) = f route w' e e1 e2
  routed P rate a w (err x, w') f e = e

  newest_is_own :
      (w : World) (a : MerchantChannelAccount)
      → find_newest_account merchant channel w ≡ some a
      → is_candidate merchant channel a ≡ true
  unfolding find_newest_account
  newest_is_own w a =
      All-find (λ x. is_candidate merchant channel x ≡ true) (λ x. true)
        (sort_by newest_first (keep (is_candidate merchant channel) w.accounts)) a
        (All-sort_by (λ x. is_candidate merchant channel x ≡ true) newest_first
          (keep (is_candidate merchant channel) w.accounts)
          (All-kept (is_candidate merchant channel) w.accounts))

  candidate :
      (a : MerchantChannelAccount)
      → is_candidate merchant channel a ≡ true
      → (a.merchant_id ≡ merchant) × (a.channel_code ≡ channel) × (a.enabled ≡ true)
  unfolding is_candidate
  candidate a h = ground (arith, eq_iff a.merchant_id merchant, eq_iff a.channel_code channel)

  by_account :
      (raw : String) (rate : Option ℕ) (id : Option String) (w : World)
      → Atomic
          (λ route w'.
            (w' ≡ w)
            × (route.account.enabled ≡ true)
            × (route.fee_rate ≡ rate)
            × IsAccount id merchant channel route.account)
          w
          (route_by_account env merchant channel rate id w)
  unfolding route_by_account route_to_newest route_to_bound IsAccount
  by_account raw rate none w = elim (Option-cases (find_newest_account merchant channel w)) [
    | inl e ↦ rw e refl
    | inr (a, e) ↦ rw e (
        let (m, c, on) = candidate a (newest_is_own w a e) in
        routed _ rate a w (route_by env rate a w)
          (λ route w' k same same_rate. (
            k,
            ap (λ x. x.enabled) same ∙ on,
            same_rate,
            (ap (λ x. x.merchant_id) same ∙ m, ap (λ x. x.channel_code) same ∙ c),
          ))
          (route_by-Routed rate a w))
  ]
  by_account raw rate (some id) w = elim (Option-cases (find (λ a. str_eq a.id id) w.accounts)) [
    | inl e ↦ rw e refl
    | inr (a, e) ↦ rw e (elim (Bool-cases (not a.enabled)) [
      | inl off ↦ rw off refl
      | inr on ↦ rw on (
          routed _ rate a w (route_by env rate a w)
            (λ route w' k same same_rate. (
              k,
              ap (λ x. x.enabled) same ∙ ground (arith),
              same_rate,
              ap (λ x. x.id) same
                  ∙ (eq_iff a.id id).0 (find_sound (λ x. str_eq x.id id) w.accounts a e),
            ))
            (route_by-Routed rate a w))
    ])
  ]

-- The account that a new order is routed to is enabled, and the one that the merchant's binding on the
-- channel names; if there is no binding, or it names none, it is one of the merchant's own on the
-- channel. The binding, if there is one, is enabled, has the order's amount within its limits, where
-- that is a number, and names no account of the platform; its fee rate is the route's. A refusal changes
-- nothing, as an answer does not.
pub select-IsRoute :
    (env : Env) (merchant channel raw : String) (w : World)
    → Atomic
        (IsRoute env merchant channel raw w)
        w
        (select_provider_account_for_order env merchant channel raw w)
unfolding select_provider_account_for_order select_by_binding
select-IsRoute env merchant channel raw w =
    elim (Option-cases (binding_refusal (env.amount_of raw) (find_binding merchant channel w))) [
      | inl e ↦ rw e (
          Atomic-mono _ (IsRoute env merchant channel raw w) w
            (route_by_account env merchant channel
              (bound_fee_rate (find_binding merchant channel w))
              (bound_account (find_binding merchant channel w)) w)
            (λ route w' (same, on, rate, account). record {
              unchanged = same;
              is_enabled = on;
              allowed = binding_refusal-Allows _ _ e;
              fee_rate = rate;
              account = account;
            })
            (by_account env merchant channel raw _ _ w))
      | inr (x, e) ↦ rw e refl
    ]
