-- ===== src/Orders/Create/Quote.antt =====
-- lib/orders/service.ts, getQuotedPaymentFields and buildPaymentExpireAt: what a provider quotes for a
-- payment, and how long it may take.
use nova_pay.Base.{
  ℕ, ◌+◌, ◌*◌, String, Bool, false, ◌||◌, not, Option, none, some, or_else, is_some, str_eq,
  if◌then◌else◌,
}
use nova_pay.Base.Int.{ℤ}
use nova_pay.Base.Json.{Json, Fields, get_field}
use nova_pay.Store.World.{
  Env, usdt_quote_ttl_seconds, ctf_bill_order_expire_minutes, payment_expire_minutes,
}
use nova_pay.Store.Monad.{Action, ◌>>=◌, pure, read_clock}
use nova_pay.Callbacks.Config.{parse_positive_integer}
use nova_pay.Payments.ChannelCodes.{is_usdt_payment_channel_code, is_ctf_bill_capture_channel_code}

pub record QuotedPaymentFields : Type 0 where
  pub payable_amount : Option String
  pub payable_currency : Option String
  pub quote_rate : Option String
  pub quote_source : Option String
  pub quote_spread_bps : Option ℤ
  pub quote_expires_at : Option ℕ

-- `typeof value.key === "string" && value.key.trim()`
abbrev quoted_text : Env → String → Fields → Option String
quoted_text env key value = elim (get_field key value) [
  | some (Json.str s) ↦ if str_eq (env.trim s) "" then none else some s
  | _ ↦ none
]

abbrev trimmed : Env → Option String → Option String
trimmed env none = none
trimmed env (some s) = some (env.trim s)

-- An integer, whether it came as a number or as a text. A text that is none of it counts as given, but
-- is written as null.
abbrev spread_given : Env → Fields → Bool
spread_given env value = elim (get_field "quoteSpreadBps" value) [
  | some (Json.num n) ↦ is_some (env.integer_of n)
  | some (Json.str s) ↦ not (str_eq (env.trim s) "")
  | _ ↦ false
]

abbrev spread_value : Env → Fields → Option ℤ
spread_value env value = elim (get_field "quoteSpreadBps" value) [
  | some (Json.num n) ↦ env.integer_of n
  | some (Json.str s) ↦ if str_eq (env.trim s) "" then none else env.integer_of s
  | _ ↦ none
]

abbrev date_value : Env → Option String → Option ℕ
date_value env none = none
date_value env (some s) = env.date_of s

-- Nothing, if the provider quoted nothing: the columns then stay as they are.
unfoldable pub get_quoted_payment_fields : Env → Fields → Option QuotedPaymentFields
unfolding get_field
get_quoted_payment_fields env value =
    let amount = quoted_text env "quotedUsdtAmount" value in
    let currency = trimmed env (quoted_text env "tokenSymbol" value) in
    let rate = trimmed env (quoted_text env "quoteRate" value) in
    let source = trimmed env (quoted_text env "quoteSource" value) in
    let expires = quoted_text env "quoteExpiresAt" value in
    if is_some amount
      || (is_some currency
          || (is_some rate || (is_some source || (spread_given env value || is_some expires))))
    then some (record {
      payable_amount = amount;
      payable_currency = currency;
      quote_rate = rate;
      quote_source = source;
      quote_spread_bps = spread_value env value;
      quote_expires_at = date_value env expires;
    })
    else none

unfoldable pub build_payment_expire_at : Env → String → Action ℕ
build_payment_expire_at env channel = do
  now ← read_clock env
  pure (
      if is_usdt_payment_channel_code env channel
      then now + parse_positive_integer env (env.config usdt_quote_ttl_seconds) 900 * 1000
      else now
        + parse_positive_integer env
            (if is_ctf_bill_capture_channel_code env channel
              then or_else (env.config ctf_bill_order_expire_minutes)
                  (env.config payment_expire_minutes)
              else env.config payment_expire_minutes)
            30
          * 60000)
