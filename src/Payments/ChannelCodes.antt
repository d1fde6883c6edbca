-- ===== src/Payments/ChannelCodes.antt =====
-- lib/payments/channel-codes.ts. `trim` is the runtime's String.prototype.trim.
use nova_pay.Base.{String, Bool, ◌||◌, str_eq, if◌then◌else◌}
use nova_pay.Store.World.{Env}

alias_of : String → String
alias_of code = if str_eq code "wechat.native" then "wxpay.native" else code

unfoldable pub normalize_payment_channel_code : Env → String → String
unfolding alias_of
normalize_payment_channel_code env code = alias_of (env.trim code)

unfoldable pub is_wxpay_native_channel_code : Env → String → Bool
is_wxpay_native_channel_code env code =
    str_eq (normalize_payment_channel_code env code) "wxpay.native"

unfoldable pub is_usdt_payment_channel_code : Env → String → Bool
is_usdt_payment_channel_code env code =
    let normalized = normalize_payment_channel_code env code in
    str_eq normalized "usdt.bsc" || (str_eq normalized "usdt.base" || str_eq normalized "usdt.sol")

unfoldable pub is_usdt_evm_channel_code : Env → String → Bool
is_usdt_evm_channel_code env code =
    let normalized = normalize_payment_channel_code env code in
    str_eq normalized "usdt.bsc" || str_eq normalized "usdt.base"

unfoldable pub is_usdt_solana_channel_code : Env → String → Bool
is_usdt_solana_channel_code env code = str_eq (normalize_payment_channel_code env code) "usdt.sol"

unfoldable pub is_ctf_bill_capture_channel_code : Env → String → Bool
is_ctf_bill_capture_channel_code env code =
    let normalized = normalize_payment_channel_code env code in
    str_eq normalized "ctf.alipay.monitor" || str_eq normalized "ctf.wxpay.monitor"
