-- ===== src/Tests/EasyPay.antt =====
-- A signed request.
use nova_pay.Base.{◌≡◌, refl, true, String, some, [], ◌∷◌}
use nova_pay.Base.Sort.{swap}
use nova_pay.EasyPay.Sign.{
  EasyPayParams, sign_easy_pay, verify_easy_pay_sign, with_easy_pay_signature,
  build_easy_pay_sign_source, keys, get_param, is_meaningful, join_and,
}
use nova_pay.EasyPay.Sign.Laws.{sign-Reordered, verify-with_signature}
use nova_pay.Base.Sort.{sort_by}

abbrev params : EasyPayParams
params =
    ("pid", some "1001") ∷ ("money", some "2.00") ∷ ("sign", some "old") ∷ ("param", some "") ∷ []

abbrev params_reversed : EasyPayParams
params_reversed =
    ("money", some "2.00") ∷ ("pid", some "1001") ∷ ("sign", some "old") ∷ ("param", some "") ∷ []

-- A digest of one text.
abbrev digest : String → String
digest t = "d41d8cd98f00b204e9800998ecf8427e"

abbrev unchanged : String → String
unchanged t = t

source : build_easy_pay_sign_source params ≡ "money=2.00&pid=1001"
unfolding build_easy_pay_sign_source sort_by keys get_param is_meaningful join_and
source = refl

sign-Reordered_example :
    sign_easy_pay digest params "key" ≡ sign_easy_pay digest params_reversed "key"
sign-Reordered_example =
    sign-Reordered digest params params_reversed "key" (refl, (refl, (refl, (refl, tt))))
      (swap ("pid", some "1001") ("money", some "2.00")
        (("sign", some "old") ∷ ("param", some "") ∷ []))

verify-with_signature_example :
    verify_easy_pay_sign digest unchanged (with_easy_pay_signature digest params "key") "key" ≡ true
verify-with_signature_example =
    verify-with_signature digest unchanged params "key" (refl, (refl, (refl, (refl, tt))))
      (λ t. refl) (λ t e. cc)
