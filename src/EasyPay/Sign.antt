-- ===== src/EasyPay/Sign.antt =====
-- lib/easypay/sign.ts: the signature of the EasyPay protocol. An object is the list of its entries; a
-- number among its values stands by its text, and null and undefined are `none`. The digest is a
-- parameter, and so is `toLowerCase`. The order of keys is that of ASCII texts.
pub mod Params
pub mod Laws
use Prim.Native.String
use nova_pay.Base.{
  ℕ, String, Bool, true, false, not, ◌&&◌, ◌||◌, Option, none, some, get_or, List, [], ◌∷◌, map,
  keep, str_eq, if◌then◌else◌,
}
use nova_pay.Base.Sort.{sort_by}
use nova_pay.Base.Text.{text_le}

abbrev pub EasyPayParams : Type 0
EasyPayParams = List (String × Option String)

-- `params[key]`
unfoldable pub get_param : String → EasyPayParams → Option String
get_param k [] = none
get_param k ((j, v) ∷ m) = if str_eq j k then v else get_param k m

-- `{ ...params, key: value }`
unfoldable pub set_param : String → Option String → EasyPayParams → EasyPayParams
set_param k v [] = (k, v) ∷ []
set_param k v ((j, w) ∷ m) = if str_eq j k then (j, v) ∷ m else (j, w) ∷ set_param k v m

unfoldable pub keys : EasyPayParams → List String
keys [] = []
keys ((k, v) ∷ m) = k ∷ keys m

-- EXCLUDED_SIGN_KEYS
abbrev pub is_excluded : String → Bool
is_excluded key = str_eq key "sign" || str_eq key "sign_type"

unfoldable pub is_meaningful : Option String → Bool
is_meaningful none = false
is_meaningful (some value) = not (str_eq value "")

-- The keys that the two filters let through.
abbrev pub is_signed : EasyPayParams → String → Bool
is_signed params key = not (is_excluded key) && is_meaningful (get_param key params)

-- A key that is printed has a value.
abbrev pub print_param : EasyPayParams → String → String
print_param params key = String.◌++◌ key (String.◌++◌ "=" (get_or (get_param key params) ""))

-- `.join("&")`
unfoldable pub join_and : List String → String
join_and [] = ""
join_and (t ∷ []) = t
join_and (t ∷ u ∷ ts) = String.◌++◌ t (String.◌++◌ "&" (join_and (u ∷ ts)))

unfoldable pub build_easy_pay_sign_source : EasyPayParams → String
build_easy_pay_sign_source params =
    join_and (map (print_param params) (sort_by text_le (keep (is_signed params) (keys params))))

unfoldable pub sign_easy_pay : (String → String) → EasyPayParams → String → String
sign_easy_pay md5 params key = md5 (String.◌++◌ (build_easy_pay_sign_source params) key)

-- The comparison of the bytes is that of the texts.
unfoldable pub verify_provided : (String → String) → Option String → String → Bool
verify_provided lower none expected = false
verify_provided lower (some provided) expected =
    not (str_eq provided "") && str_eq expected (lower provided)

unfoldable pub verify_easy_pay_sign :
    (String → String) → (String → String) → EasyPayParams → String → Bool
unfolding verify_provided
verify_easy_pay_sign md5 lower params key =
    verify_provided lower (get_param "sign" params) (sign_easy_pay md5 params key)

abbrev pub has_value : String × Option String → Bool
has_value e = is_meaningful e.1

unfoldable pub with_easy_pay_signature : (String → String) → EasyPayParams → String → EasyPayParams
with_easy_pay_signature md5 params key =
    let signed = set_param "sign_type" (some "MD5") params in
    set_param "sign" (some (sign_easy_pay md5 signed key)) (keep has_value signed)
