-- ===== src/EasyPay/Sign/Laws.antt =====
-- The signature does not depend on the order of the parameters, and what was signed is verified.
use Prim.Native.String
use nova_pay.Base.{
  ◌≡◌, ◌≢◌, refl, sym, ap, ◌∙◌, subst, String, Bool, true, false, not, ◌&&◌, Option, none, some,
  List, [], ◌∷◌, map, keep, str_eq, eq_iff, arith, if◌then◌else◌, Bool-cases, inl, inr,
}
use nova_pay.Base.Sort.{
  All, All-mono, All-sort_by, Reordered, same, swap, under, chain, sort_by, sort_by-Reordered,
  keep-Reordered,
}
use nova_pay.Base.Text.{text_le, text_le-IsOrder}
use nova_pay.EasyPay.Sign.{
  EasyPayParams, get_param, set_param, keys, is_meaningful, is_signed, is_excluded, has_value,
  print_param, join_and, build_easy_pay_sign_source, sign_easy_pay, verify_easy_pay_sign,
  with_easy_pay_signature, verify_provided,
}
use nova_pay.EasyPay.Sign.Params.{
  has_key, IsObject, get_param-set_param, set_param-IsObject, get_param-keep, keep-keys-set_param,
}

-- Two objects with the same values, where they are signed.
abbrev Agree : EasyPayParams → EasyPayParams → Type 0
Agree m m' =
    (k : String)
    → is_excluded k ≡ false
    → (is_meaningful (get_param k m) ≡ is_meaningful (get_param k m'))
      × (is_meaningful (get_param k m) ≡ true → get_param k m ≡ get_param k m')

keep_cong :
    (p q : String → Bool) (ks : List String) → ((k : String) → p k ≡ q k) → keep p ks ≡ keep q ks
keep_cong p q [] h = refl
keep_cong p q (k ∷ ks) h = ground (arith, h k, keep_cong p q ks h)

keep-All : (p : String → Bool) (ks : List String) → All (λ k. p k ≡ true) (keep p ks)
keep-All p [] = tt
keep-All p (k ∷ ks) = ground (arith, keep-All p ks)

map_cong :
    (f g : String → String) (ks : List String) → All (λ k. f k ≡ g k) ks → map f ks ≡ map g ks
map_cong f g [] h = refl
map_cong f g (k ∷ ks) (e, h) = cc (e, map_cong f g ks h)

is_signed-Agree :
    (m m' : EasyPayParams) → Agree m m' → (k : String) → is_signed m k ≡ is_signed m' k
is_signed-Agree m m' agree k = elim (Bool-cases (is_excluded k)) [
  | inl t ↦ rw t
  | inr f ↦ rw (f, (agree k f).0)
]

print_param-Agree :
    (m m' : EasyPayParams)
    → Agree m m'
    → (k : String) → is_signed m k ≡ true
    → print_param m k ≡ print_param m' k
print_param-Agree m m' agree k h = elim (Bool-cases (is_excluded k)) [
  | inl t ↦ cc (at t)
  | inr f ↦ rw ((agree k f).1 (at f)) refl
]
  where
    at : {b : Bool} → is_excluded k ≡ b → (not b && is_meaningful (get_param k m)) ≡ true
    at e = subst (λ b. (not b && is_meaningful (get_param k m)) ≡ true) e h

source-Agree :
    (m m' : EasyPayParams)
    → Agree m m'
    → Reordered (keep (is_signed m) (keys m)) (keep (is_signed m) (keys m'))
    → build_easy_pay_sign_source m ≡ build_easy_pay_sign_source m'
unfolding build_easy_pay_sign_source
source-Agree m m' agree r =
    ap (λ ks. join_and (map (print_param m) ks)) (sort_by-Reordered text_le text_le-IsOrder r)
    ∙ ap join_and (
        map_cong (print_param m) (print_param m') (sort_by text_le (keep (is_signed m) (keys m'))) (
          All-mono _ _ _ (print_param-Agree m m' agree)
            (All-sort_by _ text_le _ (keep-All (is_signed m) (keys m')))))
    ∙ ap (λ ks. join_and (map (print_param m') (sort_by text_le ks)))
        (keep_cong (is_signed m) (is_signed m') (keys m') (is_signed-Agree m m' agree))

-- Dropping the entries without a value drops no signed key.
dropped :
    (p : String → Bool) (m : EasyPayParams)
    → All (λ e. is_meaningful e.1 ≡ false → p e.0 ≡ false) m
    → keep p (keys (keep has_value m)) ≡ keep p (keys m)
unfolding keys
dropped p [] h = refl
dropped p ((k, v) ∷ m) (h, hs) = elim (Bool-cases (is_meaningful v)) [
  | inl t ↦ rw (t, dropped p m hs)
  | inr f ↦ rw (f, h f) (dropped p m hs)
]

later_entries :
    (k : String) (v : Option String) (m n : EasyPayParams)
    → has_key k n ≡ false
    → All (λ e. get_param e.0 m ≡ e.1) n
    → All (λ e. get_param e.0 ((k, v) ∷ m) ≡ e.1) n
unfolding get_param
later_entries k v m [] absent h = tt
later_entries k v m ((j, w) ∷ n) absent (e, h) =
    (ground (arith, eq_iff j k, eq_iff k j), later_entries k v m n (ground arith) h)

entries_read : (m : EasyPayParams) → IsObject m → All (λ e. get_param e.0 m ≡ e.1) m
unfolding get_param
entries_read [] h = tt
entries_read ((k, v) ∷ m) (absent, h) =
    (rw ((eq_iff k k).1 refl) refl, later_entries k v m m absent (entries_read m h))

and_false : (b : Bool) → (b && false) ≡ false
and_false true = refl
and_false false = refl

-- What is sent.
abbrev signed_form : EasyPayParams → String → EasyPayParams
signed_form m sig = set_param "sign" (some sig) (keep has_value m)

module _ (m : EasyPayParams) (h : IsObject m) (sig : String) where
  signed_form-Agree : Agree m (signed_form m sig)
  unfolding is_meaningful
  signed_form-Agree k e = (ground (arith, read), λ t. ground (arith, read))
    where
      apart : str_eq "sign" k ≡ false
      apart = ground (arith, eq_iff "sign" k, eq_iff k "sign")

      read :
          get_param k (set_param "sign" (some sig) (keep has_value m))
          ≡ (if is_meaningful (get_param k m) then get_param k m else none)
      read =
          get_param-set_param "sign" k (some sig) (keep has_value m)
          ∙ rw apart (get_param-keep k m h)

  source-signed_form : build_easy_pay_sign_source m ≡ build_easy_pay_sign_source (signed_form m sig)
  source-signed_form = source-Agree m (signed_form m sig) signed_form-Agree (
      subst (Reordered (keep (is_signed m) (keys m)))
        (sym (
          keep-keys-set_param (is_signed m) "sign" (some sig) (keep has_value m) refl
          ∙ dropped (is_signed m) m (All-mono _ _ m unsigned (entries_read m h))))
        (same (keep (is_signed m) (keys m))))
    where
      unsigned :
          (e : String × Option String)
          → get_param e.0 m ≡ e.1
          → is_meaningful e.1 ≡ false
          → is_signed m e.0 ≡ false
      unsigned (k, v) r f = rw (r, f) (and_false (not (is_excluded k)))

-- What was signed is verified with the same key, whatever the parameters are, a `sign` among them
-- included, if the digest is a text in small letters.
pub verify-with_signature :
    (md5 lower : String → String) (params : EasyPayParams) (key : String)
    → IsObject params
    → ((t : String) → lower (md5 t) ≡ md5 t)
    → ((t : String) → md5 t ≢ "")
    → verify_easy_pay_sign md5 lower (with_easy_pay_signature md5 params key) key ≡ true
unfolding verify_easy_pay_sign with_easy_pay_signature verify_provided
verify-with_signature md5 lower params key h low ne =
    rw
      (
        get_param-set_param "sign" "sign" (some sig) (keep has_value signed),
        low_sig,
        not_empty,
        sign_same,
      )
      ((eq_iff sig sig).1 refl)
  where
    signed : EasyPayParams
    signed = set_param "sign_type" (some "MD5") params

    sig : String
    sig = sign_easy_pay md5 signed key

    low_sig : lower sig ≡ sig
    low_sig = unfold sign_easy_pay in low (String.◌++◌ (build_easy_pay_sign_source signed) key)

    not_nil : sig ≢ ""
    not_nil = unfold sign_easy_pay in ne (String.◌++◌ (build_easy_pay_sign_source signed) key)

    not_empty : str_eq sig "" ≡ false
    not_empty = elim (Bool-cases (str_eq sig "")) [
      | inl t ↦ absurd (not_nil ((eq_iff sig "").0 t))
      | inr f ↦ f
    ]

    sign_same : sign_easy_pay md5 (set_param "sign" (some sig) (keep has_value signed)) key ≡ sig
    sign_same =
        unfold sign_easy_pay in
        ap (λ t. md5 (String.◌++◌ t key))
          (sym
            (source-signed_form signed (set_param-IsObject "sign_type" (some "MD5") params h) sig))

has_key-Reordered :
    {m m' : EasyPayParams} (k : String) → Reordered m m' → has_key k m ≡ has_key k m'
has_key-Reordered k (same m) = refl
has_key-Reordered k (swap (i, v) (j, w) m) = ground arith
has_key-Reordered k (under (i, v) r) = ground (arith, has_key-Reordered k r)
has_key-Reordered k (chain r s) = has_key-Reordered k r ∙ has_key-Reordered k s

Reordered-IsObject : {m m' : EasyPayParams} → Reordered m m' → IsObject m → IsObject m'
Reordered-IsObject (same m) h = h
Reordered-IsObject (swap (i, v) (j, w) m) (first, (second, h)) =
    (ground (arith, eq_iff i j, eq_iff j i), (ground arith, h))
Reordered-IsObject (under (i, v) r) (absent, h) =
    (sym (has_key-Reordered i r) ∙ absent, Reordered-IsObject r h)
Reordered-IsObject (chain r s) h = Reordered-IsObject s (Reordered-IsObject r h)

read-Reordered :
    {m m' : EasyPayParams} (k : String)
    → Reordered m m'
    → IsObject m
    → get_param k m ≡ get_param k m'
unfolding get_param
read-Reordered k (same m) h = refl
read-Reordered k (swap (i, v) (j, w) m) (absent, h) =
    ground (arith, eq_iff i k, eq_iff j k, eq_iff j i)
read-Reordered k (under (i, v) r) (absent, h) = ground (arith, read-Reordered k r h)
read-Reordered k (chain r s) h = read-Reordered k r h ∙ read-Reordered k s (Reordered-IsObject r h)

keys-Reordered : {m m' : EasyPayParams} → Reordered m m' → Reordered (keys m) (keys m')
unfolding keys
keys-Reordered (same m) = same (keys m)
keys-Reordered (swap (i, v) (j, w) m) = swap i j (keys m)
keys-Reordered (under (i, v) r) = under i (keys-Reordered r)
keys-Reordered (chain r s) = chain (keys-Reordered r) (keys-Reordered s)

-- Whatever the order of the parameters, the signature is the same.
pub sign-Reordered :
    (md5 : String → String) (params params' : EasyPayParams) (key : String)
    → IsObject params
    → Reordered params params'
    → sign_easy_pay md5 params key ≡ sign_easy_pay md5 params' key
unfolding sign_easy_pay
sign-Reordered md5 params params' key h r =
    ap (λ t. md5 (String.◌++◌ t key))
      (source-Agree params params'
        (λ k e. (ap is_meaningful (read-Reordered k r h), λ t. read-Reordered k r h))
        (keep-Reordered (is_signed params) (keys-Reordered r)))
