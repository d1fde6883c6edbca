-- ===== src/EasyPay/Sign/Params.antt =====
-- Parameters as a JavaScript object: each key once, and what a read sees of a write.
use nova_pay.Base.{
  ◌≡◌, refl, ◌∙◌, String, Bool, false, ◌||◌, Option, none, some, [], ◌∷◌, keep, str_eq, eq_iff,
  arith, if◌then◌else◌, Bool-cases, inl, inr,
}
use nova_pay.EasyPay.Sign.{EasyPayParams, get_param, set_param, keys, is_meaningful, has_value}

abbrev pub has_key : String → EasyPayParams → Bool
has_key k [] = false
has_key k ((j, v) ∷ m) = str_eq j k || has_key k m

-- Each key stands once.
abbrev pub IsObject : EasyPayParams → Type 0
IsObject [] = Unit
IsObject ((k, v) ∷ m) = (has_key k m ≡ false) × IsObject m

pub get_param-absent : (k : String) (m : EasyPayParams) → has_key k m ≡ false → get_param k m ≡ none
unfolding get_param
get_param-absent k [] h = refl
get_param-absent k ((j, v) ∷ m) h = ground (arith, get_param-absent k m)

pub get_param-set_param :
    (k j : String) (v : Option String) (m : EasyPayParams)
    → get_param j (set_param k v m) ≡ (if str_eq k j then v else get_param j m)
unfolding get_param set_param
get_param-set_param k j v [] = refl
get_param-set_param k j v ((i, w) ∷ m) =
    ground (arith, eq_iff k j, eq_iff i k, eq_iff i j, get_param-set_param k j v m)

has_key-set_param :
    (k j : String) (v : Option String) (m : EasyPayParams)
    → str_eq k j ≡ false
    → has_key j (set_param k v m) ≡ has_key j m
unfolding set_param
has_key-set_param k j v [] h = rw h
has_key-set_param k j v ((i, w) ∷ m) h =
    ground (arith, eq_iff k j, eq_iff i k, eq_iff i j, has_key-set_param k j v m)

pub set_param-IsObject :
    (k : String) (v : Option String) (m : EasyPayParams) → IsObject m → IsObject (set_param k v m)
unfolding set_param
set_param-IsObject k v [] h = (refl, tt)
set_param-IsObject k v ((j, w) ∷ m) (absent, h) = elim (Bool-cases (str_eq j k)) [
  | inl t ↦ rw t (absent, h)
  | inr f ↦ rw f (has_key-set_param k j v m (apart f) ∙ absent, set_param-IsObject k v m h)
]
  where
    apart : str_eq j k ≡ false → str_eq k j ≡ false
    apart f = ground (arith, eq_iff j k, eq_iff k j)

-- What is read after the entries without a value are dropped.
pub get_param-keep :
    (k : String) (m : EasyPayParams)
    → IsObject m
    → get_param k (keep has_value m)
      ≡ (if is_meaningful (get_param k m) then get_param k m else none)
unfolding get_param is_meaningful
get_param-keep k [] h = refl
get_param-keep k ((j, none) ∷ m) (absent, h) =
    ground (arith, eq_iff j k, get_param-keep k m h, get_param-absent k m)
get_param-keep k ((j, some v) ∷ m) (absent, h) =
    ground (arith, eq_iff j k, get_param-keep k m h, get_param-absent k m)

-- A write to a key that a test refuses does not show among the keys that it lets through.
pub keep-keys-set_param :
    (p : String → Bool) (k : String) (v : Option String) (m : EasyPayParams)
    → p k ≡ false
    → keep p (keys (set_param k v m)) ≡ keep p (keys m)
unfolding set_param keys
keep-keys-set_param p k v [] h = rw h
keep-keys-set_param p k v ((j, w) ∷ m) h = ground (arith, keep-keys-set_param p k v m h)
