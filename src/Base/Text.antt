-- ===== src/Base/Text.antt =====
-- Prefixes and parts of a text, its test by a regular expression that is an alternation of literal
-- words, ignoring case, and the order of texts.
use Prim.Native.Nat.{ℕ, ◌-◌}
use Prim.Native.Char.{code}
use Prim.Native.String.{String}
use mathlib.Core.Bool.{Bool, true, false, ◌&&◌, ◌||◌}
use mathlib.Core.List.{List, [], ◌∷◌}
use mathlib.Core.Path.{◌≡◌, refl}
use native.Mathlib.Omega.{arith}
use text.Mathlib.TextEquality.{Char-path}
use nova_pay.Base.Tests.{ltb, leb, ◌==◌, if◌then◌else◌}
use nova_pay.Base.Sort.{IsOrder}

abbrev pub codes : String → List ℕ
codes String.[] = []
codes (String.◌∷◌ c s) = code c ∷ codes s

-- `text.startsWith(prefix)`
unfoldable pub starts_with : List ℕ → List ℕ → Bool
starts_with [] s = true
starts_with (p ∷ ps) [] = false
starts_with (p ∷ ps) (c ∷ s) = p == c && starts_with ps s

-- `text.includes(word)`
unfoldable pub includes : List ℕ → List ℕ → Bool
includes w [] = starts_with w []
includes w (c ∷ s) = starts_with w (c ∷ s) || includes w s

-- The `i` flag: the words hold ASCII letters, and only ASCII letters fold to them.
fold_case : ℕ → ℕ
fold_case c = if leb b'a' c && leb c b'z' then c - 32 else c

starts_with_folded : List ℕ → List ℕ → Bool
starts_with_folded [] s = true
starts_with_folded (w ∷ ws) [] = false
starts_with_folded (w ∷ ws) (c ∷ s) = w == fold_case c && starts_with_folded ws s

contains_folded : List ℕ → List ℕ → Bool
contains_folded w [] = starts_with_folded w []
contains_folded w (c ∷ s) = starts_with_folded w (c ∷ s) || contains_folded w s

-- `/A|B|C/i.test(s)`, for words in capitals
unfoldable pub mentions : List String → String → Bool
unfolding contains_folded starts_with_folded fold_case
mentions [] s = false
mentions (w ∷ ws) s = contains_folded (codes w) (codes s) || mentions ws s

equals_folded : List ℕ → List ℕ → Bool
equals_folded [] [] = true
equals_folded [] (c ∷ s) = false
equals_folded (w ∷ ws) [] = false
equals_folded (w ∷ ws) (c ∷ s) = w == fold_case c && equals_folded ws s

-- `/^(A|B|C)$/i.test(s)`, for words in capitals
unfoldable pub is_one_of : List String → String → Bool
unfolding equals_folded fold_case
is_one_of [] s = false
is_one_of (w ∷ ws) s = equals_folded (codes w) (codes s) || is_one_of ws s

-- Texts in the order of their characters, as `Array.prototype.sort` has them where all are ASCII.
abbrev pub codes_le : List ℕ → List ℕ → Bool
codes_le [] t = true
codes_le (c ∷ s) [] = false
codes_le (c ∷ s) (d ∷ t) = ltb c d || c == d && codes_le s t

abbrev pub text_le : String → String → Bool
text_le s t = codes_le (codes s) (codes t)

codes_le-total : (s t : List ℕ) → codes_le s t ≡ false → codes_le t s ≡ true
codes_le-total [] t h = cc
codes_le-total (c ∷ s) [] h = refl
codes_le-total (c ∷ s) (d ∷ t) h = ground (arith, codes_le-total s t)

codes_le-antisym : (s t : List ℕ) → codes_le s t ≡ true → codes_le t s ≡ true → s ≡ t
codes_le-antisym [] [] h k = refl
codes_le-antisym [] (d ∷ t) h k = cc
codes_le-antisym (c ∷ s) [] h k = cc
codes_le-antisym (c ∷ s) (d ∷ t) h k = ground (arith, codes_le-antisym s t)

codes_le_trans : (s t u : List ℕ) → codes_le s t ≡ true → codes_le t u ≡ true → codes_le s u ≡ true
codes_le_trans [] t u h k = refl
codes_le_trans (c ∷ s) [] u h k = cc
codes_le_trans (c ∷ s) (d ∷ t) [] h k = cc
codes_le_trans (c ∷ s) (d ∷ t) (e ∷ u) h k = ground (arith, codes_le_trans s t u)

codes_inj : (s t : String) → codes s ≡ codes t → s ≡ t
codes_inj String.[] String.[] h = refl
codes_inj String.[] (String.◌∷◌ d t) h = cc
codes_inj (String.◌∷◌ c s) String.[] h = cc
codes_inj (String.◌∷◌ c s) (String.◌∷◌ d t) h = cc (Char-path c d (cc), codes_inj s t (cc))

pub text_le-IsOrder : IsOrder text_le
text_le-IsOrder = record {
  total = λ s t. codes_le-total (codes s) (codes t);
  antisym = λ s t h k. codes_inj s t (codes_le-antisym (codes s) (codes t) h k);
  trans = λ s t u. codes_le_trans (codes s) (codes t) (codes u);
}
