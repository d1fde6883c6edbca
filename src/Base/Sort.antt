-- ===== src/Base/Sort.antt =====
-- `ORDER BY` and `Array.prototype.sort`: a stable sort by a test of order; and `LIMIT`.
use Prim.Native.Nat.{ℕ, zero, suc}
use mathlib.Core.Path.{◌≡◌, refl, ap, ◌∙◌}
use mathlib.Core.Bool.{Bool, true, false}
use mathlib.Core.List.{List, [], ◌∷◌}
use native.Mathlib.Omega.{arith}
use mathlib.Core.Logic.{inl, inr}
use nova_pay.Base.Tests.{if◌then◌else◌, Bool-cases, keep}

module _ {ℓ} {A : Type ℓ} where
  abbrev pub insert_by : (A → A → Bool) → A → List A → List A
  insert_by le a [] = a ∷ []
  insert_by le a (x ∷ xs) = if le a x then a ∷ x ∷ xs else x ∷ insert_by le a xs

  unfoldable pub sort_by : (A → A → Bool) → List A → List A
  sort_by le [] = []
  sort_by le (x ∷ xs) = insert_by le x (sort_by le xs)

  abbrev pub take : ℕ → List A → List A
  take zero xs = []
  take (suc n) [] = []
  take (suc n) (x ∷ xs) = x ∷ take n xs

  -- A row of a table.
  pub data In (x : A) : List A → Type ℓ where
    front : {xs : List A} → In x (x ∷ xs)
    behind : {y : A} {xs : List A} → In x xs → In x (y ∷ xs)

  -- A property of every row.
  abbrev pub All {κ} : (A → Type κ) → List A → Type κ
  All P [] = Unit
  All P (x ∷ xs) = P x × All P xs

  pub All-In {κ} : (P : A → Type κ) (xs : List A) → ((x : A) → In x xs → P x) → All P xs
  All-In P [] h = tt
  All-In P (x ∷ xs) h = (h x front, All-In P xs (λ y i. h y (behind i)))

  pub All-kept : (p : A → Bool) (xs : List A) → All (λ x. p x ≡ true) (keep p xs)
  All-kept p [] = tt
  All-kept p (x ∷ xs) = elim (Bool-cases (p x)) [
    | inl t ↦ rw t (t, All-kept p xs)
    | inr t ↦ rw t (All-kept p xs)
  ]

  -- What holds of every row, holds of every row that a test selects, and so does the test.
  pub All-keep {κ} :
      (P : A → Type κ) (p : A → Bool) (xs : List A)
      → All P xs
      → All (λ x. P x × (p x ≡ true)) (keep p xs)
  All-keep P p [] h = tt
  All-keep P p (x ∷ xs) (q, h) = elim (Bool-cases (p x)) [
    | inl t ↦ rw t ((q, t), All-keep P p xs h)
    | inr t ↦ rw t (All-keep P p xs h)
  ]

  All-insert_by {κ} :
      (P : A → Type κ) (le : A → A → Bool) (a : A) (xs : List A)
      → P a
      → All P xs
      → All P (insert_by le a xs)
  All-insert_by P le a [] p h = (p, tt)
  All-insert_by P le a (x ∷ xs) p (q, h) = ground (arith, All-insert_by P le a xs p h)

  pub All-sort_by {κ} :
      (P : A → Type κ) (le : A → A → Bool) (xs : List A) → All P xs → All P (sort_by le xs)
  unfolding sort_by
  All-sort_by P le [] h = tt
  All-sort_by P le (x ∷ xs) (p, h) = All-insert_by P le x _ p (All-sort_by P le xs h)

  pub All-take {κ} : (P : A → Type κ) (n : ℕ) (xs : List A) → All P xs → All P (take n xs)
  All-take P zero xs h = tt
  All-take P (suc n) [] h = tt
  All-take P (suc n) (x ∷ xs) (p, h) = (p, All-take P n xs h)

  pub All-mono {κ μ} :
      (P : A → Type κ) (Q : A → Type μ) (xs : List A) → ((x : A) → P x → Q x) → All P xs → All Q xs
  All-mono P Q [] f h = tt
  All-mono P Q (x ∷ xs) f (p, h) = (f x p, All-mono P Q xs f h)

  -- A test that tells every two elements apart, one way round.
  pub record IsOrder (le : A → A → Bool) : Type ℓ where
    pub total : (a b : A) → le a b ≡ false → le b a ≡ true
    pub antisym : (a b : A) → le a b ≡ true → le b a ≡ true → a ≡ b
    pub trans : (a b c : A) → le a b ≡ true → le b c ≡ true → le a c ≡ true

  -- The same elements in another order.
  pub data Reordered : List A → List A → Type ℓ where
    same : (xs : List A) → Reordered xs xs
    swap : (x y : A) (xs : List A) → Reordered (x ∷ y ∷ xs) (y ∷ x ∷ xs)
    under : (x : A) {xs ys : List A} → Reordered xs ys → Reordered (x ∷ xs) (x ∷ ys)
    chain : {xs ys zs : List A} → Reordered xs ys → Reordered ys zs → Reordered xs zs

  pub keep-Reordered :
      (p : A → Bool) {xs ys : List A} → Reordered xs ys → Reordered (keep p xs) (keep p ys)
  keep-Reordered p (same xs) = same (keep p xs)
  keep-Reordered p (swap x y xs) = elim (Bool-cases (p x)) [
    | inl s ↦ elim (Bool-cases (p y)) [
      | inl t ↦ rw (s, t) (swap x y (keep p xs))
      | inr t ↦ rw (s, t) (same (x ∷ keep p xs))
    ]
    | inr s ↦ rw s (same (keep p (y ∷ xs)))
  ]
  keep-Reordered p (under x r) = elim (Bool-cases (p x)) [
    | inl s ↦ rw s (under x (keep-Reordered p r))
    | inr s ↦ rw s (keep-Reordered p r)
  ]
  keep-Reordered p (chain r s) = chain (keep-Reordered p r) (keep-Reordered p s)

  module _ (le : A → A → Bool) (order : IsOrder le) where
    insert_by_comm :
        (a b : A) (xs : List A)
        → insert_by le a (insert_by le b xs) ≡ insert_by le b (insert_by le a xs)
    insert_by_comm a b [] = ground (arith, order.total a b, order.antisym a b, order.total b a)
    insert_by_comm a b (x ∷ xs) = ground (
      arith,
      insert_by_comm a b xs,
      order.total a b,
      order.total b a,
      order.antisym a b,
      order.trans a b x,
      order.trans b a x,
    )

    -- Sorting by an order forgets the order in which the elements came.
    pub sort_by-Reordered : {xs ys : List A} → Reordered xs ys → sort_by le xs ≡ sort_by le ys
    unfolding sort_by
    sort_by-Reordered (same xs) = refl
    sort_by-Reordered (swap x y xs) = insert_by_comm x y (sort_by le xs)
    sort_by-Reordered (under x r) = ap (insert_by le x) (sort_by-Reordered r)
    sort_by-Reordered (chain r s) = sort_by-Reordered r ∙ sort_by-Reordered s
