-- ===== src/Registry/Payouts/Sums.antt =====
-- Sums over the rows that a test selects.
use nova_pay.Base.{
  ◌≡◌, refl, sym, ap, ◌∙◌, subst, arith, Bool-cases, inl, inr, get_or, Bool, true, List, [], ◌∷◌,
  ◌++◌, keep, some, if◌then◌else◌,
}
use nova_pay.Base.Int.{ℤ, pos, ◌+ℤ◌, ◌≤ℤ◌, +ℤ_assoc, int_laws}
use nova_pay.Base.Rows.{find, update_first}

zero_left : (a : ℤ) → a ≡ pos 0 +ℤ a
zero_left a = omega int_laws

zero_right : (a : ℤ) → a ≡ a +ℤ pos 0
zero_right a = omega int_laws

swap_ends : (a b c : ℤ) → a +ℤ b +ℤ c ≡ c +ℤ b +ℤ a
swap_ends a b c = omega int_laws

sum_mono : (a b c d : ℤ) → a ≤ℤ b → c ≤ℤ d → a +ℤ c ≤ℤ b +ℤ d
sum_mono a b c d h k = omega int_laws

module _ {A : Type 0} where
  -- A loop that adds to a sum under a condition; addition is exact, so its order does not matter.
  unfoldable pub sum_if : (A → Bool) → (A → ℤ) → List A → ℤ
  sum_if p f [] = pos 0
  sum_if p f (x ∷ xs) = if p x then f x +ℤ sum_if p f xs else sum_if p f xs

  -- `rows.reduce((sum, row) => sum + f(row), 0)`
  unfoldable pub sum_all : (A → ℤ) → List A → ℤ
  sum_all f [] = pos 0
  sum_all f (x ∷ xs) = f x +ℤ sum_all f xs

  abbrev pub share : (A → Bool) → (A → ℤ) → A → ℤ
  share p f x = if p x then f x else pos 0

  pub sum_if-share :
      (p : A → Bool) (f : A → ℤ) (x : A) (xs : List A)
      → sum_if p f (x ∷ xs) ≡ share p f x +ℤ sum_if p f xs
  unfolding sum_if
  sum_if-share p f x xs = elim (Bool-cases (p x)) [
    | inl t ↦ rw t refl
    | inr t ↦ rw t (zero_left (sum_if p f xs))
  ]

  pub sum_all-keep :
      (p : A → Bool) (f : A → ℤ) (xs : List A) → sum_all f (keep p xs) ≡ sum_if p f xs
  unfolding sum_all sum_if
  sum_all-keep p f [] = refl
  sum_all-keep p f (x ∷ xs) = ground (arith, sum_all-keep p f xs)

  pub sum_if-keep :
      (p q : A → Bool) (f : A → ℤ) (xs : List A)
      → ((x : A) → q x ≡ true → p x ≡ true)
      → sum_if q f (keep p xs) ≡ sum_if q f xs
  unfolding sum_if
  sum_if-keep p q f [] h = refl
  sum_if-keep p q f (x ∷ xs) h = ground (arith, sum_if-keep p q f xs h, h x)

  pub sum_if-append :
      (p : A → Bool) (f : A → ℤ) (xs : List A) (x : A)
      → sum_if p f (xs ++ x ∷ []) ≡ sum_if p f xs +ℤ share p f x
  unfolding sum_if
  sum_if-append p f [] x = elim (Bool-cases (p x)) [
    | inl t ↦ rw t (omega int_laws)
    | inr t ↦ rw t (zero_right (pos 0))
  ]
  sum_if-append p f (y ∷ xs) x = elim (Bool-cases (p y)) [
    | inl t ↦ rw t (rw (sum_if-append p f xs x) (omega int_laws))
    | inr t ↦ rw t (sum_if-append p f xs x)
  ]

  -- An update of one row changes the sum by that row's share.
  pub sum_if-update_first :
      (p q : A → Bool) (f : A → ℤ) (g : A → A) (xs : List A) (r : A)
      → find q xs ≡ some r
      → sum_if p f (update_first q g xs) +ℤ share p f r ≡ sum_if p f xs +ℤ share p f (g r)
  unfolding sum_if find update_first
  sum_if-update_first p q f g [] r e = cc
  sum_if-update_first p q f g (y ∷ xs) r e = elim (Bool-cases (q y)) [
    | inl t ↦ rw t (
        let same : y ≡ r =
          ap (λ o. get_or o y) (subst (λ b. (if b then some y else find q xs) ≡ some r) t e) in
        subst (λ z. sum_if p f (g y ∷ xs) +ℤ share p f z ≡ sum_if p f (y ∷ xs) +ℤ share p f (g z))
          same (swapped y))
    | inr t ↦ rw t (
        behind (
          sum_if-update_first p q f g xs r
            (subst (λ b. (if b then some y else find q xs) ≡ some r) t e)))
  ]
    where
      swapped :
          (z : A) → sum_if p f (g z ∷ xs) +ℤ share p f z ≡ sum_if p f (z ∷ xs) +ℤ share p f (g z)
      swapped z =
          rw (sum_if-share p f (g z) xs, sum_if-share p f z xs)
            (swap_ends (share p f (g z)) (sum_if p f xs) (share p f z))

      behind :
          sum_if p f (update_first q g xs) +ℤ share p f r ≡ sum_if p f xs +ℤ share p f (g r)
          → sum_if p f (y ∷ update_first q g xs) +ℤ share p f r
            ≡ sum_if p f (y ∷ xs) +ℤ share p f (g r)
      behind h = elim (Bool-cases (p y)) [
        | inl t ↦ rw t (
            +ℤ_assoc (f y) (sum_if p f (update_first q g xs)) (share p f r)
            ∙ ap (λ n. f y +ℤ n) h
            ∙ sym (+ℤ_assoc (f y) (sum_if p f xs) (share p f (g r))))
        | inr t ↦ rw t h
      ]

  pub share_mono :
      (p q : A → Bool) (f : A → ℤ) (x : A)
      → (q x ≡ true → p x ≡ true)
      → (p x ≡ true → pos 0 ≤ℤ f x)
      → share q f x ≤ℤ share p f x
  share_mono p q f x implies positive = elim (Bool-cases (q x)) [
    | inl t ↦ rw (t, implies t) (omega int_laws)
    | inr t ↦
        rw t (elim (Bool-cases (p x)) [ inl u ↦ rw u (positive u) | inr u ↦ rw u (omega int_laws) ])
  ]

  -- A stronger test selects less, if what the weaker one selects is not negative.
  pub sum_if-mono :
      (p q : A → Bool) (f : A → ℤ) (xs : List A)
      → ((x : A) → q x ≡ true → p x ≡ true)
      → ((x : A) → p x ≡ true → pos 0 ≤ℤ f x)
      → sum_if q f xs ≤ℤ sum_if p f xs
  unfolding sum_if
  sum_if-mono p q f [] implies positive = omega int_laws
  sum_if-mono p q f (x ∷ xs) implies positive =
      rw (sum_if-share p f x xs, sum_if-share q f x xs)
        (sum_mono (share q f x) (share p f x) (sum_if q f xs) (sum_if p f xs)
          (share_mono p q f x (implies x) (positive x)) (sum_if-mono p q f xs implies positive))
