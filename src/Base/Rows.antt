-- ===== src/Base/Rows.antt =====
-- A database table as a list of rows: `findFirst` is `find`, `updateMany` is `update_where`.
use Prim.Native.Nat.{ℕ, suc, ◌≤◌}
use mathlib.Core.Path.{◌≡◌, refl, ap, subst}
use mathlib.Core.Bool.{Bool, true, false}
use mathlib.Core.Logic.{inl, inr}
use mathlib.Core.Option.{Option, none, some}
use mathlib.Core.List.{List, [], ◌∷◌, ◌++◌}
use native.Mathlib.Omega.{arith}
use nova_pay.Base.Tests.{Bool-cases, get_or, if◌then◌else◌}
use nova_pay.Base.Sort.{All}

module _ {ℓ} {A : Type ℓ} where
  -- The first row that the test selects.
  unfoldable pub find : (A → Bool) → List A → Option A
  find p [] = none
  find p (x ∷ xs) = if p x then some x else find p xs

  -- Every row that the test selects is rewritten.
  unfoldable pub update_where : (A → Bool) → (A → A) → List A → List A
  update_where p f [] = []
  update_where p f (x ∷ xs) = (if p x then f x else x) ∷ update_where p f xs

  -- `update` by a unique key
  unfoldable pub update_first : (A → Bool) → (A → A) → List A → List A
  update_first p f [] = []
  update_first p f (x ∷ xs) = if p x then f x ∷ xs else x ∷ update_first p f xs

  unfoldable pub count_where : (A → Bool) → List A → ℕ
  count_where p [] = 0
  count_where p (x ∷ xs) = if p x then suc (count_where p xs) else count_where p xs

  -- `deleteMany`
  pub delete_where : (A → Bool) → List A → List A
  delete_where p [] = []
  delete_where p (x ∷ xs) = if p x then delete_where p xs else x ∷ delete_where p xs

  -- A row found by a test passes it.
  pub find_sound : (p : A → Bool) (xs : List A) (x : A) → find p xs ≡ some x → p x ≡ true
  unfolding find
  find_sound p [] x h = cc
  find_sound p (y ∷ xs) x h = ground (arith, find_sound p xs x)

  -- A rewrite that keeps the tested key is seen by the next read.
  pub find-update_where :
      (p : A → Bool) (f : A → A) (xs : List A) (x : A)
      → p (f x) ≡ true
      → find p xs ≡ some x
      → find p (update_where p f xs) ≡ some (f x)
  unfolding find update_where
  find-update_where p f [] x h e = cc
  find-update_where p f (y ∷ xs) x h e = ground (arith, find-update_where p f xs x)

  pub find-append :
      (p : A → Bool) (xs : List A) (x : A)
      → find p xs ≡ none
      → p x ≡ true
      → find p (xs ++ x ∷ []) ≡ some x
  unfolding find
  find-append p [] x e h = ground arith
  find-append p (y ∷ xs) x e h = ground (arith, find-append p xs x)

  -- A rewrite of the rows that `p` selects does not change what another key finds.
  pub find-update_other :
      (p q : A → Bool) (f : A → A) (xs : List A)
      → ((x : A) → p x ≡ true → q x ≡ false)
      → ((x : A) → p x ≡ true → q (f x) ≡ false)
      → find q (update_where p f xs) ≡ find q xs
  unfolding find update_where
  find-update_other p q f [] old new = refl
  find-update_other p q f (y ∷ xs) old new =
      ground (arith, find-update_other p q f xs old new, old y, new y)

  pub find-append_other :
      (q : A → Bool) (xs : List A) (x : A) → q x ≡ false → find q (xs ++ x ∷ []) ≡ find q xs
  unfolding find
  find-append_other q [] x h = ground arith
  find-append_other q (y ∷ xs) x h = ground (arith, find-append_other q xs x h)

  pub count_where_mono :
      (p q : A → Bool) (xs : List A)
      → ((x : A) → q x ≡ true → p x ≡ true)
      → count_where q xs ≤ count_where p xs
  unfolding count_where
  count_where_mono p q [] h = omega arith
  count_where_mono p q (x ∷ xs) h = ground (arith, count_where_mono p q xs h, h x)

  -- An update that selects no row changes none.
  pub update_where_none :
      (p : A → Bool) (f : A → A) (xs : List A) → count_where p xs ≡ 0 → update_where p f xs ≡ xs
  unfolding count_where update_where
  update_where_none p f [] h = refl
  update_where_none p f (x ∷ xs) h = ground (arith, update_where_none p f xs)

  -- A rewrite that keeps the tested key keeps the number of rows with that key.
  pub count_where-update_same :
      (k p : A → Bool) (f : A → A) (xs : List A)
      → ((x : A) → k (f x) ≡ k x)
      → count_where k (update_where p f xs) ≡ count_where k xs
  unfolding count_where update_where
  count_where-update_same k p f [] h = refl
  count_where-update_same k p f (x ∷ xs) h = ground (arith, count_where-update_same k p f xs h, h x)

  -- What a key finds after an update, where the rewrite keeps the key.
  pub find-update_if :
      (k p : A → Bool) (f : A → A) (xs : List A) (x : A)
      → ((y : A) → k (f y) ≡ k y)
      → find k xs ≡ some x
      → find k (update_where p f xs) ≡ some (if p x then f x else x)
  unfolding find update_where
  find-update_if k p f [] x h e = cc
  find-update_if k p f (y ∷ xs) x h e = ground (arith, find-update_if k p f xs x h, h y)

  -- What a key does not find, an update that keeps the key does not bring.
  pub find-update_none :
      (k p : A → Bool) (f : A → A) (xs : List A)
      → ((y : A) → k (f y) ≡ k y)
      → find k xs ≡ none
      → find k (update_where p f xs) ≡ none
  unfolding find update_where
  find-update_none k p f [] h e = refl
  find-update_none k p f (y ∷ xs) h e = ground (arith, find-update_none k p f xs h, h y)

  pub find-delete_where : (p : A → Bool) (xs : List A) → find p (delete_where p xs) ≡ none
  unfolding find delete_where
  find-delete_where p [] = refl
  find-delete_where p (x ∷ xs) = ground (arith, find-delete_where p xs)

  pub find-delete_other :
      (p q : A → Bool) (xs : List A)
      → ((x : A) → p x ≡ true → q x ≡ false)
      → find q (delete_where p xs) ≡ find q xs
  unfolding find delete_where
  find-delete_other p q [] h = refl
  find-delete_other p q (x ∷ xs) h = ground (arith, find-delete_other p q xs h, h x)

  pub update_where_twice :
      (p : A → Bool) (f : A → A) (xs : List A)
      → ((x : A) → p (f x) ≡ p x)
      → ((x : A) → p x ≡ true → f (f x) ≡ f x)
      → update_where p f (update_where p f xs) ≡ update_where p f xs
  unfolding update_where
  update_where_twice p f [] h e = refl
  update_where_twice p f (x ∷ xs) h e = elim (Bool-cases (p x)) [
    | inl t ↦ rw (t, h x, t, e x t, update_where_twice p f xs h e)
    | inr t ↦ rw (t, t, update_where_twice p f xs h e)
  ]

  -- An update that would change nothing in a row just appended with a new key.
  pub update_where-append :
      (p : A → Bool) (f : A → A) (xs : List A) (x : A)
      → find p xs ≡ none
      → p x ≡ true
      → f x ≡ x
      → update_where p f (xs ++ x ∷ []) ≡ xs ++ x ∷ []
  unfolding find update_where
  update_where-append p f [] x e h same = rw (h, same)
  update_where-append p f (y ∷ xs) x e h same = ground (arith, update_where-append p f xs x)

  pub delete_where_twice :
      (p : A → Bool) (xs : List A) → delete_where p (delete_where p xs) ≡ delete_where p xs
  unfolding delete_where
  delete_where_twice p [] = refl
  delete_where_twice p (x ∷ xs) = ground (arith, delete_where_twice p xs)

  -- An update of one row adds at most one to a count, and nothing if the new row does not count.
  pub count_where-update_first :
      (q p : A → Bool) (g : A → A) (xs : List A)
      → count_where q (update_first p g xs) ≤ suc (count_where q xs)
  unfolding count_where update_first
  count_where-update_first q p g [] = ground arith
  count_where-update_first q p g (x ∷ xs) = ground (arith, count_where-update_first q p g xs)

  pub count_where-update_uncounted :
      (q p : A → Bool) (g : A → A) (xs : List A)
      → ((x : A) → q (g x) ≡ false)
      → count_where q (update_first p g xs) ≤ count_where q xs
  unfolding count_where update_first
  count_where-update_uncounted q p g [] h = ground arith
  count_where-update_uncounted q p g (x ∷ xs) h =
      ground (arith, h x, count_where-update_uncounted q p g xs h)

  pub count_where-update_all_uncounted :
      (q p : A → Bool) (g : A → A) (xs : List A)
      → ((x : A) → q (g x) ≡ false)
      → count_where q (update_where p g xs) ≤ count_where q xs
  unfolding count_where update_where
  count_where-update_all_uncounted q p g [] h = ground arith
  count_where-update_all_uncounted q p g (x ∷ xs) h =
      ground (arith, h x, count_where-update_all_uncounted q p g xs h)

  -- What holds of every row, holds of the row that is found.
  pub All-find {κ} :
      (P : A → Type κ) (t : A → Bool) (xs : List A) (x : A) → All P xs → find t xs ≡ some x → P x
  unfolding find
  All-find P t [] x all h = cc
  All-find P t (y ∷ xs) x (p, all) h = elim (Bool-cases (t y)) [
    | inl e ↦
        subst P (ap (λ r. get_or r y) (subst (λ b. (if b then some y else find t xs) ≡ some x) e h))
          p
    | inr e ↦ All-find P t xs x all (subst (λ b. (if b then some y else find t xs) ≡ some x) e h)
  ]

  pub count_where-update_first_same :
      (q p : A → Bool) (g : A → A) (xs : List A)
      → ((x : A) → q (g x) ≡ q x)
      → count_where q (update_first p g xs) ≡ count_where q xs
  unfolding count_where update_first
  count_where-update_first_same q p g [] h = refl
  count_where-update_first_same q p g (x ∷ xs) h =
      ground (arith, h x, count_where-update_first_same q p g xs h)

  -- A new row adds at most one to a count, and nothing if it does not count.
  pub count_where-append :
      (q : A → Bool) (xs : List A) (x : A) → count_where q (xs ++ x ∷ []) ≤ suc (count_where q xs)
  unfolding count_where
  count_where-append q [] x = ground arith
  count_where-append q (y ∷ xs) x = ground (arith, count_where-append q xs x)

  pub count_where-append_uncounted :
      (q : A → Bool) (xs : List A) (x : A)
      → q x ≡ false
      → count_where q (xs ++ x ∷ []) ≡ count_where q xs
  unfolding count_where
  count_where-append_uncounted q [] x h = ground arith
  count_where-append_uncounted q (y ∷ xs) x h =
      ground (arith, count_where-append_uncounted q xs x h)

  pub count_where_absent : (q : A → Bool) (xs : List A) → find q xs ≡ none → count_where q xs ≡ 0
  unfolding count_where find
  count_where_absent q [] h = refl
  count_where_absent q (y ∷ xs) h = ground (arith, count_where_absent q xs)
