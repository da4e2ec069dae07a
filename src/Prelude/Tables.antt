-- ===== src/Prelude/Tables.antt =====
-- SQL over a table kept as the list of its rows in insertion order: WHERE as a Boolean test.
pub mod Rows
pub mod Order
use overgent.Prelude.{
  suc, ◌+◌, ◌≡◌, refl, ap, inl, inr, Bool, true, false, ◌||◌, Option, none, some, List, [], ◌∷◌,
  ◌++◌, arith, if◌then◌else◌, Option-cases, is_some, length,
}

module _ {ℓ} {A : Type ℓ} where
  -- SELECT ... WHERE q, first row
  unfoldable pub find : (A → Bool) → List A → Option A
  find q [] = none
  find q (x ∷ xs) = if q x then some x else find q xs

  -- SELECT ... WHERE q
  unfoldable pub select : (A → Bool) → List A → List A
  select q [] = []
  select q (x ∷ xs) = let rest = select q xs in if q x then x ∷ rest else rest

  -- DELETE ... WHERE q
  unfoldable pub delete : (A → Bool) → List A → List A
  delete q [] = []
  delete q (x ∷ xs) = let rest = delete q xs in if q x then rest else x ∷ rest

  -- UPDATE ... SET f WHERE q
  unfoldable pub update : (A → Bool) → (A → A) → List A → List A
  update q f [] = []
  update q f (x ∷ xs) = (if q x then f x else x) ∷ update q f xs

  -- SELECT 1 ... WHERE q
  unfoldable pub any : (A → Bool) → List A → Bool
  any q [] = false
  any q (x ∷ xs) = q x || any q xs

  -- INSERT ... ON CONFLICT DO UPDATE SET f, for a key whose test is q
  unfoldable pub upsert : (A → Bool) → (A → A) → A → List A → List A
  unfolding any update
  upsert q f new xs = if any q xs then update q f xs else xs ++ new ∷ []

  pub find-append :
      (q : A → Bool) (xs ys : List A)
      → find q (xs ++ ys) ≡ (if any q xs then find q xs else find q ys)
  unfolding find any
  find-append q [] ys = refl
  find-append q (x ∷ xs) ys = ground (arith, find-append q xs ys)

  pub any-find : (q : A → Bool) (xs : List A) → any q xs ≡ is_some (find q xs)
  unfolding find any
  any-find q [] = refl
  any-find q (x ∷ xs) = ground (arith, any-find q xs)

  pub find_holds : (q : A → Bool) (xs : List A) (a : A) → find q xs ≡ some a → q a ≡ true
  unfolding find
  find_holds q [] a h = cc
  find_holds q (x ∷ xs) a h = ground (arith, find_holds q xs a)

  pub any-append : (q : A → Bool) (xs ys : List A) → any q (xs ++ ys) ≡ (any q xs || any q ys)
  unfolding any
  any-append q [] ys = refl
  any-append q (x ∷ xs) ys = ground (arith, any-append q xs ys)

  pub any-delete_self : (q : A → Bool) (xs : List A) → any q (delete q xs) ≡ false
  unfolding any delete
  any-delete_self q [] = refl
  any-delete_self q (x ∷ xs) = ground (arith, any-delete_self q xs)

  -- What a table does not hold, it does not hold after a DELETE.
  pub any-delete : (q r : A → Bool) (xs : List A) → any r xs ≡ false → any r (delete q xs) ≡ false
  unfolding any delete
  any-delete q r [] h = refl
  any-delete q r (x ∷ xs) h = ground (arith, any-delete q r xs)

  -- A DELETE of other rows leaves a lookup as it was.
  pub find-delete_ne :
      (q r : A → Bool) (xs : List A)
      → ((x : A) → r x ≡ true → q x ≡ false)
      → find r (delete q xs) ≡ find r xs
  unfolding find delete
  find-delete_ne q r [] h = refl
  find-delete_ne q r (x ∷ xs) h = ground (arith, h x, find-delete_ne q r xs h)

  pub select-delete_ne :
      (q r : A → Bool) (xs : List A)
      → ((x : A) → r x ≡ true → q x ≡ false)
      → select r (delete q xs) ≡ select r xs
  unfolding select delete
  select-delete_ne q r [] h = refl
  select-delete_ne q r (x ∷ xs) h = ground (arith, h x, select-delete_ne q r xs h)

  pub select-delete_self : (q : A → Bool) (xs : List A) → select q (delete q xs) ≡ []
  unfolding select delete
  select-delete_self q [] = refl
  select-delete_self q (x ∷ xs) = ground (arith, select-delete_self q xs)

  pub delete-select :
      (q : A → Bool) (xs : List A) → any q xs ≡ false → (delete q xs ≡ xs) × (select q xs ≡ [])
  unfolding any delete select
  delete-select q [] h = (refl, refl)
  delete-select q (x ∷ xs) h = ground (arith, delete-select q xs)

  pub length-select-delete :
      (q : A → Bool) (xs : List A) → length (select q xs) + length (delete q xs) ≡ length xs
  unfolding select delete
  length-select-delete q [] = omega arith
  length-select-delete q (x ∷ xs) = ground (arith, length-select-delete q xs)

  pub select-append :
      (q : A → Bool) (xs ys : List A) → select q (xs ++ ys) ≡ select q xs ++ select q ys
  unfolding select
  select-append q [] ys = refl
  select-append q (x ∷ xs) ys = ground (arith, select-append q xs ys)

  pub update-none : (q : A → Bool) (f : A → A) (xs : List A) → any q xs ≡ false → update q f xs ≡ xs
  unfolding any update
  update-none q f [] h = refl
  update-none q f (x ∷ xs) h = ground (arith, update-none q f xs)

  pub length-update : (q : A → Bool) (f : A → A) (xs : List A) → length (update q f xs) ≡ length xs
  unfolding update
  length-update q f [] = refl
  length-update q f (x ∷ xs) = ap suc (length-update q f xs)

  -- An UPDATE that a test cannot see leaves its rows as many as they were.
  pub any-update :
      (q r : A → Bool) (f : A → A) (xs : List A)
      → ((x : A) → r (f x) ≡ r x)
      → any r (update q f xs) ≡ any r xs
  unfolding any update
  any-update q r f [] h = refl
  any-update q r f (x ∷ xs) h = ground (arith, h x, any-update q r f xs h)

  pub find-update_ne :
      (q r : A → Bool) (f : A → A) (xs : List A)
      → ((x : A) → q x ≡ true → r x ≡ false)
      → ((x : A) → r (f x) ≡ r x)
      → find r (update q f xs) ≡ find r xs
  unfolding find update
  find-update_ne q r f [] d h = refl
  find-update_ne q r f (x ∷ xs) d h = ground (arith, d x, h x, find-update_ne q r f xs d h)

  pub find-update_self :
      (q : A → Bool) (f : A → A) (xs : List A) (a : A)
      → ((x : A) → q x ≡ true → q (f x) ≡ true)
      → find q xs ≡ some a
      → find q (update q f xs) ≡ some (f a)
  unfolding find update
  find-update_self q f [] a h e = cc
  find-update_self q f (x ∷ xs) a h e = ground (arith, h x, find-update_self q f xs a h)

  pub any-delete_ne :
      (q r : A → Bool) (xs : List A)
      → ((x : A) → r x ≡ true → q x ≡ false)
      → any r (delete q xs) ≡ any r xs
  unfolding any delete
  any-delete_ne q r [] h = refl
  any-delete_ne q r (x ∷ xs) h = ground (arith, h x, any-delete_ne q r xs h)

  pub select-delete_all :
      (q r : A → Bool) (xs : List A)
      → ((x : A) → r x ≡ true → q x ≡ true)
      → select r (delete q xs) ≡ []
  unfolding select delete
  select-delete_all q r [] h = refl
  select-delete_all q r (x ∷ xs) h = ground (arith, h x, select-delete_all q r xs h)

  pub any-upsert_self :
      (q : A → Bool) (f : A → A) (new : A) (xs : List A)
      → ((x : A) → q (f x) ≡ q x)
      → q new ≡ true
      → any q (upsert q f new xs) ≡ true
  unfolding upsert any
  any-upsert_self q f new xs h n = ground (arith, any-update q q f xs h, any-append q xs (new ∷ []))

  -- What a lookup by the key answers after an upsert: the updated row, or the new one.
  pub find-upsert_self :
      (q : A → Bool) (f : A → A) (new : A) (xs : List A)
      → ((x : A) → q x ≡ true → q (f x) ≡ true)
      → q new ≡ true
      → find q (upsert q f new xs)
        ≡ (elim (find q xs) [ none ↦ some new | some old ↦ some (f old) ])
  unfolding upsert find
  find-upsert_self q f new xs h n = elim (Option-cases (find q xs)) [
    | inl e ↦ ground (arith, any-find q xs, find-append q xs (new ∷ []))
    | inr (old, e) ↦ ground (arith, any-find q xs, find-update_self q f xs old h e)
  ]

  pub find-upsert_ne :
      (q r : A → Bool) (f : A → A) (new : A) (xs : List A)
      → ((x : A) → q x ≡ true → r x ≡ false)
      → ((x : A) → r (f x) ≡ r x)
      → r new ≡ false
      → find r (upsert q f new xs) ≡ find r xs
  unfolding upsert find
  find-upsert_ne q r f new xs d h n =
      ground (arith, any-find r xs, find-append r xs (new ∷ []), find-update_ne q r f xs d h)
