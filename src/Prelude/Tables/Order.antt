-- ===== src/Prelude/Tables/Order.antt =====
-- ORDER BY: the rows sorted by a test, equal rows in insertion order.
use mathlib.Core.List.Perm
use mathlib.Core.List.{Perm}
use overgent.Prelude.{
  ◌≡◌, refl, inl, inr, Bool, true, false, ◌||◌, List, [], ◌∷◌, arith, if◌then◌else◌, Bool-cases,
  All, All-mono,
}
use overgent.Prelude.Tables.{any}

module _ {ℓ} {A : Type ℓ} (le : A → A → Bool) where
  unfoldable pub insert_by : A → List A → List A
  insert_by a [] = a ∷ []
  insert_by a (x ∷ xs) = let rest = insert_by a xs in if le a x then a ∷ x ∷ xs else x ∷ rest

  unfoldable pub sort_by : List A → List A
  unfolding insert_by
  sort_by [] = []
  sort_by (x ∷ xs) = insert_by x (sort_by xs)

  pub any-insert_by :
      (q : A → Bool) (a : A) (xs : List A) → any q (insert_by a xs) ≡ (q a || any q xs)
  unfolding any insert_by
  any-insert_by q a [] = refl
  any-insert_by q a (x ∷ xs) = ground (arith, any-insert_by q a xs)

  -- Sorting neither loses nor adds a row.
  pub any-sort_by : (q : A → Bool) (xs : List A) → any q (sort_by xs) ≡ any q xs
  unfolding any sort_by
  any-sort_by q [] = refl
  any-sort_by q (x ∷ xs) = ground (arith, any-insert_by q x (sort_by xs), any-sort_by q xs)

  perm-insert_by : (a : A) (xs : List A) → Perm (insert_by a xs) (a ∷ xs)
  unfolding insert_by
  perm-insert_by a [] = Perm.refl (a ∷ [])
  perm-insert_by a (x ∷ xs) = elim (Bool-cases (le a x)) [
    | inl e ↦ rw e (Perm.refl (a ∷ x ∷ xs))
    | inr e ↦ rw e (Perm.trans (Perm.cons x (perm-insert_by a xs)) (Perm.swap a x xs))
  ]

  pub perm-sort_by : (xs : List A) → Perm (sort_by xs) xs
  unfolding sort_by
  perm-sort_by [] = Perm.refl []
  perm-sort_by (x ∷ xs) = Perm.trans (perm-insert_by x (sort_by xs)) (Perm.cons x (perm-sort_by xs))

  All-insert_by {κ} :
      (P : A → Type κ) (a : A) (xs : List A) → P a → All P xs → All P (insert_by a xs)
  unfolding insert_by
  All-insert_by P a [] p h = (p, tt)
  All-insert_by P a (x ∷ xs) p h = elim (Bool-cases (le a x)) [
    | inl e ↦ rw e (p, h)
    | inr e ↦ rw e (h.0, All-insert_by P a xs p h.1)
  ]

  pub All-sort_by {κ} : (P : A → Type κ) (xs : List A) → All P xs → All P (sort_by xs)
  unfolding sort_by
  All-sort_by P [] h = tt
  All-sort_by P (x ∷ xs) h = All-insert_by P x (sort_by xs) h.0 (All-sort_by P xs h.1)

  -- Each row comes before all that follow it.
  abbrev pub IsSorted : List A → Type ℓ
  IsSorted [] = Unit
  IsSorted (x ∷ xs) = All (λ (y : A). le x y ≡ true) xs × IsSorted xs

  module _ (total : (x y : A) → le x y ≡ false → le y x ≡ true)
      (trans : (x y z : A) → le x y ≡ true → le y z ≡ true → le x z ≡ true) where
    insert_by-IsSorted : (a : A) (xs : List A) → IsSorted xs → IsSorted (insert_by a xs)
    unfolding insert_by
    insert_by-IsSorted a [] h = (tt, tt)
    insert_by-IsSorted a (x ∷ xs) h = elim (Bool-cases (le a x)) [
      | inl e ↦ rw e (
        (e, All-mono (λ y. le x y ≡ true) (λ y. le a y ≡ true) (λ y k. trans a x y e k) xs h.0),
        h,
      )
      | inr e ↦ rw e (
        All-insert_by (λ (y : A). le x y ≡ true) a xs (total a x e) h.0,
        insert_by-IsSorted a xs h.1,
      )
    ]

    pub sort_by-IsSorted : (xs : List A) → IsSorted (sort_by xs)
    unfolding sort_by
    sort_by-IsSorted [] = tt
    sort_by-IsSorted (x ∷ xs) = insert_by-IsSorted x (sort_by xs) (sort_by-IsSorted xs)

  All-of-insert_by {κ} :
      (P : A → Type κ) (a : A) (xs : List A) → All P (insert_by a xs) → P a × All P xs
  unfolding insert_by
  All-of-insert_by P a [] h = (h.0, tt)
  All-of-insert_by P a (x ∷ xs) h = elim (Bool-cases (le a x)) [
    | inl e ↦ let k = rw e at h in (k.0, k.1)
    | inr e ↦ let k = rw e at h in let (p, q) = All-of-insert_by P a xs k.1 in (p, (k.0, q))
  ]

  -- What holds of the sorted rows holds of the rows.
  pub All-of-sort_by {κ} : (P : A → Type κ) (xs : List A) → All P (sort_by xs) → All P xs
  unfolding sort_by
  All-of-sort_by P [] h = tt
  All-of-sort_by P (x ∷ xs) h =
      let (p, q) = All-of-insert_by P x (sort_by xs) h in (p, All-of-sort_by P xs q)
