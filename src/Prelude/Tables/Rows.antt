-- ===== src/Prelude/Tables/Rows.antt =====
-- What holds of every row of a table, and keys that no two rows share.
use mathlib.Core.Path.{subst}
use mathlib.Core.Option.{some-injective}
use overgent.Prelude.{
  String, ◌≡◌, refl, inl, inr, Bool, true, false, ◌&&◌, not, some, List, [], ◌∷◌, ◌++◌, arith,
  str_eq, eq_iff, Bool-cases, All,
}
use overgent.Prelude.Tables.{find, select, delete, update, any, any-append, any-delete, any-update}

module _ {ℓ κ} {A : Type ℓ} (P : A → Type κ) where
  pub All-delete : (q : A → Bool) (xs : List A) → All P xs → All P (delete q xs)
  unfolding delete
  All-delete q [] h = tt
  All-delete q (x ∷ xs) h = elim (Bool-cases (q x)) [
    | inl e ↦ rw e (All-delete q xs h.1)
    | inr e ↦ rw e (h.0, All-delete q xs h.1)
  ]

  pub All-select : (q : A → Bool) (xs : List A) → All P xs → All P (select q xs)
  unfolding select
  All-select q [] h = tt
  All-select q (x ∷ xs) h = elim (Bool-cases (q x)) [
    | inl e ↦ rw e (h.0, All-select q xs h.1)
    | inr e ↦ rw e (All-select q xs h.1)
  ]

  -- What holds of the rows that a query selects.
  pub All-selected :
      (q : A → Bool) (xs : List A) → All (λ x. q x ≡ true → P x) xs → All P (select q xs)
  unfolding select
  All-selected q [] h = tt
  All-selected q (x ∷ xs) h = elim (Bool-cases (q x)) [
    | inl e ↦ rw e (h.0 e, All-selected q xs h.1)
    | inr e ↦ rw e (All-selected q xs h.1)
  ]

  pub All-find : (q : A → Bool) (xs : List A) (a : A) → All P xs → find q xs ≡ some a → P a
  unfolding find
  All-find q [] a h e = cc
  All-find q (x ∷ xs) a h e = elim (Bool-cases (q x)) [
    | inl p ↦ subst P (some-injective x a (rw p at e)) h.0
    | inr p ↦ All-find q xs a h.1 (rw p at e)
  ]

module _ {ℓ κ μ} {A : Type ℓ} (P : A → Type κ) (Q : A → Type μ) where
  -- An UPDATE keeps `Q` where it holds of the rows that it rewrites and of the others.
  pub All-update :
      (q : A → Bool) (f : A → A) (xs : List A)
      → ((x : A) → P x → q x ≡ true → Q (f x))
      → ((x : A) → P x → q x ≡ false → Q x)
      → All P xs
      → All Q (update q f xs)
  unfolding update
  All-update q f [] hit miss h = tt
  All-update q f (x ∷ xs) hit miss h = elim (Bool-cases (q x)) [
    | inl e ↦ rw e (hit x h.0 e, All-update q f xs hit miss h.1)
    | inr e ↦ rw e (miss x h.0 e, All-update q f xs hit miss h.1)
  ]

-- No two rows have the same key.
module _ {ℓ} {A : Type ℓ} (key : A → String) where
  abbrev pub keyed : String → A → Bool
  keyed k x = str_eq (key x) k

  unfoldable pub distinct : List A → Bool
  distinct [] = true
  distinct (x ∷ xs) = not (any (keyed (key x)) xs) && distinct xs

  pub distinct-delete :
      (q : A → Bool) (xs : List A) → distinct xs ≡ true → distinct (delete q xs) ≡ true
  unfolding distinct delete
  distinct-delete q [] h = refl
  distinct-delete q (x ∷ xs) h =
      ground (arith, any-delete q (keyed (key x)) xs, distinct-delete q xs)

  pub distinct-append :
      (xs : List A) (a : A)
      → distinct xs ≡ true
      → any (keyed (key a)) xs ≡ false
      → distinct (xs ++ a ∷ []) ≡ true
  unfolding distinct any
  distinct-append [] a h n = refl
  distinct-append (x ∷ xs) a h n = ground (
    arith,
    any-append (keyed (key x)) xs (a ∷ []),
    distinct-append xs a,
    eq_iff (key a) (key x),
    eq_iff (key x) (key a),
  )

  pub distinct-update :
      (q : A → Bool) (f : A → A) (xs : List A)
      → ((x : A) → key (f x) ≡ key x)
      → distinct (update q f xs) ≡ distinct xs
  unfolding distinct update
  distinct-update q f [] h = refl
  distinct-update q f (x ∷ xs) h = ground (
    arith,
    h x,
    any-update q (keyed (key x)) f xs (λ y. rw (h y)),
    any-update q (keyed (key (f x))) f xs (λ y. rw (h y)),
    distinct-update q f xs h,
  )
