-- ===== src/Watcher/Rules.antt =====
-- watcher.go, ignorerFor: a path is ruled by the innermost registered root that contains it.
use overgent.Watcher.{Ignorer, Backend, Watcher, is_under, ignorer_for, first_under, longer}
use mathlib.Core.Path.{subst}
use overgent.Prelude.{
  ◌≤◌, String, ◌≡◌, refl, sym, inl, inr, true, false, Option, none, some, List, [], ◌∷◌, arith,
  leb→le, Bool-cases, All, All-mono,
}
use overgent.Prelude.Tables.{}
use overgent.Prelude.Tables.Order.{sort_by, IsSorted, sort_by-IsSorted, All-sort_by, All-of-sort_by}
use Prim.Native.String.{len}
use mathlib.Core.List.{Memᴰ}

All-Mem : {A : Type 0} → (xs : List A) → All (λ x. Memᴰ x xs) xs
All-Mem {A} [] = tt
All-Mem {A} (x ∷ xs) = (
  Memᴰ.head refl,
  All-mono (λ y. Memᴰ y xs) (λ y. Memᴰ y (x ∷ xs)) (λ y m. Memᴰ.tail m) xs (All-Mem xs),
)

module _ {S : Type 0} (b : Backend S) (path : String) where
  -- A root that contains the path is not longer than the one that was found.
  abbrev pub IsInnermost : Option (String × Option Ignorer) → String × Option Ignorer → Type 0
  IsInnermost none x = is_under b x.0 path ≡ false
  IsInnermost (some found) x = is_under b x.0 path ≡ true → len x.0 ≤ len found.0

  head_passed :
      (o : Option (String × Option Ignorer)) (x : String × Option Ignorer)
      → is_under b x.0 path ≡ false
      → IsInnermost o x
  head_passed none x h = h
  head_passed (some found) x h = λ u. absurd (ground (arith, h, u))

  first_under-IsInnermost :
      (rs : List (String × Option Ignorer))
      → IsSorted (longer b) rs
      → All (IsInnermost (first_under b path rs)) rs
  first_under-IsInnermost [] h = tt
  first_under-IsInnermost ((r, i) ∷ rs) h = elim (Bool-cases (is_under b r path)) [
    | inl e ↦
        let first : first_under b path ((r, i) ∷ rs) ≡ some (r, i) = rw e refl in
        subst (λ o. All (IsInnermost o) ((r, i) ∷ rs)) (sym first)
          (
            λ u. omega arith,
            All-mono (λ y. longer b (r, i) y ≡ true) (IsInnermost (some (r, i)))
                (λ y k u. leb→le (len y.0) (len r) k) rs h.0,
          )
    | inr e ↦
        let next : first_under b path ((r, i) ∷ rs) ≡ first_under b path rs = rw e refl in
        subst (λ o. All (IsInnermost o) ((r, i) ∷ rs)) (sym next)
          (head_passed (first_under b path rs) (r, i) e, first_under-IsInnermost rs h.1)
  ]

  -- A found root is registered with the rules that were found, and contains the path.
  unfoldable pub IsRegistered :
      List (String × Option Ignorer) → Option (String × Option Ignorer) → Type 0
  IsRegistered rs none = Unit
  IsRegistered rs (some found) = (Memᴰ found rs) × (is_under b found.0 path ≡ true)

  first_under-IsRegistered :
      (all rs : List (String × Option Ignorer))
      → All (λ x. Memᴰ x all) rs
      → IsRegistered all (first_under b path rs)
  unfolding IsRegistered
  first_under-IsRegistered all [] h = tt
  first_under-IsRegistered all ((r, i) ∷ rs) (m, h) = elim (Bool-cases (is_under b r path)) [
    | inl e ↦
        let first : first_under b path ((r, i) ∷ rs) ≡ some (r, i) = rw e refl in
        subst (IsRegistered all) (sym first) (m, e)
    | inr e ↦
        let next : first_under b path ((r, i) ∷ rs) ≡ first_under b path rs = rw e refl in
        subst (IsRegistered all) (sym next) (first_under-IsRegistered all rs h)
  ]

  -- The rules that a new path is held to are those that the longest registered root that contains it
  -- is registered with, and none exactly where no registered root does, in whatever order the roots are kept.
  pub ignorer_for-IsInnermost :
      (w : Watcher S)
      → All (IsInnermost (ignorer_for b path w)) w.roots
        × IsRegistered w.roots (ignorer_for b path w)
  unfolding ignorer_for
  ignorer_for-IsInnermost w =
      let sorted = sort_by (longer b) w.roots in
      (
        All-of-sort_by (longer b) (IsInnermost (first_under b path sorted)) w.roots (
            first_under-IsInnermost sorted (
              sort_by-IsSorted (longer b) (λ x y h. ground (arith, h))
                (λ x y z h k. ground (arith, h, k)) w.roots)),
        first_under-IsRegistered w.roots sorted
            (All-sort_by (longer b) (λ x. Memᴰ x w.roots) w.roots (All-Mem w.roots)),
      )
