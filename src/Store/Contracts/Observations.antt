-- ===== src/Store/Contracts/Observations.antt =====
-- What `ChangedFingerprints` is told, as the map it is, and the same sorted by path.
use overgent.Store.{Fingerprint}
use overgent.Store.Contracts.{Observed, by_path, stored_hash, holds_hash}
use overgent.Prelude.{
  String, ◌≡◌, refl, ◌∙◌, inl, inr, Bool, true, false, not, ◌&&◌, Option, none, some, List, [], ◌∷◌,
  map, arith, str_eq, eq_iff, if◌then◌else◌, Bool-cases, All, str_le,
}
use overgent.Prelude.Texts.{str_le_total, str_le_trans}
use overgent.Prelude.Tables.Rows.{keyed, distinct}
use overgent.Prelude.Tables.{select, any}
use overgent.Prelude.Tables.Order.{
  sort_by, insert_by, any-insert_by, any-sort_by, IsSorted, sort_by-IsSorted,
}

-- The hash of a path among the observed ones.
abbrev pub observed_hash : String → List Observed → Option String
observed_hash path [] = none
observed_hash path (o ∷ os) = if str_eq o.path path then some o.hash else observed_hash path os

-- A map has each path once.
abbrev pub unique_paths : List Observed → Bool
unique_paths = distinct (λ (o : Observed). o.path)

-- The stored hash of an observed path is not the observed one.
abbrev pub has_drifted : String → List Fingerprint → Observed → Bool
has_drifted workspace rows o = not (holds_hash (stored_hash workspace o.path rows) o.hash)

abbrev pub drifted : String → List Fingerprint → List Observed → List String
drifted workspace rows os = map (λ (o : Observed). o.path) (select (has_drifted workspace rows) os)

distinct-insert :
    (o : Observed) (os : List Observed)
    → unique_paths (insert_by by_path o os)
      ≡ (not (any (keyed (λ (x : Observed). x.path) o.path) os) && unique_paths os)
unfolding insert_by distinct any
distinct-insert o [] = refl
distinct-insert o (x ∷ os) = elim (Bool-cases (by_path o x)) [
  | inl e ↦ rw e refl
  | inr e ↦ rw e (
      ground (
        arith,
        distinct-insert o os,
        any-insert_by by_path (keyed (λ (x : Observed). x.path) x.path) o os,
        eq_iff o.path x.path,
        eq_iff x.path o.path,
      ))
]

pub distinct-sorted : (os : List Observed) → unique_paths (sort_by by_path os) ≡ unique_paths os
unfolding sort_by distinct
distinct-sorted [] = refl
distinct-sorted (o ∷ os) =
    distinct-insert o (sort_by by_path os)
    ∙ ground (
      arith,
      distinct-sorted os,
      any-sort_by by_path (keyed (λ (x : Observed). x.path) o.path) os,
    )

hash-insert :
    (path : String) (o : Observed) (os : List Observed)
    → any (keyed (λ (x : Observed). x.path) o.path) os ≡ false
    → observed_hash path (insert_by by_path o os)
      ≡ (if str_eq o.path path then some o.hash else observed_hash path os)
unfolding insert_by any
hash-insert path o [] h = refl
hash-insert path o (x ∷ os) h = elim (Bool-cases (by_path o x)) [
  | inl e ↦ rw e refl
  | inr e ↦ rw e (
      ground (
        arith,
        h,
        hash-insert path o os (ground (arith, h)),
        eq_iff o.path path,
        eq_iff x.path path,
        eq_iff x.path o.path,
      ))
]

pub hash-sorted :
    (path : String) (os : List Observed)
    → unique_paths os ≡ true
    → observed_hash path (sort_by by_path os) ≡ observed_hash path os
unfolding sort_by distinct
hash-sorted path [] u = refl
hash-sorted path (o ∷ os) u =
    hash-insert path o (sort_by by_path os)
      (any-sort_by by_path (keyed (λ (x : Observed). x.path) o.path) os ∙ ground (arith, u))
    ∙ ground (arith, hash-sorted path os (ground (arith, u)))

paths-All :
    (q : Observed → Bool) (P : String → Type 0) (os : List Observed)
    → All (λ (o : Observed). P o.path) os
    → All P (map (λ (o : Observed). o.path) (select q os))
unfolding select
paths-All q P [] h = tt
paths-All q P (o ∷ os) (h, hs) = elim (Bool-cases (q o)) [
  | inl e ↦ rw e (h, paths-All q P os hs)
  | inr e ↦ rw e (paths-All q P os hs)
]

paths-IsSorted :
    (q : Observed → Bool) (os : List Observed)
    → IsSorted by_path os
    → IsSorted str_le (map (λ (o : Observed). o.path) (select q os))
unfolding select
paths-IsSorted q [] h = tt
paths-IsSorted q (o ∷ os) (h, hs) = elim (Bool-cases (q o)) [
  | inl e ↦ rw e (paths-All q (λ p. str_le o.path p ≡ true) os h, paths-IsSorted q os hs)
  | inr e ↦ rw e (paths-IsSorted q os hs)
]

pub drifted-IsSorted :
    (workspace : String) (rows : List Fingerprint) (os : List Observed)
    → IsSorted str_le (drifted workspace rows (sort_by by_path os))
drifted-IsSorted workspace rows os =
    paths-IsSorted (has_drifted workspace rows) (sort_by by_path os) (
      sort_by-IsSorted by_path (λ x y. str_le_total x.path y.path)
        (λ x y z. str_le_trans x.path y.path z.path) os)
