-- ===== src/Activity/Paths.antt =====
-- activity.go, canonicalizeExisting: its climb to an existing ancestor ends.
use overgent.Prelude.{
  ℕ, zero, suc, ◌+◌, ◌<◌, ◌≡◌, refl, ap, ◌∙◌, ◌⊎◌, inl, inr, true, none, some, List, [], arith,
  Bool-cases, Option-cases, length,
}
use overgent.Prelude.Bytes.{same}
use overgent.Activity.{Host, climb, canonicalize_existing}

module _ (o : Host) where
  -- filepath.Dir on an absolute path: an absolute path, which is shorter unless the path is its own
  -- parent.
  abbrev pub IsParent : List ℕ → Type 0
  IsParent p =
      (o.is_abs (o.dir p) ≡ true) × ((same (o.dir p) p ≡ true) ⊎ (length (o.dir p) < length p))

  climb-enough :
      (fuel more : ℕ) (absolute current remainder : List ℕ)
      → ((p : List ℕ) → o.is_abs p ≡ true → IsParent p)
      → o.is_abs current ≡ true
      → length current < fuel
      → (path : List ℕ) × (climb o fuel absolute current remainder ≡ some path)
        × (climb o (fuel + more) absolute current remainder ≡ some path)
  unfolding climb
  climb-enough zero more absolute current remainder h a l = absurd (ground (arith, l))
  climb-enough (suc fuel) more absolute current remainder h a l =
      let next : suc fuel + more ≡ suc (fuel + more) = omega arith in
      let parent = o.dir current in
      let rest = o.join (o.base current) remainder in
      elim (Bool-cases (same parent current)) [
        | inl s ↦ (absolute, rw (s, climb) refl, rw (next, s, climb) refl)
        | inr s ↦ elim (Option-cases (o.eval_symlinks parent)) [
          | inl e ↦
              let (rooted, shorter) = h current a in
              let less : length parent < length current = elim shorter [
                | inl own ↦ absurd (ground (arith, own, s))
                | inr k ↦ k
              ] in
              let (path, p, q) =
                climb-enough fuel more absolute parent rest h rooted (omega (arith, l, less)) in
              (path, rw (s, e, climb) p, rw (next, s, e, climb) q)
          | inr (resolved, e) ↦
              (o.join resolved rest, rw (s, e, climb) refl, rw (next, s, e, climb) refl)
        ]
      ]

  -- The climb from an absolute path to an existing ancestor always ends: canonicalizeExisting has a
  -- result, and a climb with any larger fuel has the same one. It is assumed that filepath.Dir gives an
  -- absolute path for an absolute one, and a shorter one unless the path is its own parent.
  pub canonicalize_existing_ends :
      (absolute : List ℕ)
      → o.is_abs absolute ≡ true
      → ((p : List ℕ) → o.is_abs p ≡ true → IsParent p)
      → (path : List ℕ) × (canonicalize_existing o absolute ≡ some path)
        × ((more : ℕ)
            → o.eval_symlinks absolute ≡ none
            → climb o (suc (length absolute) + more) absolute absolute [] ≡ some path)
  unfolding canonicalize_existing
  canonicalize_existing_ends absolute a h =
      let n = suc (length absolute) in
      elim (Option-cases (o.eval_symlinks absolute)) [
        | inl e ↦
            let (path, p, q) = climb-enough n 0 absolute absolute [] h a (omega arith) in
            (
              path,
              rw (e, canonicalize_existing) p,
              λ more k.
                  let (path', p', q') =
                    climb-enough n more absolute absolute [] h a (omega arith) in
                  let one : path' ≡ path = cc (p, p') in q' ∙ ap some one,
            )
        | inr (resolved, e) ↦ (resolved, rw (e, canonicalize_existing) refl, λ more k. cc (e, k))
      ]
