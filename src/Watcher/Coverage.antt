-- ===== src/Watcher/Coverage.antt =====
-- watcher.go, addTree: which directories of a tree come under watch.
use overgent.Watcher.{
  Entry, plain, directory, Listing, unreadable, end, item, WatchError, budget_exhausted, Backend,
  Watcher, visit, add_tree, descend,
}
use overgent.Prelude.{
  ℕ, zero, suc, ◌+◌, ◌-◌, String, ◌≡◌, refl, sym, ap, ◌∙◌, inl, inr, Bool, true, false, ◌&&◌, ◌||◌,
  Option, none, some, List, [], ◌∷◌, ◌++◌, arith, str_eq, leb, if◌then◌else◌, Bool-cases, length,
  take,
}

-- The directories that the rules keep, in the order of the walk, and whether each listing can be read.
unfoldable mutual
  pub kept : (String → Bool) → Entry → List String
  kept prune (plain p) = []
  kept prune (directory p base listing) =
      if str_eq base ".git" || prune p then [] else p ∷ kept_listing prune listing

  pub kept_listing : (String → Bool) → Listing → List String
  kept_listing prune unreadable = []
  kept_listing prune end = []
  kept_listing prune (item entry more) = kept prune entry ++ kept_listing prune more

  pub is_readable : Entry → Bool
  is_readable (plain p) = true
  is_readable (directory p base listing) = is_readable_listing listing

  pub is_readable_listing : Listing → Bool
  is_readable_listing unreadable = false
  is_readable_listing end = true
  is_readable_listing (item entry more) = is_readable entry && is_readable_listing more

module _ {S : Type 0} (b : Backend S) where
  -- Visiting paths one by one until a visit fails.
  unfoldable pub visit_all :
      List String → Watcher S × Option WatchError → Watcher S × Option WatchError
  visit_all [] r = r
  visit_all (p ∷ ps) (w, some e) = (w, some e)
  visit_all (p ∷ ps) (w, none) = visit_all ps (visit b p w)

  visit_all-failed :
      (ps : List String) (w : Watcher S) (e : WatchError) → visit_all ps (w, some e) ≡ (w, some e)
  unfolding visit_all
  visit_all-failed [] w e = refl
  visit_all-failed (p ∷ ps) w e = refl

  visit_all-append :
      (ps qs : List String) (r : Watcher S × Option WatchError)
      → visit_all (ps ++ qs) r ≡ visit_all qs (visit_all ps r)
  unfolding visit_all
  visit_all-append [] qs r = refl
  visit_all-append (p ∷ ps) qs (w, some e) = sym (visit_all-failed qs w e)
  visit_all-append (p ∷ ps) qs (w, none) = visit_all-append ps qs (visit b p w)

  -- The walk visits exactly the kept directories.
  mutual
    unfolding kept add_tree is_readable visit_all

    add_tree-visit :
        (prune : String → Bool) (tree : Entry) (w : Watcher S)
        → is_readable tree ≡ true
        → add_tree b prune tree w ≡ visit_all (kept prune tree) (w, none)
    add_tree-visit prune (plain p) w h = refl
    add_tree-visit prune (directory p base listing) w h =
        elim (Bool-cases (str_eq base ".git" || prune p)) [
          | inl k ↦ rw (k, add_tree, kept) refl
          | inr k ↦ rw (k, add_tree, kept) (descend-visit prune listing (visit b p w) h)
        ]

    descend-visit :
        (prune : String → Bool) (listing : Listing) (r : Watcher S × Option WatchError)
        → is_readable_listing listing ≡ true
        → descend b prune listing r ≡ visit_all (kept_listing prune listing) r
    descend-visit prune listing (w, some e) h =
        sym (visit_all-failed (kept_listing prune listing) w e)
    descend-visit prune unreadable (w, none) h = absurd (ground (arith, h))
    descend-visit prune end (w, none) h = refl
    descend-visit prune (item entry more) (w, none) h =
        descend-visit prune more (add_tree b prune entry w) (ground (arith, h))
        ∙ ap (visit_all (kept_listing prune more))
            (add_tree-visit prune entry w (ground (arith, h)))
        ∙ sym (visit_all-append (kept prune entry) (kept_listing prune more) (w, none))

  -- The paths added to the backend one after the other.
  unfoldable pub add_all : List String → S → S
  add_all [] s = s
  add_all (p ∷ ps) s = add_all ps (b.add s p).0

  -- The watcher after `ps` were visited with room for `n` more directories, and the error.
  unfoldable pub after : ℕ → List String → Watcher S → Watcher S × Option WatchError
  after n ps w = (
    record w { backend = add_all (take n ps) w.backend; watched = w.watched + length (take n ps) },
    if leb (length ps) n then none else some budget_exhausted,
  )

  after-nil : (n : ℕ) (w : Watcher S) → after n [] w ≡ (w, none)
  unfolding after add_all
  after-nil zero w = let z : w.watched + 0 ≡ w.watched = omega arith in rw z refl
  after-nil (suc n) w =
      let z : w.watched + 0 ≡ w.watched = omega arith in
      let l : leb 0 (suc n) ≡ true = ground arith in rw (z, l) refl

  after-full :
      (p : String) (ps : List String) (w : Watcher S)
      → after 0 (p ∷ ps) w ≡ (w, some budget_exhausted)
  unfolding after add_all
  after-full p ps w =
      let z : w.watched + 0 ≡ w.watched = omega arith in
      let l : leb (suc (length ps)) 0 ≡ false = ground arith in rw (z, l) refl

  after-step :
      (n : ℕ) (p : String) (ps : List String) (w : Watcher S)
      → after n ps (record w { backend = (b.add w.backend p).0; watched = suc w.watched })
        ≡ after (suc n) (p ∷ ps) w
  unfolding after add_all
  after-step n p ps w =
      let k = length (take n ps) in
      let e : suc w.watched + k ≡ w.watched + suc k = omega arith in
      let l : leb (length ps) n ≡ leb (suc (length ps)) (suc n) = ground arith in rw (e, l) refl

  visit_all-after :
      (ps : List String) (w : Watcher S)
      → ((s : S) (p : String) → (b.add s p).1 ≡ true)
      → visit_all ps (w, none) ≡ after (w.max_dirs - w.watched) ps w
  unfolding visit_all
  visit_all-after [] w a = sym (after-nil (w.max_dirs - w.watched) w)
  visit_all-after (p ∷ ps) w a = elim (Bool-cases (leb w.max_dirs w.watched)) [
    | inl k ↦
        let full : w.max_dirs - w.watched ≡ 0 = ground (arith, k) in
        rw (k, full) (visit_all-failed ps w budget_exhausted ∙ sym (after-full p ps w))
    | inr k ↦
        let n = w.max_dirs - suc w.watched in
        let room : w.max_dirs - w.watched ≡ suc n = ground (arith, k) in
        rw (k, room, a w.backend p)
          (visit_all-after ps
              (record w { backend = (b.add w.backend p).0; watched = suc w.watched }) a
            ∙ after-step n p ps w)
  ]

  -- In a tree whose listings can be read, with a backend that refuses no directory, the walk watches
  -- exactly the directories that the rules keep, in the order of the walk and as far as the budget
  -- goes, counts those, and reports the budget as exhausted just when some are left out.
  pub add_tree-after :
      (prune : String → Bool) (tree : Entry) (w : Watcher S)
      → ((s : S) (p : String) → (b.add s p).1 ≡ true)
      → is_readable tree ≡ true
      → add_tree b prune tree w ≡ after (w.max_dirs - w.watched) (kept prune tree) w
  add_tree-after prune tree w a h =
      add_tree-visit prune tree w h ∙ visit_all-after (kept prune tree) w a
