-- ===== src/Watcher/Budget.antt =====
-- watcher.go: no sequence of additions, removals and events puts more directories under watch than the budget.
use overgent.Watcher.{
  Ignorer, Entry, plain, directory, Listing, unreadable, end, item, WatchError, Backend, Watcher,
  new, max_watched_directories, visit, add_tree, descend, rules, put_root, add, release, remove,
  is_under, ignorer_for, add_created, Notice, appeared, event, failure, handle, schedule,
}
use mathlib.Core.Path.{subst}
use overgent.Prelude.{
  ℕ, suc, ◌+◌, ◌≤◌, String, ◌≡◌, refl, sym, ◌⊎◌, inl, inr, Bool, true, false, ◌&&◌, ◌||◌, not,
  Option, none, some, List, [], ◌∷◌, arith, str_eq, leb, Bool-cases, Option-cases, length,
}

-- fsnotify: a path that is added makes the watch list longer by one path at most.
unfoldable pub Grows : {S : Type 0} → Backend S → Type 0
Grows {S} b =
    (s : S) (p : String) → length (b.watch_list (b.add s p).0) ≤ suc (length (b.watch_list s))

-- fsnotify: a path whose removal succeeds is gone from the watch list.
unfoldable pub Shrinks : {S : Type 0} → Backend S → Type 0
Shrinks {S} b =
    (s : S) (p : String) (s' : S)
    → b.remove s p ≡ some s'
    → suc (length (b.watch_list s')) ≤ length (b.watch_list s)

-- The count covers the watch list, and the budget covers the count.
pub IsBudgeted : {S : Type 0} → Backend S → ℕ → Watcher S → Type 0
IsBudgeted b m w =
    (length (b.watch_list w.backend) ≤ w.watched) × (w.watched ≤ m) × (w.max_dirs ≡ m)

module _ {S : Type 0} (b : Backend S) (m : ℕ) (grows : Grows b) (shrinks : Shrinks b) where
  visit-IsBudgeted :
      (p : String) (w : Watcher S) → IsBudgeted b m w → IsBudgeted b m (visit b p w).0
  unfolding IsBudgeted Grows
  visit-IsBudgeted p w (l, c, e) = elim (Bool-cases (leb w.max_dirs w.watched)) [
    | inl k ↦ rw k (l, c, e)
    | inr k ↦ let g = grows w.backend p in rw k (omega (arith, g, l), ground (arith, e, k), e)
  ]

  mutual
    unfolding add_tree descend

    add_tree-IsBudgeted :
        (prune : String → Bool) (tree : Entry) (w : Watcher S)
        → IsBudgeted b m w
        → IsBudgeted b m (add_tree b prune tree w).0
    add_tree-IsBudgeted prune (plain p) w h = h
    add_tree-IsBudgeted prune (directory p base listing) w h =
        elim (Bool-cases (str_eq base ".git" || prune p)) [
          | inl k ↦ rw (k, add_tree) h
          | inr k ↦
              rw (k, add_tree)
                (descend-IsBudgeted prune listing (visit b p w) (visit-IsBudgeted p w h))
        ]

    descend-IsBudgeted :
        (prune : String → Bool) (listing : Listing) (r : Watcher S × Option WatchError)
        → IsBudgeted b m r.0
        → IsBudgeted b m (descend b prune listing r).0
    descend-IsBudgeted prune listing (w, some e) h = h
    descend-IsBudgeted prune unreadable (w, none) h = h
    descend-IsBudgeted prune end (w, none) h = h
    descend-IsBudgeted prune (item entry more) (w, none) h =
        descend-IsBudgeted prune more (add_tree b prune entry w)
          (add_tree-IsBudgeted prune entry w h)

  release-taken :
      (root p : String) (ps : List String) (s s' : S) (n : ℕ)
      → is_under b root p ≡ true
      → b.remove s p ≡ some s'
      → release b root (p ∷ ps) s n ≡ release b root ps s' (suc n)
  unfolding release
  release-taken root p ps s s' n k r = rw (k, r, release) refl

  release-passed :
      (root p : String) (ps : List String) (s : S) (n : ℕ)
      → (is_under b root p ≡ false) ⊎ (b.remove s p ≡ none)
      → release b root (p ∷ ps) s n ≡ release b root ps s n
  unfolding release
  release-passed root p ps s n (inl k) = rw (k, release) refl
  release-passed root p ps s n (inr r) = elim (Bool-cases (is_under b root p)) [
    | inl k ↦ rw (k, r, release) refl
    | inr k ↦ rw (k, release) refl
  ]

  release-length :
      (root : String) (ps : List String) (s : S) (n : ℕ)
      → length (b.watch_list (release b root ps s n).0) + (release b root ps s n).1
        ≤ length (b.watch_list s) + n
  unfolding release Shrinks
  release-length root [] s n = omega arith
  release-length root (p ∷ ps) s n =
      let bound = λ (x : S × ℕ). length (b.watch_list x.0) + x.1 ≤ length (b.watch_list s) + n in
      elim (Bool-cases (is_under b root p)) [
        | inl k ↦ elim (Option-cases (b.remove s p)) [
          | inl r ↦
              subst bound (sym (release-passed root p ps s n (inr r))) (release-length root ps s n)
          | inr (s', r) ↦
              let rest = release-length root ps s' (suc n) in
              let less = shrinks s p s' r in
              subst bound (sym (release-taken root p ps s s' n k r)) (omega (arith, rest, less))
        ]
        | inr k ↦
            subst bound (sym (release-passed root p ps s n (inl k))) (release-length root ps s n)
      ]

  remove-IsBudgeted :
      (root : String) (w : Watcher S) → IsBudgeted b m w → IsBudgeted b m (remove b root w).0
  unfolding IsBudgeted remove
  remove-IsBudgeted root w (l, c, e) =
      let r = release-length root (b.watch_list w.backend) w.backend 0 in
      (omega (arith, r, l), omega (arith, c), e)

  add-IsBudgeted :
      (root : String) (ignore : Option Ignorer) (tree : Option Entry) (w : Watcher S)
      → IsBudgeted b m w
      → IsBudgeted b m (add b root ignore tree w).0
  unfolding add IsBudgeted
  add-IsBudgeted root ignore none w h = h
  add-IsBudgeted root ignore (some tree) w h =
      add_tree-IsBudgeted (rules b ignore) tree
        (record w { roots = put_root b root ignore w.roots }) h

  add_created-IsBudgeted :
      (dir : String) (tree : Entry) (w : Watcher S)
      → IsBudgeted b m w
      → IsBudgeted b m (add_created b dir tree w)
  unfolding add_created
  add_created-IsBudgeted dir tree w h = elim (Option-cases (ignorer_for b dir w)) [
    | inl k ↦ rw (k, add_created) (add_tree-IsBudgeted (λ p. false) tree w h)
    | inr ((root, none), k) ↦ rw (k, add_created) (add_tree-IsBudgeted (λ p. false) tree w h)
    | inr ((root, some i), k) ↦ elim (Bool-cases (i.ignored dir)) [
      | inl g ↦ rw (k, g, add_created) h
      | inr g ↦
          rw (k, g, add_created)
            (add_tree-IsBudgeted (λ p. not (str_eq p dir) && i.ignored p) tree w h)
    ]
  ]

  handle-IsBudgeted :
      (n : Notice) (w : Watcher S) → IsBudgeted b m w → IsBudgeted b m (handle b n w)
  unfolding handle schedule IsBudgeted
  handle-IsBudgeted (appeared dir tree) w h = add_created-IsBudgeted dir tree w h
  handle-IsBudgeted (event is_create) w h = h
  handle-IsBudgeted (failure true) w h = h
  handle-IsBudgeted (failure false) w h = h

-- What happens to a watcher: Add, Remove, what Run receives, and the system dropping watches.
pub data Reach {S : Type 0} (b : Backend S) : Watcher S → Type 0 where
  started : (s : S) → b.watch_list s ≡ [] → Reach b (new s)
  added :
      (root : String) (ignore : Option Ignorer) (tree : Option Entry) (w : Watcher S)
      → Reach b w
      → Reach b (add b root ignore tree w).0
  removed : (root : String) (w : Watcher S) → Reach b w → Reach b (remove b root w).0
  noticed : (n : Notice) (w : Watcher S) → Reach b w → Reach b (handle b n w)
  dropped :
      (s : S) (w : Watcher S)
      → length (b.watch_list s) ≤ length (b.watch_list w.backend)
      → Reach b w
      → Reach b (record w { backend = s })

module _ {S : Type 0} (b : Backend S) (grows : Grows b) (shrinks : Shrinks b) where
  -- Whatever roots are added and removed, whatever directories appear and vanish, and whatever fails,
  -- the count covers the watch list and the budget of 4096 directories covers the count.
  pub Reach-IsBudgeted : (w : Watcher S) → Reach b w → IsBudgeted b max_watched_directories w
  unfolding IsBudgeted new
  Reach-IsBudgeted w (started s e) = (rw e (omega arith), omega arith, refl)
  Reach-IsBudgeted w (added root ignore tree v r) =
      add-IsBudgeted b max_watched_directories grows shrinks root ignore tree v
        (Reach-IsBudgeted v r)
  Reach-IsBudgeted w (removed root v r) =
      remove-IsBudgeted b max_watched_directories grows shrinks root v (Reach-IsBudgeted v r)
  Reach-IsBudgeted w (noticed n v r) =
      handle-IsBudgeted b max_watched_directories grows shrinks n v (Reach-IsBudgeted v r)
  Reach-IsBudgeted w (dropped s v l r) =
      let h = Reach-IsBudgeted v r in (omega (arith, l, h.0), h.1, h.2)
