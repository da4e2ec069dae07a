-- ===== src/Watcher/Examples.antt =====
-- internal/watcher/watcher.go over a watch list kept as a list of paths.
use overgent.Watcher.{
  Ignorer, Entry, plain, directory, Listing, unreadable, end, item, WatchError, budget_exhausted,
  not_read, not_added, Backend, Watcher, new, max_watched_directories, visit, add_tree, descend,
  rules, put_root, add, release, remove, is_under, ignorer_for, add_created, Notice, appeared,
  event, failure, handle, schedule, first_under, longer,
}
use overgent.Watcher.Budget.{Grows, Shrinks, IsBudgeted, started, added, Reach-IsBudgeted}
use overgent.Prelude.{
  suc, String, ◌≡◌, refl, sym, inl, inr, Bool, true, Option, none, some, List, [], ◌∷◌, arith,
  str_eq, if◌then◌else◌, Bool-cases, length, All,
}
use overgent.Prelude.Tables.{any}
use overgent.Watcher.Coverage.{add_tree-after, after, kept}
use overgent.Watcher.Rules.{ignorer_for-IsInnermost, IsInnermost, IsRegistered}

drop_first : String → List String → List String
drop_first p [] = []
drop_first p (x ∷ xs) = let rest = drop_first p xs in if str_eq x p then xs else x ∷ rest

-- fsnotify keeps a path once, and refuses to remove one that it does not watch.
abbrev listed : Backend (List String)
listed = record {
  add = λ s p. (if any (str_eq p) s then s else p ∷ s, true);
  remove = λ s p. if any (λ x. str_eq x p) s then some (drop_first p s) else none;
  watch_list = λ s. s;
}

listed-Grows : Grows listed
unfolding Grows
listed-Grows s p = ground arith

length-drop_first :
    (p : String) (s : List String)
    → any (λ x. str_eq x p) s ≡ true
    → suc (length (drop_first p s)) ≡ length s
unfolding drop_first any
length-drop_first p [] h = ground arith
length-drop_first p (x ∷ xs) h = ground (arith, length-drop_first p xs)

listed-Shrinks : Shrinks listed
unfolding Shrinks
listed-Shrinks s p s' h = elim (Bool-cases (any (λ x. str_eq x p) s)) [
  | inl e ↦
      let z : drop_first p s ≡ s' = cc (rw e at h) in
      rw (sym z) (omega (arith, length-drop_first p s e))
  | inr e ↦ cc (rw e at h)
]

-- /r holds .git, node_modules with a directory, and src.
abbrev tree : Entry
tree = directory "/r" "r" (
    item (directory "/r/.git" ".git" end) (
      item
        (directory "/r/node_modules" "node_modules"
          (item (directory "/r/node_modules/a" "a" end) end))
        (item (plain "/r/a.go") (item (directory "/r/src" "src" end) end))))

abbrev modules : String → Bool
modules p = str_eq p "/r/node_modules"

abbrev ruled : Option Ignorer
ruled = some (record { prune = modules; ignored = modules })

abbrev begun : Watcher (List String)
begun = (add listed "/r" ruled (some tree) (new [])).0

kept_runs : kept modules tree ≡ ("/r" ∷ "/r/src" ∷ [])
unfolding kept
kept_runs = refl

Reach-IsBudgeted_example : IsBudgeted listed max_watched_directories begun
Reach-IsBudgeted_example =
    Reach-IsBudgeted listed listed-Grows listed-Shrinks begun
      (added "/r" ruled (some tree) (new []) (started [] refl))

add_tree-after_example :
    add_tree listed modules tree (new []) ≡ after listed 4096 (kept modules tree) (new [])
unfolding overgent.Watcher.Coverage.is_readable new
add_tree-after_example = add_tree-after listed modules tree (new []) (λ s p. refl) refl

ignorer_for-IsInnermost_example :
    All (IsInnermost listed "/r/src/x" (ignorer_for listed "/r/src/x" begun)) begun.roots
    × IsRegistered listed "/r/src/x" begun.roots (ignorer_for listed "/r/src/x" begun)
ignorer_for-IsInnermost_example = ignorer_for-IsInnermost listed "/r/src/x" begun

-- A directory that is watched and removed by the system stays counted.
counted_runs : (add listed "/r" ruled (some tree) (record begun { backend = [] })).0.watched ≡ 4
unfolding add add_tree new
counted_runs = refl
