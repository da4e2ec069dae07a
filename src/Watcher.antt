-- ===== src/Watcher.antt =====
-- internal/watcher/watcher.go: which directories are under watch, and the budget that bounds them.
pub mod Budget
pub mod Coverage
pub mod Rules
pub mod Examples
use overgent.Prelude.{
  ℕ, suc, ◌-◌, String, Bool, true, false, ◌&&◌, ◌||◌, not, Option, none, some, List, [], ◌∷◌,
  str_eq, leb, if◌then◌else◌,
}
use overgent.Prelude.Tables.Order.{sort_by}
use overgent.Hooks.Settings.{value_of}
use Prim.Native.String.{len, ◌++◌ as concat}
use text.Mathlib.Text.{starts_with}

-- Ignorer: the two questions that the rules of a repository answer.
pub record Ignorer : Type 0 where
  pub prune : String → Bool
  pub ignored : String → Bool

-- What filepath.WalkDir meets in a tree: a file, or a directory with its path, its last element and
-- its listing. A listing that cannot be read ends the walk with its error.
mutual
  pub data Entry : Type 0 where
    plain : String → Entry
    directory : String → String → Listing → Entry

  pub data Listing : Type 0 where
    unreadable : Listing
    end : Listing
    item : Entry → Listing → Listing

pub data WatchError : Type 0 where
  budget_exhausted : WatchError
  not_read : WatchError
  not_added : WatchError

-- fsnotify.Watcher: what a watch list does when a path is added, removed or dropped by the system.
pub record Backend (S : Type 0) : Type 0 where
  pub add : S → String → S × Bool
  pub remove : S → String → Option S
  pub watch_list : S → List String

-- Watcher: the timer holds the argument of the scan that waits for it.
pub record Watcher (S : Type 0) : Type 0 where
  pub backend : S
  pub roots : List (String × Option Ignorer)
  pub watched : ℕ
  pub max_dirs : ℕ
  pub timer : Option Bool

-- What Run receives: a directory that was created, any other event, and an error or a closed channel.
pub data Notice : Type 0 where
  appeared : String → Entry → Notice
  event : Bool → Notice
  failure : Bool → Notice

-- maxWatchedDirectories
abbrev pub max_watched_directories : ℕ
max_watched_directories = 4096

unfoldable pub new : {S : Type 0} → S → Watcher S
new s = record {
  backend = s;
  roots = [];
  watched = 0;
  max_dirs = max_watched_directories;
  timer = none;
}

module _ {S : Type 0} (b : Backend S) where
  -- The visit of one directory that is not pruned: it is counted before the backend is asked.
  abbrev pub visit : String → Watcher S → Watcher S × Option WatchError
  visit p w = if leb w.max_dirs w.watched then (w, some budget_exhausted) else (
    record w { backend = (b.add w.backend p).0; watched = suc w.watched },
    if (b.add w.backend p).1 then none else some not_added,
  )

  -- addTree
  unfoldable mutual
    pub add_tree : (String → Bool) → Entry → Watcher S → Watcher S × Option WatchError
    add_tree prune (plain p) w = (w, none)
    add_tree prune (directory p base listing) w = elim (str_eq base ".git" || prune p) [
      | true ↦ (w, none)
      | false ↦ descend prune listing (visit p w)
    ]

    pub descend :
        (String → Bool) → Listing → Watcher S × Option WatchError → Watcher S × Option WatchError
    descend prune listing (w, some e) = (w, some e)
    descend prune unreadable (w, none) = (w, some not_read)
    descend prune end (w, none) = (w, none)
    descend prune (item entry more) (w, none) = descend prune more (add_tree prune entry w)

  abbrev pub rules : Option Ignorer → String → Bool
  rules none p = false
  rules (some i) p = i.prune p

  -- `w.roots[root] = ignore`
  unfoldable pub put_root :
      String → Option Ignorer → List (String × Option Ignorer) → List (String × Option Ignorer)
  put_root root ignore [] = (root, ignore) ∷ []
  put_root root ignore ((r, i) ∷ rs) =
      let rest = put_root root ignore rs in
      if str_eq r root then (root, ignore) ∷ rs else (r, i) ∷ rest

  -- Add, on the tree that stands at the root
  unfoldable pub add :
      String → Option Ignorer → Option Entry → Watcher S → Watcher S × Option WatchError
  add root ignore none w = (record w { roots = put_root root ignore w.roots }, some not_read)
  add root ignore (some tree) w =
      add_tree (rules ignore) tree (record w { roots = put_root root ignore w.roots })

  abbrev pub is_under : String → String → Bool
  is_under root path = str_eq path root || starts_with path (concat root "/")

  -- The loop of Remove over the watch list that it has read, with the number released.
  unfoldable pub release : String → List String → S → ℕ → S × ℕ
  release root [] s released = (s, released)
  release root (p ∷ ps) s released = elim (is_under root p) [
    | false ↦ release root ps s released
    | true ↦ elim (b.remove s p) [
      | none ↦ release root ps s released
      | some s' ↦ release root ps s' (suc released)
    ]
  ]

  unfoldable pub drop_root :
      String → List (String × Option Ignorer) → List (String × Option Ignorer)
  drop_root root [] = []
  drop_root root ((r, i) ∷ rs) =
      let rest = drop_root root rs in if str_eq r root then rest else (r, i) ∷ rest

  -- Remove, and the number of directories that it answers. `-` stops at 0, as the code does.
  unfoldable pub remove : String → Watcher S → Watcher S × ℕ
  remove root w =
      let (s, released) = release root (b.watch_list w.backend) w.backend 0 in
      (
        record w { backend = s; roots = drop_root root w.roots; watched = w.watched - released },
        released,
      )

  abbrev pub longer : String × Option Ignorer → String × Option Ignorer → Bool
  longer (r, i) (r', i') = leb (len r') (len r)

  abbrev pub first_under :
      String → List (String × Option Ignorer) → Option (String × Option Ignorer)
  first_under path [] = none
  first_under path ((r, i) ∷ rs) =
      let rest = first_under path rs in if is_under r path then some (r, i) else rest

  -- ignorerFor, with the root that it has found; the separator is "/".
  unfoldable pub ignorer_for : String → Watcher S → Option (String × Option Ignorer)
  ignorer_for path w = first_under path (sort_by longer w.roots)

  -- addCreated: its errors are dropped.
  unfoldable pub add_created : String → Entry → Watcher S → Watcher S
  add_created dir tree w = elim (ignorer_for dir w) [
    | none ↦ (add_tree (λ p. false) tree w).0
    | some found ↦ elim (found.1) [
      | none ↦ (add_tree (λ p. false) tree w).0
      | some i ↦
          if i.ignored dir then w else (add_tree (λ p. not (str_eq p dir) && i.ignored p) tree w).0
    ]
  ]

  -- schedule: a scan that waited is put off, with the later argument.
  unfoldable pub schedule : Bool → Watcher S → Watcher S
  schedule full w = record w { timer = some full }

  -- One round of Run's loop.
  unfoldable pub handle : Notice → Watcher S → Watcher S
  handle (appeared dir tree) w = schedule true (add_created dir tree w)
  handle (event is_create) w = schedule is_create w
  handle (failure true) w = schedule true w
  handle (failure false) w = w
