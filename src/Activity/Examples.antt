-- ===== src/Activity/Examples.antt =====
-- internal/agentactivity/activity.go on a host whose paths are absolute and without links.
use overgent.Prelude.{
  ℕ, suc, ◌+◌, ◌<◌, ◌≡◌, refl, true, false, ◌⊎◌, inl, inr, Bool-cases, Option-cases, ◌==◌, Option,
  none, some, List, [], ◌∷◌, ◌++◌, arith, if◌then◌else◌, length, ok, err,
}
use mathlib.Core.Option.{some-injective}
use overgent.Prelude.Tables.{any}
use overgent.Prelude.Bytes.{ascii, same, begins, trim_prefix}
use overgent.Activity.{
  validate_safe_path, Event, Host, canonicalize_existing, climb, normalize_path, normalize_paths,
  ActivityError,
}
use overgent.Activity.Paths.{IsParent, canonicalize_existing_ends}

-- Paths under /r; the parent of every path is the root.
abbrev flat : Host
flat = record {
  eval_symlinks = λ p. if same p (ascii "/r") then some p else none;
  is_abs = λ p. true;
  join = λ p q. p ++ 47 ∷ q;
  clean = λ p. p;
  dir = λ p. [];
  base = λ p. p;
  rel =
      λ root p. if begins (root ++ 47 ∷ []) p then some (trim_prefix (root ++ 47 ∷ []) p) else none;
  to_slash = λ p. p;
  separator = ascii "/";
  to_lower = λ p. p;
  digits = λ n. ascii "1";
}

abbrev observed : Event
observed = record {
  cwd = ascii "/r";
  kind = ascii "PostToolUse";
  status = ascii "active";
  action = ascii "Finished editing";
  tool = ascii "edit";
  candidate_paths = ascii "/r/b.go" ∷ ascii "/r/a.go" ∷ ascii "/r/b.go" ∷ [];
}

abbrev told : Event
told = record observed {
  candidate_paths = ascii "a.go" ∷ ascii "b.go" ∷ [];
  action = ascii "editing a.go and 1 more";
}

protected_runs :
    normalize_paths flat (record observed { candidate_paths = ascii "/r/.env" ∷ [] }) (ascii "/r")
    ≡ err ActivityError.protected_path
unfolding normalize_paths same overgent.Activity.normalize_loop normalize_path begins
    canonicalize_existing climb trim_prefix overgent.Activity.validate_safe_path
    overgent.Prelude.Bytes.contains_byte overgent.Prelude.Bytes.contains any
    overgent.Prelude.Bytes.split
protected_runs = refl

-- The directory of the Google Cloud credentials is only protected below another one.
gcloud_runs :
    (validate_safe_path flat (ascii ".config/gcloud/a.db") ≡ ok tt)
    × (validate_safe_path flat (ascii "h/.config/gcloud/a.db") ≡ err ActivityError.protected_path)
unfolding validate_safe_path same overgent.Prelude.Bytes.contains_byte
    overgent.Prelude.Bytes.contains any overgent.Prelude.Bytes.split overgent.Prelude.Bytes.ends
gcloud_runs = (refl, refl)

-- What stands before the last slash of a path.
unfoldable before_slash : List ℕ → Option (List ℕ)
before_slash [] = none
before_slash (c ∷ p) = elim (before_slash p) [
  | some q ↦ some (c ∷ q)
  | none ↦ if c == 47 then some [] else none
]

before_slash-shorter : (p q : List ℕ) → before_slash p ≡ some q → length q < length p
unfolding before_slash
before_slash-shorter [] q h = cc h
before_slash-shorter (c ∷ p) q h = elim (Option-cases (before_slash p)) [
  | inl e ↦ elim (Bool-cases (c == 47)) [
    | inl s ↦ let z : [] ≡ q = some-injective [] q (rw (e, s) at h) in rw (← z) (omega arith)
    | inr s ↦ cc (rw (e, s) at h)
  ]
  | inr (r, e) ↦
      let z : c ∷ r ≡ q = some-injective (c ∷ r) q (rw e at h) in
      rw (← z) (omega (arith, before_slash-shorter p r e))
]

-- filepath.Dir of a clean path.
unfoldable dir_of : List ℕ → List ℕ
unfolding before_slash
dir_of p = elim (before_slash p) [ none ↦ ascii "." | some [] ↦ ascii "/" | some (c ∷ q) ↦ c ∷ q ]

-- Paths that begin with a slash are absolute.
abbrev rooted : Host
rooted = record flat { is_abs = begins (ascii "/"); dir = dir_of }

root_parent :
    (c : ℕ) (p : List ℕ)
    → (c == 47) ≡ true
    → (same (ascii "/") (c ∷ p) ≡ true) ⊎ (length (ascii "/") < length (c ∷ p))
unfolding same
root_parent c [] h = inl (ground (arith, h))
root_parent c (d ∷ p) h = inr (omega arith)

dir_of-root :
    (c : ℕ) (p : List ℕ) → before_slash p ≡ none → (c == 47) ≡ true → dir_of (c ∷ p) ≡ ascii "/"
unfolding dir_of before_slash
dir_of-root c p e s = ground (arith, e, s)

dir_of-below : (c : ℕ) (p q : List ℕ) → before_slash p ≡ some q → dir_of (c ∷ p) ≡ c ∷ q
unfolding dir_of before_slash
dir_of-below c p q e = ground (arith, e)

rooted-IsParent : (p : List ℕ) → begins (ascii "/") p ≡ true → IsParent rooted p
unfolding begins
rooted-IsParent [] a = cc a
rooted-IsParent (c ∷ p) a = elim (Option-cases (before_slash p)) [
  | inl e ↦
      let slash : (c == 47) ≡ true = ground (arith, a) in
      rw (dir_of-root c p e slash) (refl, root_parent c p slash)
  | inr (q, e) ↦ rw (dir_of-below c p q e) (a, inr (omega (arith, before_slash-shorter p q e)))
]

canonicalize_existing_ends_example :
    (path : List ℕ) × (canonicalize_existing rooted (ascii "/q/a") ≡ some path)
    × ((more : ℕ)
        → rooted.eval_symlinks (ascii "/q/a") ≡ none
        → climb rooted (suc (length (ascii "/q/a")) + more) (ascii "/q/a") (ascii "/q/a") []
          ≡ some path)
unfolding begins
canonicalize_existing_ends_example =
    canonicalize_existing_ends rooted (ascii "/q/a") refl rooted-IsParent

-- The parents of a path up to the root.
parents_run :
    (dir_of (ascii "/q/a") ≡ ascii "/q")
    × (dir_of (ascii "/q") ≡ ascii "/")
    × (dir_of (ascii "/") ≡ ascii "/")
unfolding dir_of before_slash
parents_run = (refl, refl, refl)
