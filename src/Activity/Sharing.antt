-- ===== src/Activity/Sharing.antt =====
-- activity.go, NormalizePaths: which paths an observation shares.
use overgent.Prelude.{ℕ, ◌≤◌, ◌≡◌, Bool, false, some, List, [], ◌++◌, length, All, ok, err}
use overgent.Prelude.Tables.{any}
use overgent.Prelude.Bytes.{ascii, same, begins, contains, contains_byte, split}
use overgent.Activity.{Host, is_protected, normalize_path, settled, absolute_of, Event}

module _ (o : Host) where
  -- A path that may leave the device: it has at most 512 bytes, no NUL and no backslash, none of its
  -- segments, in lower case, is that of a credential, and it does not pass through .config/gcloud below
  -- another directory.
  unfoldable pub IsSafe : List ℕ → Type 0
  IsSafe p =
      (same p [] ≡ false)
      × (length p ≤ 512)
      × (contains_byte 0 p ≡ false)
      × (contains (ascii "\\") p ≡ false)
      × (any (is_protected o) (split 47 (o.to_lower p)) ≡ false)
      × (contains (ascii "/.config/gcloud/") (o.to_lower p) ≡ false)

  -- The path of a file from the root, which does not lead up out of the root.
  unfoldable pub IsInside : List ℕ → List ℕ → List ℕ → Type 0
  IsInside root file p =
      (relative : List ℕ) × (o.rel root file ≡ some relative)
      × (same relative (ascii "..") ≡ false)
      × (begins (ascii ".." ++ o.separator) relative ≡ false)
      × (p ≡ o.to_slash relative)

  -- A path that is shared: the path, from the root, of some file in it.
  unfoldable pub IsOwn : List ℕ → List ℕ → Type 0
  IsOwn root p = IsSafe p × ((file : List ℕ) × IsInside root file p)

  -- A candidate has a normal form, which is the path from the root of the file that it names.
  unfoldable pub HasForm : List ℕ → List ℕ → List ℕ → Type 0
  HasForm root cwd c =
      (p : List ℕ) × (normalize_path o root cwd c ≡ ok p)
      × IsInside root (settled o (o.clean (absolute_of o cwd c))) p

  module _ (root cwd : List ℕ) where
    -- A candidate whose normal form is `p`.
    unfoldable pub yields : List ℕ → List ℕ → Bool
    yields p c = elim (normalize_path o root cwd c) [ ok q ↦ same p q | err e ↦ false ]

  -- What an event tells after NormalizePaths, compared with the event before.
  unfoldable pub IsShared : List ℕ → Event → Event → Type 0
  IsShared root e e' =
      (length e'.candidate_paths ≤ 100)
      × All (IsOwn root) e'.candidate_paths
      × All (HasForm root e.cwd) e.candidate_paths
      × ((p : List ℕ)
          → any (same p) e'.candidate_paths ≡ any (yields root e.cwd p) e.candidate_paths)
      × (e'.status ≡ e.status)
