-- ===== src/Hooks/Command/Paths.antt =====
-- internal/hookconfig/command.go, the paths of a command: which are absolute on which system, and path.Clean.
use overgent.Prelude.{
  ℕ, Bool, true, false, ◌&&◌, ◌||◌, not, List, [], ◌∷◌, leb, ◌==◌, if◌then◌else◌, length,
}
use overgent.Prelude.Bytes.{ascii, same, begins, trim_prefix, replace_all, byte_at, split, join}

abbrev is_letter : ℕ → Bool
is_letter c = (leb 65 c && leb c 90) || (leb 97 c && leb c 122)

-- `strings.ReplaceAll(value, `\`, "/")`
abbrev pub slashed : List ℕ → List ℕ
unfolding replace_all
slashed value = replace_all (92 ∷ []) (47 ∷ []) value

abbrev names_share : List (List ℕ) → Bool
names_share [] = false
names_share (server ∷ []) = false
names_share (server ∷ share ∷ more) = not (same server []) && not (same share [])

unfoldable pub windows_absolute : List ℕ → Bool
unfolding same begins trim_prefix byte_at split replace_all
windows_absolute value =
    if leb 3 (length value)
      && is_letter (byte_at 0 value)
      && byte_at 1 value == 58
      && (byte_at 2 value == 92 || byte_at 2 value == 47)
    then true
    else (if not (begins (ascii "//") (slashed value))
        then false
        else names_share (split 47 (trim_prefix (ascii "//") (slashed value))))

unfoldable pub is_absolute_path : List ℕ → Bool
is_absolute_path value = begins (ascii "/") value || windows_absolute value

unfoldable pub path_is_abs : List ℕ → List ℕ → Bool
path_is_abs value goos =
    if same goos (ascii "windows") then windows_absolute value else begins (ascii "/") value

-- path.Clean, one segment: `kept` holds the segments so far, the last first.
unfoldable pub up : Bool → List (List ℕ) → List (List ℕ)
unfolding same
up rooted [] = if rooted then [] else ascii ".." ∷ []
up rooted (k ∷ ks) = if same k (ascii "..") then ascii ".." ∷ k ∷ ks else ks

unfoldable pub clean_step : Bool → List ℕ → List (List ℕ) → List (List ℕ)
unfolding same
clean_step rooted s kept =
    if same s [] || same s (ascii ".")
    then kept
    else (if same s (ascii "..") then up rooted kept else s ∷ kept)

unfoldable pub clean_segments : Bool → List (List ℕ) → List (List ℕ) → List (List ℕ)
clean_segments rooted [] kept = kept
clean_segments rooted (s ∷ ss) kept = clean_segments rooted ss (clean_step rooted s kept)

unfoldable pub back_to_front : List (List ℕ) → List (List ℕ) → List (List ℕ)
back_to_front [] done = done
back_to_front (s ∷ ss) done = back_to_front ss (s ∷ done)

abbrev or_dot : List ℕ → List ℕ
or_dot [] = ascii "."
or_dot (c ∷ s) = c ∷ s

unfoldable pub clean : List ℕ → List ℕ
unfolding begins split join clean_segments back_to_front
clean path =
    let rooted = begins (ascii "/") path in
    let cleaned = join 47 (back_to_front (clean_segments rooted (split 47 path) []) []) in
    if rooted then 47 ∷ cleaned else or_dot cleaned

unfoldable pub clean_portable_path : List ℕ → List ℕ
clean_portable_path value =
    if not (windows_absolute value)
    then clean value
    else replace_all (47 ∷ []) (92 ∷ []) (clean (slashed value))
