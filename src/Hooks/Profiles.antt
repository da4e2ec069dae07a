-- ===== src/Hooks/Profiles.antt =====
-- hooks.go, ParseManagedPrefix and Abandoned: whether a binding that is found may be adopted unasked.
use overgent.Prelude.{
  ℕ, ◌/◌, ◌%◌, Bool, true, false, ◌&&◌, ◌||◌, not, Option, none, some, List, [], ◌∷◌, ◌==◌,
  if◌then◌else◌,
}
use overgent.Prelude.Tables.{any}
use overgent.Prelude.Bytes.{ascii, same, contains_any}
use overgent.Hooks.Command.{Binding, parse_prefix, checked, windows_absolute, clean_portable_path}

-- What `os.Stat` tells of a path.
pub record FileInfo : Type 0 where
  pub is_dir : Bool
  pub mode : ℕ

-- The identities that a profile's config.json holds.
pub record Stored : Type 0 where
  pub device_id : List ℕ
  pub backends : List (List ℕ)

-- The operating system, package path/filepath, and the reading of a profile's config.json.
pub record Host : Type 0 where
  pub is_windows : Bool
  pub absolute : List ℕ → Option (List ℕ)
  pub filepath_clean : List ℕ → List ℕ
  pub base : List ℕ → List ℕ
  pub lower_ext : List ℕ → List ℕ
  pub equal_fold : List ℕ → List ℕ → Bool
  pub stat : List ℕ → Option FileInfo
  pub stored : List ℕ → Option Stored

-- A command up to the vendor marker, read as a binding.
unfoldable pub parse_managed_prefix : List ℕ → Option Binding
parse_managed_prefix prefix =
    if contains_any (13 ∷ 10 ∷ 0 ∷ []) prefix then none else checked (parse_prefix prefix)

module _ (o : Host) where
  unfoldable pub same_profile : List ℕ → List ℕ → Bool
  same_profile left right =
      if windows_absolute left || windows_absolute right
      then windows_absolute left
        && windows_absolute right
        && o.equal_fold (clean_portable_path left) (clean_portable_path right)
      else same (clean_portable_path left) (clean_portable_path right)

  unfoldable pub clean_profile : List ℕ → List ℕ
  clean_profile value =
      if same value [] || same value (ascii "portable")
      then []
      else (if windows_absolute value then clean_portable_path value else elim (o.absolute value) [
        | some path ↦ o.filepath_clean path
        | none ↦ o.filepath_clean value
      ])

  abbrev pub directory_exists : List ℕ → Bool
  directory_exists path = elim (o.stat path) [ some info ↦ info.is_dir | none ↦ false ]

  abbrev runs_on_windows : List ℕ → Bool
  runs_on_windows ext =
      same ext (ascii ".exe")
      || same ext (ascii ".cmd")
      || same ext (ascii ".bat")
      || same ext (ascii ".com")

  -- `mode & 0o111 != 0`
  abbrev executable_bit : ℕ → Bool
  executable_bit mode = not (mode % 2 == 0 && mode / 8 % 2 == 0 && mode / 64 % 2 == 0)

  unfoldable pub executable_exists : List ℕ → Bool
  executable_exists path = elim (o.stat path) [
    | none ↦ false
    | some info ↦
        if info.is_dir
        then false
        else (if o.is_windows then runs_on_windows (o.lower_ext path) else executable_bit info.mode)
  ]

  unfoldable pub profile_has_device : List ℕ → Bool
  unfolding same any
  profile_has_device root = elim (o.stored root) [
    | none ↦ false
    | some s ↦ if not (same s.device_id []) then true else any (λ id. not (same id [])) s.backends
  ]

  unfoldable pub abandoned : List ℕ → List ℕ → List ℕ → Bool
  abandoned current_config_root previous_profile previous_executable =
      let current = clean_profile current_config_root in
      let previous = clean_profile previous_profile in
      if same previous []
      then true
      else (if same_profile previous current
          then true
          else (if not (directory_exists previous)
              then true
              else (if same (o.base previous) (ascii "Stickguy")
                  then true
                  else (if not (profile_has_device previous)
                      then true
                      else not (same previous_executable [])
                        && not (same previous_executable (ascii "overgent"))
                        && not (executable_exists previous_executable)))))
