-- ===== src/Hooks/Adoption.antt =====
-- hooks.go, Abandoned on a binding that ParseManagedCommand reads: a profile and its own binding.
use overgent.Hooks.Cleaning.{clean-clean, begins-clean}
use overgent.Hooks.Profiles.{Host, same_profile, clean_profile, abandoned}
use overgent.Hooks.Reads.{same_self}
use overgent.Hooks.RoundTrip.{is_readable}
use overgent.Hooks.Commands.{root_words}
use overgent.Hooks.Managed.{resolved, command_for_os-parse}
use overgent.Hooks.Command.{
  Binding, windows_absolute, clean, clean_portable_path, is_absolute_path, parse_managed_command,
  command_for_os, style_for,
}
use overgent.Prelude.Bytes.{ascii, same, begins, contains}
use overgent.Prelude.{ℕ, ◌≡◌, refl, ◌∙◌, true, false, some, List, [], ◌∷◌, arith, ok}

clean_portable_path-posix :
    (p : List ℕ) → windows_absolute p ≡ false → clean_portable_path p ≡ clean p
unfolding clean_portable_path
clean_portable_path-posix p w = rw w refl

same_profile_self : (o : Host) (p : List ℕ) → windows_absolute p ≡ false → same_profile o p p ≡ true
unfolding same_profile
same_profile_self o p w = rw (w, same_self (clean_portable_path p)) refl

module _ (o : Host)
    (unix : (p : List ℕ) → begins (ascii "/") p ≡ true → o.absolute p ≡ some (clean p))
    (cleans : (p : List ℕ) → o.filepath_clean p ≡ clean p) where
  rooted-value :
      (p : List ℕ)
      → begins (ascii "/") p ≡ true
      → (same p [] ≡ false) × (same p (ascii "portable") ≡ false)
  unfolding begins same
  rooted-value [] h = cc h
  rooted-value (c ∷ p) h = ground (arith, h)

  clean_profile-rooted :
      (p : List ℕ)
      → begins (ascii "/") p ≡ true
      → windows_absolute p ≡ false
      → clean_profile o p ≡ clean p
  unfolding clean_profile
  clean_profile-rooted p h w =
      let (empty, named) = rooted-value p h in
      rw (empty, named, w, unix p h) (cleans (clean p) ∙ clean-clean p h)

  abandoned-own :
      (r e : List ℕ)
      → begins (ascii "/") r ≡ true
      → windows_absolute r ≡ false
      → windows_absolute (clean r) ≡ false
      → abandoned o r (clean_portable_path r) e ≡ true
  unfolding abandoned
  abandoned-own r e h w v =
      let settled : clean_profile o (clean r) ≡ clean r =
        clean_profile-rooted (clean r) (begins-clean r h) v ∙ clean-clean r h in
      rw
        (
          clean_portable_path-posix r w,
          settled,
          clean_profile-rooted r h w,
          same_profile_self o (clean r) v,
        )
        (ground arith)

  -- A command that was built for a rooted profile and is read back names a binding that the profile
  -- may adopt unasked, whatever has become of the executable: it is not taken for another profile's.
  -- The system is not Windows, and neither the path of the profile nor its clean form reads as a
  -- Windows path.
  pub command_for_os-abandoned :
      (host goos executable config_root vendor line e r : List ℕ)
      → ((p q : List ℕ) → o.absolute p ≡ some q → is_absolute_path q ≡ true)
      → command_for_os host o.absolute goos executable config_root vendor ≡ ok line
      → resolved host o.absolute goos executable ≡ some e
      → resolved host o.absolute goos config_root ≡ some r
      → is_readable (style_for goos vendor) e ≡ true
      → is_readable (style_for goos vendor) r ≡ true
      → contains root_words e ≡ false
      → begins (ascii "/") r ≡ true
      → windows_absolute r ≡ false
      → windows_absolute (clean r) ≡ false
      → (b : Binding) × (parse_managed_command line ≡ some b)
        × (b.executable ≡ e)
        × (abandoned o r b.config_root b.executable ≡ true)
  command_for_os-abandoned host goos executable config_root vendor line e r ha h he hr re rr n s w
        v =
      (
        record { executable = e; config_root = clean_portable_path r },
        command_for_os-parse host o.absolute goos executable config_root vendor line e r ha h he hr
            re rr n,
        refl,
        abandoned-own r e s w v,
      )
