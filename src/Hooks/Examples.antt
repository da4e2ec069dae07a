-- ===== src/Hooks/Examples.antt =====
-- The commands and the settings files of internal/hookconfig on concrete inputs.
use overgent.Prelude.Bytes.{ascii, same, begins}
use mathlib.Core.Option.{some-injective}
use overgent.Prelude.{
  ℕ, ◌≡◌, refl, ◌↔◌, true, false, ap, sym, inl, inr, Bool-cases, ◌||◌, if◌then◌else◌, [], Option,
  none, some, List,
}
use overgent.Hooks.Command.{
  Binding, clean, windows_absolute, is_absolute_path, power_shell, quote_argument, unquote_argument,
  parse_managed_command, clean_portable_path,
}
use overgent.Hooks.RoundTrip.{is_readable, quote-unquote}
use overgent.Hooks.Managed.{command_for_os-parse}
use overgent.Hooks.Cleaning.{begins-clean}
use overgent.Hooks.Profiles.{Host, abandoned, parse_managed_prefix}
use overgent.Hooks.Adoption.{command_for_os-abandoned}

-- A PowerShell argument with a backslash between two quotes is not read back.
misread_runs :
    unquote_argument 39 (quote_argument power_shell (ascii "C:\\a'\\'b")) ≡ some (ascii "C:\\a''b")
unfolding unquote_argument quote_argument overgent.Prelude.Bytes.replace_all
    overgent.Prelude.Bytes.contains
misread_runs = refl

quote-unquote_example :
    (unquote_argument 39 (quote_argument power_shell (ascii "C:\\it's")) ≡ some (ascii "C:\\it's"))
    ↔ (is_readable power_shell (ascii "C:\\it's") ≡ true)
quote-unquote_example = quote-unquote power_shell (ascii "C:\\it's")

abbrev line : List ℕ
line = ascii "& 'C:\\Over\\overgent.exe' --config-root 'C:\\it''s\\.\\p' agent-hook --vendor claude"

abbrev no_directory_here : List ℕ → Option (List ℕ)
no_directory_here p = none

command_for_os-parse_example :
    parse_managed_command line
    ≡ some (record {
      executable = ascii "C:\\Over\\overgent.exe";
      config_root = clean_portable_path (ascii "C:\\it's\\.\\p");
    })
unfolding overgent.Hooks.Command.command_for_os overgent.Hooks.Command.supported_vendor
    overgent.Hooks.Command.path_is_abs overgent.Hooks.Command.windows_absolute
    overgent.Hooks.Command.quoted_command overgent.Hooks.Command.validate_argument
    overgent.Prelude.Bytes.contains_any overgent.Prelude.Bytes.contains
    overgent.Hooks.Command.style_for overgent.Hooks.Command.join_command quote_argument is_readable
command_for_os-parse_example =
    command_for_os-parse (ascii "linux") no_directory_here (ascii "windows")
      (ascii "C:\\Over\\overgent.exe") (ascii "C:\\it's\\.\\p") (ascii "claude") line
      (ascii "C:\\Over\\overgent.exe") (ascii "C:\\it's\\.\\p") (λ p q h. cc h) refl refl refl refl
      refl refl

cleaned_runs : clean_portable_path (ascii "C:\\it's\\.\\p") ≡ ascii "C:\\it's\\p"
unfolding clean_portable_path overgent.Hooks.Command.windows_absolute overgent.Hooks.Command.clean
    overgent.Hooks.Command.clean_step
cleaned_runs = refl

-- The share of a UNC path loses a backslash, and is no absolute Windows path any more.
unc_runs :
    (windows_absolute (ascii "\\\\srv\\me\\p") ≡ true)
    × (clean_portable_path (ascii "\\\\srv\\me\\p") ≡ ascii "\\srv\\me\\p")
    × (windows_absolute (ascii "\\srv\\me\\p") ≡ false)
unfolding clean_portable_path windows_absolute clean overgent.Hooks.Command.clean_step
unc_runs = (refl, refl, refl)

-- A Unix system where every profile exists and holds a device.
abbrev unix_host : Host
unix_host = record {
  is_windows = false;
  absolute = λ p. if begins (ascii "/") p then some (clean p) else none;
  filepath_clean = clean;
  base = λ p. p;
  lower_ext = λ p. [];
  equal_fold = same;
  stat = λ p. some (record { is_dir = true; mode = 493 });
  stored = λ p. some (record { device_id = ascii "d"; backends = [] });
}

unix_absolute : (p q : List ℕ) → unix_host.absolute p ≡ some q → is_absolute_path q ≡ true
unfolding is_absolute_path
unix_absolute p q h = elim (Bool-cases (begins (ascii "/") p)) [
  | inl b ↦
      let z : clean p ≡ q = some-injective (clean p) q (rw b at h) in
      rw (sym z, begins-clean p b) refl
  | inr b ↦ cc (rw b at h)
]

abbrev unix_line : List ℕ
unix_line = ascii "'/opt/overgent' --config-root '/home/me' agent-hook --vendor claude"

command_for_os-abandoned_example :
    (b : Binding) × (parse_managed_command unix_line ≡ some b)
    × (b.executable ≡ ascii "/opt/overgent")
    × (abandoned unix_host (ascii "/home/me") b.config_root b.executable ≡ true)
unfolding clean_portable_path overgent.Hooks.Command.command_for_os
    overgent.Hooks.Command.supported_vendor begins overgent.Hooks.Command.quoted_command
    overgent.Hooks.Command.validate_argument clean overgent.Prelude.Bytes.contains_any
    overgent.Hooks.Command.clean_step overgent.Prelude.Bytes.contains
    overgent.Hooks.Command.style_for overgent.Hooks.Command.join_command quote_argument
    overgent.Prelude.Bytes.replace_all is_readable windows_absolute
command_for_os-abandoned_example =
    command_for_os-abandoned unix_host (λ p h. rw h refl) (λ p. refl) (ascii "linux")
      (ascii "linux") (ascii "/opt/./overgent") (ascii "/home//me") (ascii "claude") unix_line
      (ascii "/opt/overgent") (ascii "/home/me") unix_absolute refl refl refl refl refl refl refl
      refl refl

-- Another profile that is in use is not adopted.
kept_runs : abandoned unix_host (ascii "/home/you") (ascii "/home/me") (ascii "overgent") ≡ false
unfolding abandoned same overgent.Hooks.Profiles.clean_profile windows_absolute clean
    overgent.Hooks.Profiles.same_profile overgent.Hooks.Command.clean_step clean_portable_path
    overgent.Hooks.Profiles.profile_has_device
kept_runs = refl

prefix_runs :
    parse_managed_prefix (ascii "'/opt/overgent' --config-root '/home//me'")
    ≡ some (record { executable = ascii "/opt/overgent"; config_root = ascii "/home/me" })
unfolding parse_managed_prefix overgent.Prelude.Bytes.contains_any
    overgent.Hooks.Command.parse_prefix overgent.Prelude.Bytes.byte_at overgent.Prelude.Bytes.index
    unquote_argument overgent.Prelude.Bytes.contains overgent.Prelude.Bytes.replace_all same
    is_absolute_path clean_portable_path windows_absolute clean overgent.Hooks.Command.clean_step
prefix_runs = refl
