-- ===== src/Hooks/Command.antt =====
-- internal/hookconfig/command.go, and the parts of hooks.go that build and read a managed command line.
pub mod Paths
unfoldable pub use overgent.Hooks.Command.Paths.{
  windows_absolute, is_absolute_path, path_is_abs, clean_segments, clean_step, up, back_to_front,
  clean, clean_portable_path,
}
pub use overgent.Hooks.Command.Paths.{slashed}
use overgent.Prelude.{
  ℕ, suc, ◌+◌, ◌-◌, ◌/◌, ◌%◌, Bool, true, false, ◌&&◌, ◌||◌, not, Option, none, some, List, [], ◌∷◌,
  ◌++◌, ltb, leb, ◌==◌, if◌then◌else◌, length, take, drop, Result, ok, err,
}
use overgent.Prelude.Outcomes.{◌>>=◌}
use overgent.Prelude.Bytes.{
  ascii, same, begins, index, contains, contains_any, contains_byte, trim_prefix, replace_all,
  repeat, byte_at, split, join,
}

-- commandStyle
pub data Style : Type 0 where
  posix : Style
  power_shell : Style
  cmd : Style

-- The reasons that building a command gives, one constructor for each message.
pub data CommandError : Type 0 where
  unsupported_vendor : CommandError
  not_absolute : CommandError
  no_directory : CommandError
  bad_argument : CommandError
  holds_delimiter : CommandError
  holds_percent : CommandError
  holds_quote : CommandError

unfoldable pub style_for : List ℕ → List ℕ → Style
unfolding same
style_for goos vendor =
    if not (same goos (ascii "windows"))
    then posix
    else (if same vendor (ascii "codex") then cmd else power_shell)

-- vendorMarker
abbrev pub vendor_marker : List ℕ
vendor_marker = ascii " agent-hook --vendor "

abbrev pub config_root_argument : List ℕ
config_root_argument = ascii "--config-root"

unfoldable pub join_command : Style → List (List ℕ) → List ℕ
unfolding join
join_command power_shell parts = ascii "& " ++ join 32 parts
join_command posix parts = join 32 parts
join_command cmd parts = join 32 parts

-- The run of backslashes that ends a text.
unfoldable pub trailing_backslashes : List ℕ → ℕ
trailing_backslashes [] = 0
trailing_backslashes (c ∷ s) =
    let n = trailing_backslashes s in if n == length s && c == 92 then suc n else n

unfoldable pub quote_argument : Style → List ℕ → List ℕ
quote_argument cmd value = 34 ∷ value ++ repeat (trailing_backslashes value) 92 ++ 34 ∷ []
quote_argument power_shell value = 39 ∷ replace_all (39 ∷ []) (39 ∷ 39 ∷ []) value ++ 39 ∷ []
quote_argument posix value = 39 ∷ replace_all (39 ∷ []) (39 ∷ 92 ∷ 39 ∷ 39 ∷ []) value ++ 39 ∷ []

abbrev is_cmd : Style → Bool
is_cmd posix = false
is_cmd power_shell = false
is_cmd cmd = true

unfoldable pub validate_argument : Style → List ℕ → Result CommandError Unit
validate_argument style value =
    if same value [] || contains_any (13 ∷ 10 ∷ 0 ∷ []) value
    then err bad_argument
    else (if contains vendor_marker value
        then err holds_delimiter
        else (if is_cmd style && contains_byte 37 value
            then err holds_percent
            else (if is_cmd style && contains_byte 34 value then err holds_quote else ok tt)))

-- `value[1 : len(value)-1]`
abbrev pub inner : List ℕ → List ℕ
inner value = take (length value - 2) (drop 1 value)

-- The double-quoted form: the backslashes that touch the closing quote are halved.
unfoldable pub unescape : List ℕ → Option (List ℕ)
unescape body =
    let trailing = trailing_backslashes body in
    if not (trailing % 2 == 0)
    then none
    else some (take (length body - trailing) body ++ repeat (trailing / 2) 92)

-- Without a value where the source returns false.
unfoldable pub unquote_argument : ℕ → List ℕ → Option (List ℕ)
unfolding byte_at
unquote_argument quote value =
    if ltb (length value) 2
      || not (byte_at 0 value == quote)
      || not (byte_at (length value - 1) value == quote)
    then none
    else (if quote == 34
        then unescape (inner value)
        else (if contains (39 ∷ 92 ∷ 39 ∷ 39 ∷ []) (inner value)
            then some (replace_all (39 ∷ 92 ∷ 39 ∷ 39 ∷ []) (39 ∷ []) (inner value))
            else some (replace_all (39 ∷ 39 ∷ []) (39 ∷ []) (inner value))))

-- The executable and the profile of a command; the profile is empty in the portable form.
pub record Binding : Type 0 where
  pub executable : List ℕ
  pub config_root : List ℕ

-- `quote + " --config-root " + quote`
abbrev pub root_marker : ℕ → List ℕ
root_marker quote = quote ∷ ascii " " ++ config_root_argument ++ ascii " " ++ quote ∷ []

abbrev portable : Option (List ℕ) → Option Binding
portable none = none
portable (some executable) = some (record { executable = executable; config_root = [] })

abbrev pub bound : Option (List ℕ) → Option (List ℕ) → Option Binding
bound none root = none
bound (some executable) none = none
bound (some executable) (some []) = none
bound (some executable) (some (c ∷ s)) =
    some (record { executable = executable; config_root = c ∷ s })

abbrev pub parse_at : ℕ → List ℕ → Option ℕ → Option Binding
parse_at quote prefix none = portable (unquote_argument quote prefix)
parse_at quote prefix (some at) =
    bound (unquote_argument quote (take (at + 1) prefix))
      (unquote_argument quote (drop (at + length (root_marker quote) - 1) prefix))

abbrev pub parse_quoted : List ℕ → Option Binding
parse_quoted prefix =
    let quote = byte_at 0 prefix in
    if ltb (length prefix) 2
      || not (quote == 39 || quote == 34)
      || not (byte_at (length prefix - 1) prefix == quote)
    then none
    else parse_at quote prefix (index (root_marker quote) prefix)

unfoldable pub parse_prefix : List ℕ → Option Binding
unfolding trim_prefix
parse_prefix prefix = parse_quoted (trim_prefix (ascii "& ") prefix)

-- What every reader of a command asks of the binding that it has parsed.
abbrev pub checked : Option Binding → Option Binding
checked none = none
checked (some b) =
    if same b.config_root []
    then (if same b.executable (ascii "overgent") then some b else none)
    else (if is_absolute_path b.executable && is_absolute_path b.config_root
        then some (record b { config_root = clean_portable_path b.config_root })
        else none)

abbrev pub parse_before : List ℕ → Option ℕ → Option Binding
parse_before command none = none
parse_before command (some i) = checked (parse_prefix (take i command))

unfoldable pub parse_managed_command : List ℕ → Option Binding
parse_managed_command command =
    if contains_any (13 ∷ 10 ∷ 0 ∷ []) command
    then none
    else parse_before command (index vendor_marker command)

unfoldable pub supported_vendor : List ℕ → Bool
unfolding same
supported_vendor vendor =
    same vendor (ascii "codex") || same vendor (ascii "claude") || same vendor (ascii "cursor")

abbrev pub or_no_directory : Option (List ℕ) → Result CommandError (List ℕ)
or_no_directory none = err no_directory
or_no_directory (some path) = ok path

-- The command line of an executable and a profile that are known to be absolute.
unfoldable pub quoted_command : Style → List ℕ → List ℕ → List ℕ → Result CommandError (List ℕ)
quoted_command style executable config_root vendor = do
  validated ← validate_argument style executable
  root_validated ← validate_argument style config_root
  ok (
      join_command style (
        quote_argument style executable
        ∷ config_root_argument
        ∷ quote_argument style config_root
        ∷ ascii "agent-hook"
        ∷ ascii "--vendor"
        ∷ vendor
        ∷ []))

abbrev pub local_command :
    Option (List ℕ) → Option (List ℕ) → Style → List ℕ → Result CommandError (List ℕ)
local_command executable config_root style vendor = do
  executable' ← or_no_directory executable
  root' ← or_no_directory config_root
  quoted_command style executable' root' vendor

-- `host` is runtime.GOOS and `absolute` is filepath.Abs, which asks the system for its directory.
module _ (host : List ℕ) (absolute : List ℕ → Option (List ℕ)) where
  unfoldable pub command_for_os : List ℕ → List ℕ → List ℕ → List ℕ → Result CommandError (List ℕ)
  command_for_os goos executable config_root vendor =
      if not (supported_vendor vendor)
      then err unsupported_vendor
      else (if same goos host
          then local_command (absolute executable) (absolute config_root) (style_for goos vendor)
              vendor
          else (if not (path_is_abs executable goos) || not (path_is_abs config_root goos)
              then err not_absolute
              else quoted_command (style_for goos vendor) executable config_root vendor))

  unfoldable pub portable_command_for_os : List ℕ → List ℕ → Result CommandError (List ℕ)
  portable_command_for_os goos vendor =
      if not (supported_vendor vendor)
      then err unsupported_vendor
      else ok (
          join_command (style_for goos vendor) (
            quote_argument (style_for goos vendor) (ascii "overgent")
            ∷ ascii "agent-hook"
            ∷ ascii "--vendor"
            ∷ vendor
            ∷ []))
