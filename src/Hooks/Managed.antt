-- ===== src/Hooks/Managed.antt =====
-- hooks.go, commandForOS and ParseManagedCommand: building a managed command and reading it.
use overgent.Hooks.RoundTrip.{quote_of, is_readable, quote-unquote}
use overgent.Hooks.Quoting.{take-append}
use overgent.Hooks.Delimiters.{
  body, index-skips, contains-body, contains_any-append, contains_any-body, controls,
}
use overgent.Hooks.Command.{
  Style, bound, unquote_argument, power_shell, cmd, posix, quoted_command, vendor_marker,
  parse_prefix, checked, parse_managed_command, is_absolute_path, clean_portable_path, style_for,
  supported_vendor, path_is_abs, command_for_os, not_absolute,
}
use overgent.Hooks.Commands.{
  root_words, lead, text, line-shape, validated, parse_quoted-arguments, parse_prefix-lead,
  skips-lead, quote-body,
}
use mathlib.Core.List.{append_assoc}
use mathlib.Core.Option.{some-injective}
use overgent.Prelude.Bytes.{ascii, same→eq, index, contains, contains_any, contains_byte, same}
use overgent.Prelude.{
  ℕ, ◌≡◌, refl, sym, ap, ◌∙◌, inl, inr, true, false, ◌||◌, not, Option, some, List, [], ◌∷◌, ◌++◌,
  arith, ◌==◌, if◌then◌else◌, Bool-cases, length, take, ok, err,
}

text-controls :
    (q : ℕ) (e r vendor : List ℕ)
    → contains_any controls (q ∷ []) ≡ false
    → contains_any controls e ≡ false
    → contains_any controls r ≡ false
    → contains_any controls vendor ≡ false
    → contains_any controls (text q e r ++ (vendor_marker ++ vendor)) ≡ false
unfolding contains_any contains_byte
text-controls q e r vendor n h k l =
    let inside = root_words ++ q ∷ (r ++ q ∷ []) in
    ground (
      arith,
      contains_any-append controls (text q e r) (vendor_marker ++ vendor),
      contains_any-append controls e (q ∷ inside),
      contains_any-append controls r (q ∷ []),
    )

no_controls :
    (style : Style) (e r vendor : List ℕ)
    → contains_any controls e ≡ false
    → contains_any controls r ≡ false
    → contains_any controls vendor ≡ false
    → contains_any controls (lead style ++ (text (quote_of style) e r ++ (vendor_marker ++ vendor)))
      ≡ false
unfolding contains_any contains_byte
no_controls posix e r vendor h k l = text-controls 39 e r vendor refl h k l
no_controls power_shell e r vendor h k l = text-controls 39 e r vendor refl h k l
no_controls cmd e r vendor h k l = text-controls 34 e r vendor refl h k l

index-vendor :
    (style : Style) (e r vendor : List ℕ)
    → contains vendor_marker e ≡ false
    → contains vendor_marker r ≡ false
    → index vendor_marker (lead style ++ (text (quote_of style) e r ++ (vendor_marker ++ vendor)))
      ≡ some (length (lead style ++ text (quote_of style) e r))
index-vendor style e r vendor h k =
    let q = quote_of style in
    ap (index vendor_marker)
      (sym (append_assoc (lead style) (text q e r) (vendor_marker ++ vendor)))
    ∙ index-skips vendor_marker (lead style ++ text q e r) vendor
        (skips-lead style e r (vendor_marker ++ vendor) h k)

take-prefix :
    (style : Style) (e r vendor : List ℕ)
    → take
        (length (lead style ++ text (quote_of style) e r))
        (lead style ++ (text (quote_of style) e r ++ (vendor_marker ++ vendor)))
      ≡ lead style ++ text (quote_of style) e r
take-prefix style e r vendor =
    let q = quote_of style in
    ap (take (length (lead style ++ text q e r)))
      (sym (append_assoc (lead style) (text q e r) (vendor_marker ++ vendor)))
    ∙ take-append (lead style ++ text q e r) (vendor_marker ++ vendor)

quote-facts :
    (style : Style)
    → ((quote_of style == 39 || quote_of style == 34) ≡ true)
      × (contains_byte (quote_of style) root_words ≡ false)
unfolding contains_byte
quote-facts posix = (refl, refl)
quote-facts power_shell = (refl, refl)
quote-facts cmd = (refl, refl)

unquoted :
    (style : Style) (v : List ℕ)
    → is_readable style v ≡ true
    → unquote_argument (quote_of style) (quote_of style ∷ body style v ++ quote_of style ∷ [])
      ≡ some v
unquoted style v h =
    ap (unquote_argument (quote_of style)) (sym (quote-body style v)) ∙ (quote-unquote style v).1 h

bound-some :
    (e r : List ℕ)
    → same r [] ≡ false
    → bound (some e) (some r) ≡ some (record { executable = e; config_root = r })
unfolding same
bound-some e [] h = ground arith
bound-some e (c ∷ r) h = refl

checked-some :
    (e r : List ℕ)
    → same r [] ≡ false
    → is_absolute_path e ≡ true
    → is_absolute_path r ≡ true
    → checked (some (record { executable = e; config_root = r }))
      ≡ some (record { executable = e; config_root = clean_portable_path r })
checked-some e r h k l = rw (h, k, l) refl

quoted_command-parse :
    (style : Style) (e r vendor line : List ℕ)
    → quoted_command style e r vendor ≡ ok line
    → is_readable style e ≡ true
    → is_readable style r ≡ true
    → contains root_words e ≡ false
    → is_absolute_path e ≡ true
    → is_absolute_path r ≡ true
    → contains_any controls vendor ≡ false
    → parse_managed_command line
      ≡ some (record { executable = e; config_root = clean_portable_path r })
unfolding parse_managed_command contains_byte
quoted_command-parse style e r vendor line h re rr n ae ar v =
    let (ve, vr, shape) = line-shape style e r vendor line h in
    let (e_nonempty, e_clean, e_free) = validated style e ve in
    let (r_nonempty, r_clean, r_free) = validated style r vr in
    let (is_quote, not_in_words) = quote-facts style in
    let q = quote_of style in
    let prefix : parse_prefix (lead style ++ text q (body style e) (body style r))
        ≡ some (record { executable = e; config_root = r }) =
      parse_prefix-lead style (body style e) (body style r)
      ∙ parse_quoted-arguments q (body style e) (body style r) is_quote not_in_words
          (contains-body style root_words e refl refl n)
      ∙ cc (unquoted style e re, unquoted style r rr, bound-some e r r_nonempty) in
    rw
      (
        shape,
        no_controls style (body style e) (body style r) vendor (contains_any-body style e e_clean)
            (contains_any-body style r r_clean) v,
        index-vendor style (body style e) (body style r) vendor
            (contains-body style vendor_marker e refl refl e_free)
            (contains-body style vendor_marker r refl refl r_free),
        take-prefix style (body style e) (body style r) vendor,
        prefix,
      )
      (checked-some e r r_nonempty ae ar)

path_is_abs-absolute : (p goos : List ℕ) → path_is_abs p goos ≡ true → is_absolute_path p ≡ true
unfolding path_is_abs is_absolute_path
path_is_abs-absolute p goos h = ground (arith, h)

supported_clean :
    (vendor : List ℕ) → supported_vendor vendor ≡ true → contains_any controls vendor ≡ false
unfolding supported_vendor contains_any contains_byte
supported_clean vendor h = elim (Bool-cases (same vendor (ascii "codex"))) [
  | inl a ↦ rw (same→eq vendor (ascii "codex") a) refl
  | inr a ↦ elim (Bool-cases (same vendor (ascii "claude"))) [
    | inl b ↦ rw (same→eq vendor (ascii "claude") b) refl
    | inr b ↦ rw (same→eq vendor (ascii "cursor") (ground (arith, h, a, b))) refl
  ]
]

built_elsewhere :
    (goos e r vendor line : List ℕ)
    → (if not (path_is_abs e goos) || not (path_is_abs r goos)
        then err not_absolute
        else quoted_command (style_for goos vendor) e r vendor)
      ≡ ok line
    → (path_is_abs e goos ≡ true)
      × (path_is_abs r goos ≡ true)
      × (quoted_command (style_for goos vendor) e r vendor ≡ ok line)
built_elsewhere goos e r vendor line h = ground (arith, h)

module _ (host : List ℕ) (absolute : List ℕ → Option (List ℕ)) where
  -- The path that a command is built from: made absolute on the host itself.
  abbrev pub resolved : List ℕ → List ℕ → Option (List ℕ)
  resolved goos p = if same goos host then absolute p else some p

  -- Reading a managed command that Overgent built, whatever the shell, gives the executable and the
  -- profile it was built from, the profile cleaned: the paths are absolute, what the style quotes can
  -- be read back, and the executable does not hold the words that introduce the profile.
  pub command_for_os-parse :
      (goos executable config_root vendor line e r : List ℕ)
      → ((p q : List ℕ) → absolute p ≡ some q → is_absolute_path q ≡ true)
      → command_for_os host absolute goos executable config_root vendor ≡ ok line
      → resolved goos executable ≡ some e
      → resolved goos config_root ≡ some r
      → is_readable (style_for goos vendor) e ≡ true
      → is_readable (style_for goos vendor) r ≡ true
      → contains root_words e ≡ false
      → parse_managed_command line
        ≡ some (record { executable = e; config_root = clean_portable_path r })
  unfolding command_for_os
  command_for_os-parse goos executable config_root vendor line e r ha h he hr re rr n =
      elim (Bool-cases (supported_vendor vendor)) [
        | inl v ↦ elim (Bool-cases (same goos host)) [
          | inl s ↦
              let he' : absolute executable ≡ some e = rw s at he in
              let hr' : absolute config_root ≡ some r = rw s at hr in
              quoted_command-parse (style_for goos vendor) e r vendor line
                (rw (v, s, he', hr') at h) re rr n (ha executable e he') (ha config_root r hr')
                (supported_clean vendor v)
          | inr s ↦
              let he' : executable ≡ e = some-injective executable e (rw s at he) in
              let hr' : config_root ≡ r = some-injective config_root r (rw s at hr) in
              let (ae, ar, built) =
                built_elsewhere goos e r vendor line (rw (v, s, he', hr') at h) in
              quoted_command-parse (style_for goos vendor) e r vendor line built re rr n
                (path_is_abs-absolute e goos ae) (path_is_abs-absolute r goos ar)
                (supported_clean vendor v)
        ]
        | inr v ↦ cc (rw v at h)
      ]
