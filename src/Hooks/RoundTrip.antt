-- ===== src/Hooks/RoundTrip.antt =====
-- command.go: a command line that Overgent wrote is read back as what it was written from.
use mathlib.Core.Option.{some-injective}
use overgent.Prelude.{
  ℕ, suc, ◌-◌, ◌<◌, ◌≡◌, refl, ap, ◌≢◌, ◌↔◌, inl, inr, Bool, true, not, some, List, [], ◌∷◌, ◌++◌,
  arith, ◌==◌, if◌then◌else◌, Bool-cases, length, length-append,
}
use overgent.Prelude.Bytes.{contains, contains_byte, replace_all, repeat, byte_at}
use overgent.Hooks.Command.{
  Style, quote_argument, trailing_backslashes, unquote_argument, unescape, inner, power_shell, cmd,
  posix,
}
use overgent.Hooks.Quoting.{
  posix_escape, byte_at-last, take-append, replace_all-posix, replace_all-doubled,
  replace_all-absent, contains-posix, contains-doubled, count, count-replace_all, count-doubled,
  unescape-quote,
}

-- The quote that opens an argument of a style.
abbrev pub quote_of : Style → ℕ
quote_of posix = 39
quote_of power_shell = 39
quote_of cmd = 34

-- The texts whose quoted form can be read back.
unfoldable pub is_readable : Style → List ℕ → Bool
unfolding contains
is_readable posix value = true
is_readable power_shell value = not (contains (39 ∷ 92 ∷ 39 ∷ []) value)
is_readable cmd value = true

inner-quoted : (q : ℕ) (x : List ℕ) → inner (q ∷ x ++ q ∷ []) ≡ x
inner-quoted q x =
    let n : length (q ∷ x ++ q ∷ []) - 2 ≡ length x = omega (arith, length-append x (q ∷ [])) in
    rw n (take-append x (q ∷ []))

pub byte_at-quoted :
    (q : ℕ) (x : List ℕ) → byte_at (length (q ∷ x ++ q ∷ []) - 1) (q ∷ x ++ q ∷ []) ≡ q
unfolding byte_at
byte_at-quoted q x =
    let n : length (q ∷ x ++ q ∷ []) - 1 ≡ suc (length x) =
      omega (arith, length-append x (q ∷ [])) in
    rw n (byte_at-last x q)

unquote-form :
    (q : ℕ) (x : List ℕ)
    → unquote_argument q (q ∷ x ++ q ∷ []) ≡ (
        if q == 34
        then unescape x
        else (if contains posix_escape x
            then some (replace_all posix_escape (39 ∷ []) x)
            else some (replace_all (39 ∷ 39 ∷ []) (39 ∷ []) x)))
unfolding unquote_argument
unquote-form q x =
    let last : byte_at (length (q ∷ x ++ q ∷ []) - 1) (q ∷ x ++ q ∷ []) ≡ q = byte_at-quoted q x in
    rw (last, inner-quoted q x) (ground (arith, length-append x (q ∷ [])))

posix_reads :
    (v : List ℕ)
    → (if contains posix_escape (replace_all (39 ∷ []) posix_escape v)
        then some (replace_all posix_escape (39 ∷ []) (replace_all (39 ∷ []) posix_escape v))
        else some (replace_all (39 ∷ 39 ∷ []) (39 ∷ []) (replace_all (39 ∷ []) posix_escape v)))
      ≡ some v
posix_reads v = elim (Bool-cases (contains_byte 39 v)) [
  | inl e ↦ rw (contains-posix v, e, replace_all-posix v) refl
  | inr e ↦
      rw
        (
          contains-posix v,
          e,
          replace_all-absent [] posix_escape v e,
          replace_all-absent (39 ∷ []) (39 ∷ []) v e,
        )
        refl
]

-- A doubled text that holds the POSIX escape is read as a text with fewer backslashes.
misread :
    (v : List ℕ)
    → contains (39 ∷ 92 ∷ 39 ∷ []) v ≡ true
    → replace_all posix_escape (39 ∷ []) (replace_all (39 ∷ []) (39 ∷ 39 ∷ []) v) ≢ v
misread v h e =
    let doubled = replace_all (39 ∷ []) (39 ∷ 39 ∷ []) v in
    let fewer : count 92 (replace_all posix_escape (39 ∷ []) doubled) < count 92 doubled =
      count-replace_all doubled (rw (contains-doubled v) h) in
    let equal : count 92 (replace_all posix_escape (39 ∷ []) doubled) ≡ count 92 v =
      ap (count 92) e in
    omega (arith, fewer, equal, count-doubled v)

-- Reading a quoted argument gives back the argument in the POSIX form and in cmd's, and in
-- PowerShell's exactly when no backslash of it stands between two single quotes.
pub quote-unquote :
    (style : Style) (v : List ℕ)
    → (unquote_argument (quote_of style) (quote_argument style v) ≡ some v)
      ↔ (is_readable style v ≡ true)
unfolding quote_argument is_readable
quote-unquote posix v =
    (λ h. refl, λ h. rw (unquote-form 39 (replace_all (39 ∷ []) posix_escape v)) (posix_reads v))
quote-unquote cmd v = (
  λ h. refl,
  λ h. rw (unquote-form 34 (v ++ repeat (trailing_backslashes v) 92)) (unescape-quote v),
)
quote-unquote power_shell v =
    let doubled = replace_all (39 ∷ []) (39 ∷ 39 ∷ []) v in
    elim (Bool-cases (contains (39 ∷ 92 ∷ 39 ∷ []) v)) [
      | inl e ↦ (
        λ h. absurd (
            misread v e
              (some-injective _ _ (rw (unquote-form 39 doubled, contains-doubled v, e) at h))),
        λ h. absurd (ground (arith, h, e)),
      )
      | inr e ↦ (
        λ h. rw e refl,
        λ h. rw (unquote-form 39 doubled, contains-doubled v, e) (ap some (replace_all-doubled v)),
      )
    ]
