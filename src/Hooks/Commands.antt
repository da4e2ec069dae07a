-- ===== src/Hooks/Commands.antt =====
-- hooks.go, ParseManagedCommand and commandForOS: a managed command names the executable and the profile that it was built from.
use overgent.Hooks.RoundTrip.{quote_of, byte_at-quoted}
use overgent.Hooks.Delimiters.{body, skips, index-skips, skips-cut, skips-marker, controls}
use overgent.Hooks.Command.{
  Style, bound, quote_argument, unquote_argument, power_shell, cmd, posix, quoted_command,
  join_command, validate_argument, vendor_marker, config_root_argument, root_marker, parse_at,
  parse_quoted, parse_prefix,
}
use mathlib.Core.List.{append_assoc}
use mathlib.Core.Path.{subst}
use overgent.Prelude.Bytes.{
  ascii, begins, index, contains, contains_any, contains_byte, byte_at, same, trim_prefix, join,
}
use overgent.Prelude.{
  ℕ, suc, ◌+◌, ◌-◌, ◌≡◌, refl, sym, ap, ◌∙◌, inl, inr, true, false, ◌||◌, some, List, [], ◌∷◌, ◌++◌,
  arith, ltb, ◌==◌, length, take, drop, length-append, ok, Result-cases,
}

abbrev pub root_words : List ℕ
root_words = ascii " --config-root "

abbrev pub lead : Style → List ℕ
lead posix = []
lead power_shell = ascii "& "
lead cmd = []

pub quote-body :
    (style : Style) (v : List ℕ)
    → quote_argument style v ≡ quote_of style ∷ body style v ++ quote_of style ∷ []
unfolding quote_argument body
quote-body posix v = refl
quote-body power_shell v = refl
quote-body cmd v = refl

-- An executable and a profile as they stand in a command line, in quotes `q`.
abbrev pub text : ℕ → List ℕ → List ℕ → List ℕ
text q e r = q ∷ e ++ q ∷ (root_words ++ q ∷ (r ++ q ∷ []))

pub validated :
    (style : Style) (v : List ℕ)
    → validate_argument style v ≡ ok tt
    → (same v [] ≡ false) × (contains_any controls v ≡ false) × (contains vendor_marker v ≡ false)
unfolding validate_argument
validated style v h = ground arith

glued :
    (q : ℕ) (e r t : List ℕ)
    → (q ∷ e ++ q ∷ []) ++ 32 ∷ (config_root_argument ++ 32 ∷ ((q ∷ r ++ q ∷ []) ++ t))
      ≡ text q e r ++ t
glued q e r t = simp (append_assoc)

join-shape :
    (style : Style) (e r vendor : List ℕ)
    → join_command style (
        quote_argument style e
        ∷ config_root_argument
        ∷ quote_argument style r
        ∷ ascii "agent-hook"
        ∷ ascii "--vendor"
        ∷ vendor
        ∷ [])
      ≡ lead style
        ++ (text (quote_of style) (body style e) (body style r) ++ (vendor_marker ++ vendor))
unfolding join_command join
join-shape posix e r vendor =
    rw (quote-body posix e, quote-body posix r)
      (glued 39 (body posix e) (body posix r) (vendor_marker ++ vendor))
join-shape power_shell e r vendor =
    rw (quote-body power_shell e, quote-body power_shell r)
      (ap (λ s. ascii "& " ++ s)
        (glued 39 (body power_shell e) (body power_shell r) (vendor_marker ++ vendor)))
join-shape cmd e r vendor =
    rw (quote-body cmd e, quote-body cmd r)
      (glued 34 (body cmd e) (body cmd r) (vendor_marker ++ vendor))

pub line-shape :
    (style : Style) (e r vendor line : List ℕ)
    → quoted_command style e r vendor ≡ ok line
    → (validate_argument style e ≡ ok tt)
      × (validate_argument style r ≡ ok tt)
      × (line
          ≡ lead style
            ++ (text (quote_of style) (body style e) (body style r) ++ (vendor_marker ++ vendor)))
unfolding quoted_command join_command join
line-shape style e r vendor line h = elim (Result-cases (validate_argument style e)) [
  | inl (a, p) ↦ elim (Result-cases (validate_argument style r)) [
    | inl (b, k) ↦ (p, k, sym (cc (rw (p, k) at h)) ∙ join-shape style e r vendor)
    | inr (b, k) ↦ cc (rw (p, k) at h)
  ]
  | inr (a, p) ↦ cc (rw p at h)
]

take-snoc : (e t : List ℕ) (q : ℕ) → take (suc (length e)) (e ++ q ∷ t) ≡ e ++ q ∷ []
take-snoc [] t q = refl
take-snoc (c ∷ e) t q = ap (λ s. c ∷ s) (take-snoc e t q)

drop-append : (e t : List ℕ) (n : ℕ) → drop (length e + n) (e ++ t) ≡ drop n t
drop-append [] t n = let z : 0 + n ≡ n = omega arith in rw z refl
drop-append (c ∷ e) t n =
    let z : suc (length e) + n ≡ suc (length e + n) = omega arith in rw z (drop-append e t n)

last-quote : (q : ℕ) (e r : List ℕ) → byte_at (length (text q e r) - 1) (text q e r) ≡ q
last-quote q e r =
    let shape : q ∷ (e ++ q ∷ (root_words ++ q ∷ r)) ++ q ∷ [] ≡ text q e r = simp (append_assoc) in
    subst (λ s. byte_at (length s - 1) s ≡ q) shape
      (byte_at-quoted q (e ++ q ∷ (root_words ++ q ∷ r)))

index-marker :
    (q : ℕ) (e r : List ℕ)
    → contains_byte q root_words ≡ false
    → contains root_words e ≡ false
    → index (root_marker q) (text q e r) ≡ some (suc (length e))
index-marker q e r h n =
    index-skips (root_marker q) (q ∷ e) (r ++ q ∷ [])
      (skips-marker root_words e (root_words ++ q ∷ (r ++ q ∷ [])) q q h n)

two_quotes : (q : ℕ) (e r : List ℕ) → ltb (length (text q e r)) 2 ≡ false
two_quotes q e r = ground (arith, length-append e (q ∷ (root_words ++ q ∷ (r ++ q ∷ []))))

parse_quoted-text :
    (q : ℕ) (e r : List ℕ)
    → (q == 39 || q == 34) ≡ true
    → contains_byte q root_words ≡ false
    → contains root_words e ≡ false
    → parse_quoted (text q e r) ≡ parse_at q (text q e r) (some (suc (length e)))
unfolding byte_at
parse_quoted-text q e r k h n =
    rw (last-quote q e r, index-marker q e r h n, two_quotes q e r, k) (ground arith)

-- The two arguments of a command are cut out where they stand.
pub parse_quoted-arguments :
    (q : ℕ) (e r : List ℕ)
    → (q == 39 || q == 34) ≡ true
    → contains_byte q root_words ≡ false
    → contains root_words e ≡ false
    → parse_quoted (text q e r)
      ≡ bound (unquote_argument q (q ∷ e ++ q ∷ [])) (unquote_argument q (q ∷ r ++ q ∷ []))
parse_quoted-arguments q e r k h n =
    let first : suc (length e) + 1 ≡ suc (suc (length e)) = omega arith in
    let second : suc (length e) + 17 - 1 ≡ suc (length e + 16) = omega arith in
    let left : take (suc (length e) + 1) (text q e r) ≡ q ∷ e ++ q ∷ [] =
      rw first (ap (λ s. q ∷ s) (take-snoc e (root_words ++ q ∷ (r ++ q ∷ [])) q)) in
    let right : drop (suc (length e) + 17 - 1) (text q e r) ≡ q ∷ r ++ q ∷ [] =
      rw second (drop-append e (q ∷ (root_words ++ q ∷ (r ++ q ∷ []))) 16) in
    parse_quoted-text q e r k h n ∙ cc (left, right)

pub parse_prefix-lead :
    (style : Style) (e r : List ℕ)
    → parse_prefix (lead style ++ text (quote_of style) e r)
      ≡ parse_quoted (text (quote_of style) e r)
unfolding parse_prefix trim_prefix begins
parse_prefix-lead posix e r = refl
parse_prefix-lead power_shell e r = refl
parse_prefix-lead cmd e r = refl

skips-text :
    (q : ℕ) (e r w : List ℕ)
    → contains_byte q vendor_marker ≡ false
    → contains vendor_marker e ≡ false
    → contains vendor_marker r ≡ false
    → skips vendor_marker (text q e r) w ≡ true
unfolding contains begins skips
skips-text q e r w h n m =
    skips-cut vendor_marker [] (e ++ q ∷ (root_words ++ q ∷ (r ++ q ∷ []))) w q h refl (
      skips-cut vendor_marker e (root_words ++ q ∷ (r ++ q ∷ [])) w q h n (
        skips-cut vendor_marker root_words (r ++ q ∷ []) w q h refl
          (skips-cut vendor_marker r [] w q h m refl)))

pub skips-lead :
    (style : Style) (e r w : List ℕ)
    → contains vendor_marker e ≡ false
    → contains vendor_marker r ≡ false
    → skips vendor_marker (lead style ++ text (quote_of style) e r) w ≡ true
unfolding contains_byte skips begins
skips-lead posix e r w n m = skips-text 39 e r w refl n m
skips-lead power_shell e r w n m = skips-text 39 e r w refl n m
skips-lead cmd e r w n m = skips-text 34 e r w refl n m
