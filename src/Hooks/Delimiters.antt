-- ===== src/Hooks/Delimiters.antt =====
-- command.go: where a delimiter first stands in a command line, and what quoting leaves of it.
use mathlib.Core.List.{append-nil}
use overgent.Prelude.{
  ℕ, zero, suc, ◌≡◌, refl, Bool, true, false, ◌&&◌, ◌||◌, not, some, List, [], ◌∷◌, ◌++◌, arith,
  length,
}
use overgent.Hooks.Command.{Style, power_shell, cmd, posix, trailing_backslashes}
use overgent.Hooks.Quoting.{posix_escape}
use overgent.Prelude.Bytes.{
  begins, index, contains, contains_byte, replace_all, replace_from, contains_any, repeat,
}

-- No place of `u`, followed by `w`, begins with `m`.
unfoldable pub skips : List ℕ → List ℕ → List ℕ → Bool
unfolding begins
skips m [] w = true
skips m (c ∷ u) w = not (begins m (c ∷ u ++ w)) && skips m u w

pub begins_self : (m v : List ℕ) → begins m (m ++ v) ≡ true
unfolding begins
begins_self [] v = refl
begins_self (c ∷ m) v = ground (arith, begins_self m v)

pub index-skips :
    (m u v : List ℕ) → skips m u (m ++ v) ≡ true → index m (u ++ (m ++ v)) ≡ some (length u)
unfolding index skips begins
index-skips [] [] [] h = refl
index-skips [] [] (c ∷ v) h = refl
index-skips (b ∷ m) [] v h = ground (arith, begins_self m v)
index-skips m (c ∷ u) v h = ground (arith, index-skips m u v)

-- A text without the byte `q` does not reach over it.
pub begins-cut :
    (m a b w : List ℕ) (q : ℕ)
    → contains_byte q m ≡ false
    → begins m ((a ++ q ∷ b) ++ w) ≡ begins m a
unfolding begins contains_byte
begins-cut [] a b w q h = refl
begins-cut (c ∷ m) [] b w q h = ground arith
begins-cut (c ∷ m) (d ∷ a) b w q h = ground (arith, begins-cut m a b w q)

pub skips-cut :
    (m a b w : List ℕ) (q : ℕ)
    → contains_byte q m ≡ false
    → contains m a ≡ false
    → skips m b w ≡ true
    → skips m (a ++ q ∷ b) w ≡ true
unfolding contains skips
skips-cut m [] b w q h n k = ground (arith, begins-cut m [] b w q h)
skips-cut m (c ∷ a) b w q h n k =
    ground (arith, begins-cut m (c ∷ a) b w q h, skips-cut m a b w q h)

begins-snoc : (m s : List ℕ) (q : ℕ) → begins (m ++ q ∷ []) s ≡ true → begins m s ≡ true
unfolding begins
begins-snoc [] s q h = refl
begins-snoc (c ∷ m) [] q h = ground arith
begins-snoc (c ∷ m) (d ∷ s) q h = ground (arith, begins-snoc m s q)

-- The marker between two quoted arguments starts nowhere in the first of them.
pub skips-marker :
    (m s w : List ℕ) (q x : ℕ)
    → contains_byte q m ≡ false
    → contains m s ≡ false
    → skips (q ∷ (m ++ q ∷ [])) (x ∷ s) (q ∷ w) ≡ true
unfolding contains begins skips
skips-marker m [] w q x h n =
    ground (arith, begins-cut m [] w [] q h, begins-snoc m (q ∷ w) q, append-nil w)
skips-marker m (c ∷ s) w q x h n = ground (
  arith,
  begins-cut m (c ∷ s) w [] q h,
  begins-snoc m (c ∷ (s ++ q ∷ w)) q,
  append-nil (s ++ q ∷ w),
  skips-marker m s w q c h,
)

begins-escape :
    (m x s : List ℕ)
    → contains_byte 39 m ≡ false
    → begins m (replace_all (39 ∷ []) (39 ∷ x) s) ≡ begins m s
unfolding begins contains_byte replace_all replace_from
begins-escape m x [] h = refl
begins-escape [] x (c ∷ s) h = refl
begins-escape (b ∷ m) x (c ∷ s) h = ground (arith, begins-escape m x s)

contains-pass :
    (m s : List ℕ) (q : ℕ)
    → contains_byte q m ≡ false
    → begins m [] ≡ false
    → contains m (q ∷ s) ≡ contains m s
unfolding begins contains contains_byte
contains-pass [] s q h n = ground arith
contains-pass (c ∷ m) s q h n = ground arith

contains-nil : (m s : List ℕ) → contains m s ≡ false → begins m [] ≡ false
unfolding contains
contains-nil m [] h = h
contains-nil m (c ∷ s) h = ground (arith, contains-nil m s)

-- What stands between the quotes.
unfoldable pub body : Style → List ℕ → List ℕ
body posix v = replace_all (39 ∷ []) posix_escape v
body power_shell v = replace_all (39 ∷ []) (39 ∷ 39 ∷ []) v
body cmd v = v ++ repeat (trailing_backslashes v) 92

contains-posix_body :
    (m s : List ℕ)
    → contains_byte 39 m ≡ false
    → contains_byte 92 m ≡ false
    → contains m s ≡ false
    → contains m (replace_all (39 ∷ []) posix_escape s) ≡ false
unfolding contains replace_all replace_from
contains-posix_body m [] p o h = h
contains-posix_body m (c ∷ s) p o h =
    let rest = replace_all (39 ∷ []) posix_escape s in
    ground (
      arith,
      contains-posix_body m s p o,
      contains-nil m s,
      begins-escape m (92 ∷ 39 ∷ 39 ∷ []) (c ∷ s),
      contains-pass m rest 39,
      contains-pass m (39 ∷ rest) 39,
      contains-pass m (39 ∷ 39 ∷ rest) 92,
      contains-pass m (92 ∷ 39 ∷ 39 ∷ rest) 39,
    )

contains-doubled_body :
    (m s : List ℕ)
    → contains_byte 39 m ≡ false
    → contains_byte 92 m ≡ false
    → contains m s ≡ false
    → contains m (replace_all (39 ∷ []) (39 ∷ 39 ∷ []) s) ≡ false
unfolding contains replace_all replace_from
contains-doubled_body m [] p o h = h
contains-doubled_body m (c ∷ s) p o h =
    let rest = replace_all (39 ∷ []) (39 ∷ 39 ∷ []) s in
    ground (
      arith,
      contains-doubled_body m s p o,
      contains-nil m s,
      begins-escape m (39 ∷ []) (c ∷ s),
      contains-pass m rest 39,
      contains-pass m (39 ∷ rest) 39,
    )

contains-repeat :
    (m : List ℕ) (n : ℕ)
    → contains_byte 92 m ≡ false
    → begins m [] ≡ false
    → contains m (repeat n 92) ≡ false
unfolding contains repeat
contains-repeat m zero h k = k
contains-repeat m (suc n) h k =
    ground (arith, contains-repeat m n, contains-pass m (repeat n 92) 92)

contains-run :
    (m s : List ℕ) (n : ℕ)
    → contains_byte 92 m ≡ false
    → contains m s ≡ false
    → contains m (s ++ repeat n 92) ≡ false
unfolding contains repeat
contains-run m [] n h k = contains-repeat m n h k
contains-run m (c ∷ s) zero h k = rw (append-nil s) k
contains-run m (c ∷ s) (suc n) h k = ground (
  arith,
  contains-run m s (suc n),
  begins-cut m (c ∷ s) (repeat n 92) [] 92 h,
  append-nil (s ++ repeat (suc n) 92),
)

-- Quoting brings no plain delimiter into a text.
pub contains-body :
    (style : Style) (m s : List ℕ)
    → contains_byte 39 m ≡ false
    → contains_byte 92 m ≡ false
    → contains m s ≡ false
    → contains m (body style s) ≡ false
unfolding body
contains-body posix m s p o h = contains-posix_body m s p o h
contains-body power_shell m s p o h = contains-doubled_body m s p o h
contains-body cmd m s p o h = contains-run m s (trailing_backslashes s) o h

pub contains_any-append :
    (bytes s t : List ℕ)
    → contains_any bytes (s ++ t) ≡ (contains_any bytes s || contains_any bytes t)
unfolding contains_any
contains_any-append bytes [] t = refl
contains_any-append bytes (c ∷ s) t = ground (arith, contains_any-append bytes s t)

-- The bytes that no command line may hold.
abbrev pub controls : List ℕ
controls = 13 ∷ 10 ∷ 0 ∷ []

contains_any-replace :
    (x s : List ℕ)
    → contains_any controls x ≡ false
    → contains_any controls s ≡ false
    → contains_any controls (replace_all (39 ∷ []) x s) ≡ false
unfolding contains_any contains_byte replace_all replace_from begins
contains_any-replace x [] h k = refl
contains_any-replace x (c ∷ s) h k =
    ground (
      arith,
      contains_any-replace x s h,
      contains_any-append controls x (replace_all (39 ∷ []) x s),
    )

contains_any-repeat : (n : ℕ) → contains_any controls (repeat n 92) ≡ false
unfolding contains_any contains_byte repeat
contains_any-repeat zero = refl
contains_any-repeat (suc n) = contains_any-repeat n

pub contains_any-body :
    (style : Style) (s : List ℕ)
    → contains_any controls s ≡ false
    → contains_any controls (body style s) ≡ false
unfolding body contains_any contains_byte
contains_any-body posix s h = contains_any-replace posix_escape s refl h
contains_any-body power_shell s h = contains_any-replace (39 ∷ 39 ∷ []) s refl h
contains_any-body cmd s h =
    rw (contains_any-append controls s (repeat (trailing_backslashes s) 92), h)
      (contains_any-repeat (trailing_backslashes s))
