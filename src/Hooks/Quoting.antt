-- ===== src/Hooks/Quoting.antt =====
-- command.go: reading a quoted argument gives back what was quoted.
use overgent.Hooks.Command.{trailing_backslashes, unescape}
use overgent.Prelude.{
  ℕ, zero, suc, ◌+◌, ◌-◌, ◌/◌, ◌%◌, ◌≤◌, ◌<◌, ◌≡◌, refl, ap, inl, inr, true, false, ◌&&◌, some,
  List, [], ◌∷◌, ◌++◌, arith, ◌==◌, if◌then◌else◌, Bool-cases, length, take, length-append,
}
use overgent.Prelude.Bytes.{
  begins, replace_all, replace_from, byte_at, contains, contains_byte, repeat,
}

-- The escape of a single quote: in the POSIX form, and in PowerShell's.
abbrev pub posix_escape : List ℕ
posix_escape = 39 ∷ 92 ∷ 39 ∷ 39 ∷ []

pub byte_at-last : (s : List ℕ) (q : ℕ) → byte_at (length s) (s ++ q ∷ []) ≡ q
unfolding byte_at
byte_at-last [] q = refl
byte_at-last (c ∷ s) q = byte_at-last s q

pub take-append : (s t : List ℕ) → take (length s) (s ++ t) ≡ s
take-append [] t = refl
take-append (c ∷ s) t = ap (λ r. c ∷ r) (take-append s t)

-- Replacing a quote by its POSIX escape, and the escape by the quote.
pub replace_all-posix :
    (s : List ℕ) → replace_all posix_escape (39 ∷ []) (replace_all (39 ∷ []) posix_escape s) ≡ s
unfolding replace_all replace_from begins
replace_all-posix [] = refl
replace_all-posix (c ∷ s) = ground (arith, replace_all-posix s)

-- The same for PowerShell's doubled quote.
pub replace_all-doubled :
    (s : List ℕ) → replace_all (39 ∷ 39 ∷ []) (39 ∷ []) (replace_all (39 ∷ []) (39 ∷ 39 ∷ []) s) ≡ s
unfolding replace_all replace_from begins
replace_all-doubled [] = refl
replace_all-doubled (c ∷ s) = ground (arith, replace_all-doubled s)

-- A text without a quote is left as it is by both.
pub replace_all-absent :
    (m new s : List ℕ) → contains_byte 39 s ≡ false → replace_all (39 ∷ m) new s ≡ s
unfolding contains_byte replace_all replace_from begins
replace_all-absent m new [] h = refl
replace_all-absent m new (c ∷ s) h = ground (arith, replace_all-absent m new s)

pub contains-posix :
    (s : List ℕ) → contains posix_escape (replace_all (39 ∷ []) posix_escape s) ≡ contains_byte 39 s
unfolding contains contains_byte replace_all replace_from begins
contains-posix [] = refl
contains-posix (c ∷ s) = ground (arith, contains-posix s)

begins-doubled :
    (s : List ℕ)
    → begins (92 ∷ 39 ∷ 39 ∷ []) (replace_all (39 ∷ []) (39 ∷ 39 ∷ []) s) ≡ begins (92 ∷ 39 ∷ []) s
unfolding replace_all replace_from begins
begins-doubled [] = refl
begins-doubled (c ∷ []) = ground arith
begins-doubled (c ∷ d ∷ s) = ground arith

-- The POSIX escape stands in a doubled text only where the text has a backslash between two quotes.
pub contains-doubled :
    (s : List ℕ)
    → contains posix_escape (replace_all (39 ∷ []) (39 ∷ 39 ∷ []) s)
      ≡ contains (39 ∷ 92 ∷ 39 ∷ []) s
unfolding contains replace_all replace_from begins
contains-doubled [] = refl
contains-doubled (c ∷ s) = ground (arith, contains-doubled s, begins-doubled s)

unfoldable pub count : ℕ → List ℕ → ℕ
count b [] = 0
count b (c ∷ s) = if c == b then suc (count b s) else count b s

count-replace_from :
    (k : ℕ) (s : List ℕ) → count 92 (replace_from posix_escape (39 ∷ []) k s) ≤ count 92 s
unfolding count replace_from begins
count-replace_from k [] = ground arith
count-replace_from zero (c ∷ s) = ground (arith, count-replace_from 3 s, count-replace_from zero s)
count-replace_from (suc k) (c ∷ s) = ground (arith, count-replace_from k s)

-- Reading an escape loses its backslash.
pub count-replace_all :
    (s : List ℕ)
    → contains posix_escape s ≡ true
    → count 92 (replace_all posix_escape (39 ∷ []) s) < count 92 s
unfolding count contains replace_all replace_from begins
count-replace_all [] h = ground arith
count-replace_all (c ∷ []) h = ground arith
count-replace_all (c ∷ d ∷ s) h = ground (arith, count-replace_all (d ∷ s), count-replace_from 2 s)

pub count-doubled : (s : List ℕ) → count 92 (replace_all (39 ∷ []) (39 ∷ 39 ∷ []) s) ≡ count 92 s
unfolding count replace_all replace_from begins
count-doubled [] = refl
count-doubled (c ∷ s) = ground (arith, count-doubled s)

length-repeat : (n : ℕ) → length (repeat n 92) ≡ n
unfolding repeat
length-repeat zero = refl
length-repeat (suc n) = ap suc (length-repeat n)

trailing_le : (s : List ℕ) → trailing_backslashes s ≤ length s
unfolding trailing_backslashes
trailing_le [] = ground arith
trailing_le (c ∷ s) = ground (arith, trailing_le s)

trailing-repeat :
    (s : List ℕ) (n : ℕ) → trailing_backslashes (s ++ repeat n 92) ≡ n + trailing_backslashes s
unfolding trailing_backslashes repeat
trailing-repeat [] zero = refl
trailing-repeat [] (suc n) = ground (arith, trailing-repeat [] n, length-repeat n)
trailing-repeat (c ∷ s) n =
    ground
      (arith, trailing-repeat s n, length-append s (repeat n 92), length-repeat n, trailing_le s)

take-suc : (a b c : ℕ) (s : List ℕ) → a ≤ b → take (suc b - a) (c ∷ s) ≡ c ∷ take (b - a) s
take-suc a b c s h = let e : suc b - a ≡ suc (b - a) = omega arith in rw e refl

whole_run :
    (c : ℕ) (s : List ℕ)
    → c ≡ 92
    → trailing_backslashes s ≡ length s
    → take (length s - trailing_backslashes s) s ++ repeat (trailing_backslashes s) 92 ≡ s
    → take (suc (length s) - suc (trailing_backslashes s)) (c ∷ s)
        ++ 92 ∷ repeat (trailing_backslashes s) 92
      ≡ c ∷ s
whole_run c s h t ih =
    let none_left : suc (length s) - suc (trailing_backslashes s) ≡ 0 = omega arith in
    let none_before : length s - trailing_backslashes s ≡ 0 = omega arith in
    rw (none_left, h) (ap (λ r. 92 ∷ r) (rw none_before at ih))

-- A text is what stands before its trailing backslashes, and those.
take-trailing :
    (s : List ℕ)
    → take (length s - trailing_backslashes s) s ++ repeat (trailing_backslashes s) 92 ≡ s
unfolding trailing_backslashes repeat
take-trailing [] = refl
take-trailing (c ∷ s) = elim (Bool-cases (trailing_backslashes s == length s && c == 92)) [
  | inl e ↦ rw e (whole_run c s (ground arith) (ground arith) (take-trailing s))
  | inr e ↦
      rw (e, take-suc (trailing_backslashes s) (length s) c s (trailing_le s), take-trailing s) refl
]

pub take-within : (n : ℕ) (s t : List ℕ) → n ≤ length s → take n (s ++ t) ≡ take n s
take-within zero s t h = refl
take-within (suc n) [] t h = ground arith
take-within (suc n) (c ∷ s) t h = ap (λ r. c ∷ r) (take-within n s t (omega arith))

pub unescape-quote : (v : List ℕ) → unescape (v ++ repeat (trailing_backslashes v) 92) ≡ some v
unfolding unescape
unescape-quote v =
    let t = trailing_backslashes v in
    let run : trailing_backslashes (v ++ repeat t 92) ≡ t + t = trailing-repeat v t in
    let whole : length (v ++ repeat t 92) ≡ length v + t =
      rw (length-append v (repeat t 92), length-repeat t) refl in
    let even : (t + t) % 2 ≡ 0 = omega arith in
    let half : (t + t) / 2 ≡ t = omega arith in
    let rest : (length v + t) - (t + t) ≡ length v - t = omega arith in
    rw (run, even, half, whole, rest)
      (ap some (rw (take-within (length v - t) v (repeat t 92) (omega arith)) (take-trailing v)))
