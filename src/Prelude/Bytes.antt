-- ===== src/Prelude/Bytes.antt =====
-- The functions of the standard package strings that the components use, on the bytes of a text.
use Prim.Native.Char.{code}
use overgent.Prelude.{
  ℕ, zero, suc, ◌-◌, String, ◌≡◌, refl, Bool, true, false, ◌&&◌, ◌||◌, Option, none, some, List, [],
  ◌∷◌, ◌++◌, arith, leb, ◌==◌, if◌then◌else◌, length, take, drop,
}

-- A literal of the source as its bytes; the literals are ASCII.
abbrev pub ascii : String → List ℕ
ascii String.[] = []
ascii (String.◌∷◌ letter letters) = code letter ∷ ascii letters

-- `==` on texts
unfoldable pub same : List ℕ → List ℕ → Bool
same [] [] = true
same [] (d ∷ t) = false
same (c ∷ s) [] = false
same (c ∷ s) (d ∷ t) = (c == d) && same s t

pub same→eq : (s t : List ℕ) → same s t ≡ true → s ≡ t
unfolding same
same→eq [] [] h = refl
same→eq [] (d ∷ t) h = ground arith
same→eq (c ∷ s) [] h = ground arith
same→eq (c ∷ s) (d ∷ t) h = ground (arith, same→eq s t)

-- `HasPrefix`, the prefix first
unfoldable pub begins : List ℕ → List ℕ → Bool
begins [] s = true
begins (m ∷ ms) [] = false
begins (m ∷ ms) (c ∷ s) = (m == c) && begins ms s

abbrev pub one_later : Option ℕ → Option ℕ
one_later none = none
one_later (some i) = some (suc i)

-- `Index`, the text that is looked for first
unfoldable pub index : List ℕ → List ℕ → Option ℕ
unfolding begins
index m [] = if begins m [] then some 0 else none
index m (c ∷ s) = let rest = index m s in if begins m (c ∷ s) then some 0 else one_later rest

-- `Contains`
unfoldable pub contains : List ℕ → List ℕ → Bool
unfolding begins
contains m [] = begins m []
contains m (c ∷ s) = begins m (c ∷ s) || contains m s

unfoldable pub contains_byte : ℕ → List ℕ → Bool
contains_byte c [] = false
contains_byte c (b ∷ bs) = (b == c) || contains_byte c bs

-- `ContainsAny`
unfoldable pub contains_any : List ℕ → List ℕ → Bool
unfolding contains_byte
contains_any bytes [] = false
contains_any bytes (c ∷ s) = contains_byte c bytes || contains_any bytes s

-- `HasSuffix`, the suffix first
unfoldable pub ends : List ℕ → List ℕ → Bool
unfolding same
ends m s = leb (length m) (length s) && same m (drop (length s - length m) s)

-- `TrimPrefix` and `TrimSuffix`, the text that goes first
unfoldable pub trim_prefix : List ℕ → List ℕ → List ℕ
unfolding begins
trim_prefix m s = if begins m s then drop (length m) s else s

unfoldable pub trim_suffix : List ℕ → List ℕ → List ℕ
unfolding ends
trim_suffix m s = if ends m s then take (length s - length m) s else s

-- `ReplaceAll` of a text that is not empty; the number counts the bytes of a match still to pass.
unfoldable pub replace_from : List ℕ → List ℕ → ℕ → List ℕ → List ℕ
unfolding begins
replace_from old new k [] = []
replace_from old new zero (c ∷ s) = elim (begins old (c ∷ s)) [
  | true ↦ new ++ replace_from old new (length old - 1) s
  | false ↦ c ∷ replace_from old new zero s
]
replace_from old new (suc k) (c ∷ s) = replace_from old new k s

unfoldable pub replace_all : List ℕ → List ℕ → List ℕ → List ℕ
unfolding replace_from
replace_all old new s = replace_from old new 0 s

-- `Repeat` of one byte
unfoldable pub repeat : ℕ → ℕ → List ℕ
repeat zero c = []
repeat (suc n) c = c ∷ repeat n c

-- `s[i]`, for an index within the text
unfoldable pub byte_at : ℕ → List ℕ → ℕ
byte_at i [] = 0
byte_at zero (c ∷ s) = c
byte_at (suc i) (c ∷ s) = byte_at i s

abbrev pub extend : ℕ → List (List ℕ) → List (List ℕ)
extend c [] = (c ∷ []) ∷ []
extend c (word ∷ words) = (c ∷ word) ∷ words

-- `Split` at one byte
unfoldable pub split : ℕ → List ℕ → List (List ℕ)
split sep [] = [] ∷ []
split sep (c ∷ s) = let rest = split sep s in if c == sep then [] ∷ rest else extend c rest

-- `Join` with one byte
unfoldable pub join : ℕ → List (List ℕ) → List ℕ
join sep [] = []
join sep (w ∷ []) = w
join sep (w ∷ v ∷ ws) = w ++ sep ∷ join sep (v ∷ ws)

quotes_run : replace_all (ascii "''") (ascii "'") (ascii "a''''b'c") ≡ ascii "a''b'c"
unfolding replace_all
quotes_run = refl

split_runs : split 47 (ascii "/a//b") ≡ (ascii "" ∷ ascii "a" ∷ ascii "" ∷ ascii "b" ∷ [])
unfolding split
split_runs = refl

ends_runs :
    (ends (ascii "codex") (ascii "x codex") ≡ true) × (ends (ascii "codex") (ascii "dex") ≡ false)
unfolding ends
ends_runs = (refl, refl)
