-- ===== src/Hooks/Cleaning.antt =====
-- command.go, cleanPortablePath on a rooted path: path.Clean gives a path that it keeps as it is.
use overgent.Hooks.Command.{clean, clean_segments, clean_step, up, back_to_front}
use mathlib.Core.List.{append-nil}
use overgent.Prelude.Bytes.{ascii, same, begins, contains_byte, split, join, extend}
use overgent.Prelude.{
  ℕ, ◌≡◌, refl, ap, ◌∙◌, inl, inr, true, false, List, [], ◌∷◌, ◌++◌, All, Bool-cases, ◌==◌,
}

-- A segment that path.Clean keeps.
unfoldable pub IsName : List ℕ → Type 0
IsName s =
    (same s [] ≡ false)
    × (same s (ascii ".") ≡ false)
    × (same s (ascii "..") ≡ false)
    × (contains_byte 47 s ≡ false)

abbrev IsSegment : List ℕ → Type 0
IsSegment s = contains_byte 47 s ≡ false

extend-IsSegment :
    (c : ℕ) (ws : List (List ℕ))
    → (c == 47) ≡ false
    → All IsSegment ws
    → All IsSegment (extend c ws)
unfolding contains_byte
extend-IsSegment c [] h a = (rw h refl, tt)
extend-IsSegment c (w ∷ ws) h (a, more) = (rw h a, more)

split-IsSegment : (s : List ℕ) → All IsSegment (split 47 s)
unfolding split contains_byte
split-IsSegment [] = (refl, tt)
split-IsSegment (c ∷ s) = elim (Bool-cases (c == 47)) [
  | inl e ↦ rw e (refl, split-IsSegment s)
  | inr e ↦ rw e (extend-IsSegment c (split 47 s) e (split-IsSegment s))
]

up-IsName : (kept : List (List ℕ)) → All IsName kept → All IsName (up true kept)
unfolding IsName up
up-IsName [] a = tt
up-IsName (k ∷ ks) ((empty, dot, dots, segment), more) = rw dots more

clean_step-IsName :
    (s : List ℕ) (kept : List (List ℕ))
    → IsSegment s
    → All IsName kept
    → All IsName (clean_step true s kept)
unfolding IsName clean_step
clean_step-IsName s kept h k = elim (Bool-cases (same s [])) [
  | inl a ↦ rw a k
  | inr a ↦ elim (Bool-cases (same s (ascii "."))) [
    | inl b ↦ rw (a, b) k
    | inr b ↦ elim (Bool-cases (same s (ascii ".."))) [
      | inl d ↦ rw (a, b, d) (up-IsName kept k)
      | inr d ↦ rw (a, b, d) ((a, b, d, h), k)
    ]
  ]
]

clean_segments-IsName :
    (ss kept : List (List ℕ))
    → All IsSegment ss
    → All IsName kept
    → All IsName (clean_segments true ss kept)
unfolding clean_segments
clean_segments-IsName [] kept h k = k
clean_segments-IsName (s ∷ ss) kept h k =
    clean_segments-IsName ss (clean_step true s kept) h.1 (clean_step-IsName s kept h.0 k)

back_to_front-IsName :
    (ss done : List (List ℕ)) → All IsName ss → All IsName done → All IsName (back_to_front ss done)
unfolding back_to_front
back_to_front-IsName [] done h k = k
back_to_front-IsName (s ∷ ss) done h k = back_to_front-IsName ss (s ∷ done) h.1 (h.0, k)

-- Names are kept, the last first.
clean_segments-names :
    (ss kept : List (List ℕ)) → All IsName ss → clean_segments true ss kept ≡ back_to_front ss kept
unfolding clean_segments clean_step back_to_front IsName
clean_segments-names [] kept h = refl
clean_segments-names (s ∷ ss) kept ((empty, dot, dots, segment), hs) =
    rw (empty, dot, dots) (clean_segments-names ss (s ∷ kept) hs)

back_to_front-front :
    (ss done more : List (List ℕ))
    → back_to_front (back_to_front ss done) more ≡ back_to_front done (ss ++ more)
unfolding back_to_front
back_to_front-front [] done more = refl
back_to_front-front (s ∷ ss) done more = back_to_front-front ss (s ∷ done) more

split-word : (w t : List ℕ) → contains_byte 47 w ≡ false → split 47 (w ++ 47 ∷ t) ≡ w ∷ split 47 t
unfolding split contains_byte
split-word [] t h = refl
split-word (c ∷ w) t h = elim (Bool-cases (c == 47)) [
  | inl e ↦ cc (rw e at h)
  | inr e ↦ rw (e, split-word w t (rw e at h)) refl
]

split-alone : (w : List ℕ) → contains_byte 47 w ≡ false → split 47 w ≡ w ∷ []
unfolding split contains_byte
split-alone [] h = refl
split-alone (c ∷ w) h = elim (Bool-cases (c == 47)) [
  | inl e ↦ cc (rw e at h)
  | inr e ↦ rw (e, split-alone w (rw e at h)) refl
]

split-join :
    (w : List ℕ) (ws : List (List ℕ))
    → IsName w
    → All IsName ws
    → split 47 (join 47 (w ∷ ws)) ≡ w ∷ ws
unfolding join IsName
split-join w [] (empty, dot, dots, segment) more = split-alone w segment
split-join w (v ∷ ws) (empty, dot, dots, segment) (a, more) =
    split-word w (join 47 (v ∷ ws)) segment ∙ ap (λ r. w ∷ r) (split-join v ws a more)

-- The names of a path that begins with a slash.
unfoldable pub names : List ℕ → List (List ℕ)
names p = back_to_front (clean_segments true (split 47 p) []) []

names-IsName : (p : List ℕ) → All IsName (names p)
unfolding names
names-IsName p =
    back_to_front-IsName (clean_segments true (split 47 p) []) []
      (clean_segments-IsName (split 47 p) [] (split-IsSegment p) tt) tt

names-join : (ns : List (List ℕ)) → All IsName ns → names (47 ∷ join 47 ns) ≡ ns
unfolding names split join clean_segments clean_step back_to_front same
names-join [] a = refl
names-join (n ∷ ns) a =
    rw (split-join n ns a.0 a.1, clean_segments-names (n ∷ ns) [] a)
      (back_to_front-front (n ∷ ns) [] [] ∙ append-nil (n ∷ ns))

clean-names : (p : List ℕ) → begins (ascii "/") p ≡ true → clean p ≡ 47 ∷ join 47 (names p)
unfolding clean names
clean-names p h = rw h refl

pub clean-clean : (p : List ℕ) → begins (ascii "/") p ≡ true → clean (clean p) ≡ clean p
unfolding begins
clean-clean p h = rw (clean-names p h) (
    clean-names (47 ∷ join 47 (names p)) refl
    ∙ ap (λ ns. 47 ∷ join 47 ns) (names-join (names p) (names-IsName p)))

pub begins-clean : (p : List ℕ) → begins (ascii "/") p ≡ true → begins (ascii "/") (clean p) ≡ true
unfolding begins
begins-clean p h = rw (clean-names p h) refl
