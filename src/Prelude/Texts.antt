-- ===== src/Prelude/Texts.antt =====
-- The byte order of texts, as Go's `<` has it, is total and transitive.
use Prim.Native.String.compare.{nil-cons, cons-nil, cons-cons}
use overgent.Prelude.{String, ◌≡◌, refl, true, false, arith, str_le}

pub str_le_total : (s t : String) → str_le s t ≡ false → str_le t s ≡ true
str_le_total String.[] String.[] h = refl
str_le_total String.[] (String.◌∷◌ d t) h = ground (arith, nil-cons d t, h)
str_le_total (String.◌∷◌ c s) String.[] h = rw (nil-cons c s) refl
str_le_total (String.◌∷◌ c s) (String.◌∷◌ d t) h =
    let ih = str_le_total s t in ground (arith, cons-cons c d s t, cons-cons d c t s, h, ih)

pub str_le_trans : (s t u : String) → str_le s t ≡ true → str_le t u ≡ true → str_le s u ≡ true
str_le_trans String.[] t String.[] h k = refl
str_le_trans String.[] t (String.◌∷◌ e u) h k = rw (nil-cons e u) refl
str_le_trans (String.◌∷◌ c s) String.[] u h k = cc (rw (cons-nil c s) at h)
str_le_trans (String.◌∷◌ c s) (String.◌∷◌ d t) String.[] h k = cc (rw (cons-nil d t) at k)
str_le_trans (String.◌∷◌ c s) (String.◌∷◌ d t) (String.◌∷◌ e u) h k =
    ground
      (arith, cons-cons c d s t, cons-cons d e t u, cons-cons c e s u, h, k, str_le_trans s t u)
