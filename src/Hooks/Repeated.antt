-- ===== src/Hooks/Repeated.antt =====
-- hooks.go, Install: what a look at the handlers of an event finds before and after its repair.
use overgent.Prelude.Bytes.{same}
use overgent.Hooks.Settings.{Handler, Group}
use overgent.Hooks.Groups.{
  managed, scan_handlers, scan_groups, absent, kept, repaired, foreign, Scan, same_handler,
}
use overgent.Hooks.Foreign.{foreign_handlers, foreign_of}
use overgent.Prelude.{
  ℕ, String, ◌≡◌, refl, sym, ap, ◌⊎◌, inl, inr, true, List, [], ◌∷◌, ◌++◌, Bool-cases,
}

pub Scan-cases {ℓ} :
    {A : Type ℓ} (s : Scan A)
    → (s ≡ absent) ⊎ (s ≡ kept) ⊎ ((a : A) × (s ≡ repaired a)) ⊎ (s ≡ foreign)
Scan-cases absent = inl refl
Scan-cases kept = inr (inl refl)
Scan-cases (repaired a) = inr (inr (inl (a, refl)))
Scan-cases foreign = inr (inr (inr refl))

scan_handlers-foreign :
    (c : List ℕ) (w : Handler) (matcher : String) (hs out : List Handler)
    → managed w.command ≡ true
    → scan_handlers c w hs ≡ repaired out
    → foreign_handlers matcher out ≡ foreign_handlers matcher hs
unfolding scan_handlers foreign_handlers
scan_handlers-foreign c w matcher [] out m h = cc h
scan_handlers-foreign c w matcher (x ∷ hs) out m h = elim (Bool-cases (managed x.command)) [
  | inl k ↦ elim (Bool-cases (same x.command c)) [
    | inl s ↦ elim (Bool-cases (same_handler x w)) [
      | inl t ↦ cc (rw (k, s, t) at h)
      | inr t ↦ let z : w ∷ hs ≡ out = cc (rw (k, s, t) at h) in rw (sym z, k, m) refl
    ]
    | inr s ↦ cc (rw (k, s) at h)
  ]
  | inr k ↦ elim (Scan-cases (scan_handlers c w hs)) [
    | inl a ↦ cc (rw (k, a) at h)
    | inr (inl a) ↦ cc (rw (k, a) at h)
    | inr (inr (inl (hs', a))) ↦
        let z : x ∷ hs' ≡ out = cc (rw (k, a) at h) in
        rw (sym z, k) (ap (λ r. (matcher, x) ∷ r) (scan_handlers-foreign c w matcher hs hs' m a))
    | inr (inr (inr a)) ↦ cc (rw (k, a) at h)
  ]
]

pub scan_groups-foreign :
    (c : List ℕ) (w : Handler) (gs out : List Group)
    → managed w.command ≡ true
    → scan_groups c w gs ≡ repaired out
    → foreign_of out ≡ foreign_of gs
unfolding scan_groups foreign_of
scan_groups-foreign c w [] out m h = cc h
scan_groups-foreign c w (g ∷ gs) out m h = elim (Scan-cases (scan_handlers c w g.hooks)) [
  | inl a ↦ elim (Scan-cases (scan_groups c w gs)) [
    | inl b ↦ cc (rw (a, b) at h)
    | inr (inl b) ↦ cc (rw (a, b) at h)
    | inr (inr (inl (gs', b))) ↦
        let z : g ∷ gs' ≡ out = cc (rw (a, b) at h) in
        rw (sym z)
          (ap (λ r. foreign_handlers g.matcher g.hooks ++ r) (scan_groups-foreign c w gs gs' m b))
    | inr (inr (inr b)) ↦ cc (rw (a, b) at h)
  ]
  | inr (inl a) ↦ cc (rw a at h)
  | inr (inr (inl (hs, a))) ↦
      let z : record { matcher = g.matcher; hooks = hs } ∷ gs ≡ out = cc (rw a at h) in
      rw (sym z) (ap (λ r. r ++ foreign_of gs) (scan_handlers-foreign c w g.matcher g.hooks hs m a))
  | inr (inr (inr a)) ↦ cc (rw a at h)
]

-- A handler that was repaired is found as it is wanted.
scan_handlers-repaired :
    (c : List ℕ) (w : Handler) (hs out : List Handler)
    → managed w.command ≡ true
    → same w.command c ≡ true
    → same_handler w w ≡ true
    → scan_handlers c w hs ≡ repaired out
    → scan_handlers c w out ≡ kept
unfolding scan_handlers
scan_handlers-repaired c w [] out m s t h = cc h
scan_handlers-repaired c w (x ∷ hs) out m s t h = elim (Bool-cases (managed x.command)) [
  | inl k ↦ elim (Bool-cases (same x.command c)) [
    | inl s' ↦ elim (Bool-cases (same_handler x w)) [
      | inl t' ↦ cc (rw (k, s', t') at h)
      | inr t' ↦ let z : w ∷ hs ≡ out = cc (rw (k, s', t') at h) in rw (sym z, m, s, t) refl
    ]
    | inr s' ↦ cc (rw (k, s') at h)
  ]
  | inr k ↦ elim (Scan-cases (scan_handlers c w hs)) [
    | inl a ↦ cc (rw (k, a) at h)
    | inr (inl a) ↦ cc (rw (k, a) at h)
    | inr (inr (inl (hs', a))) ↦
        let z : x ∷ hs' ≡ out = cc (rw (k, a) at h) in
        rw (sym z, k, scan_handlers-repaired c w hs hs' m s t a) refl
    | inr (inr (inr a)) ↦ cc (rw (k, a) at h)
  ]
]

pub scan_groups-repaired :
    (c : List ℕ) (w : Handler) (gs out : List Group)
    → managed w.command ≡ true
    → same w.command c ≡ true
    → same_handler w w ≡ true
    → scan_groups c w gs ≡ repaired out
    → scan_groups c w out ≡ kept
unfolding scan_groups
scan_groups-repaired c w [] out m s t h = cc h
scan_groups-repaired c w (g ∷ gs) out m s t h = elim (Scan-cases (scan_handlers c w g.hooks)) [
  | inl a ↦ elim (Scan-cases (scan_groups c w gs)) [
    | inl b ↦ cc (rw (a, b) at h)
    | inr (inl b) ↦ cc (rw (a, b) at h)
    | inr (inr (inl (gs', b))) ↦
        let z : g ∷ gs' ≡ out = cc (rw (a, b) at h) in
        rw (sym z, a, scan_groups-repaired c w gs gs' m s t b) refl
    | inr (inr (inr b)) ↦ cc (rw (a, b) at h)
  ]
  | inr (inl a) ↦ cc (rw a at h)
  | inr (inr (inl (hs, a))) ↦
      let z : record { matcher = g.matcher; hooks = hs } ∷ gs ≡ out = cc (rw a at h) in
      rw (sym z, scan_handlers-repaired c w g.hooks hs m s t a) refl
  | inr (inr (inr a)) ↦ cc (rw a at h)
]

pub scan_groups-append :
    (c : List ℕ) (w : Handler) (g : Group) (gs : List Group)
    → scan_groups c w gs ≡ absent
    → scan_groups c w (g ∷ []) ≡ kept
    → scan_groups c w (gs ++ g ∷ []) ≡ kept
unfolding scan_groups
scan_groups-append c w g [] h k = k
scan_groups-append c w g (x ∷ gs) h k = elim (Scan-cases (scan_handlers c w x.hooks)) [
  | inl a ↦ elim (Scan-cases (scan_groups c w gs)) [
    | inl b ↦ rw (a, scan_groups-append c w g gs b k) refl
    | inr (inl b) ↦ cc (rw (a, b) at h)
    | inr (inr (inl (gs', b))) ↦ cc (rw (a, b) at h)
    | inr (inr (inr b)) ↦ cc (rw (a, b) at h)
  ]
  | inr (inl a) ↦ cc (rw a at h)
  | inr (inr (inl (hs, a))) ↦ cc (rw a at h)
  | inr (inr (inr a)) ↦ cc (rw a at h)
]
