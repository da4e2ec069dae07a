-- ===== src/Hooks/Foreign.antt =====
-- hooks.go: the handlers that are not Overgent's stay in the file, with their matchers and in their order.
use overgent.Prelude.Outcomes.{◌>>=◌}
use mathlib.Core.Path.{subst}
use overgent.Hooks.Settings.{Handler, Group, Raw, File, HookError, read, value_of, groups_for}
use overgent.Hooks.Groups.{
  managed, strip_handlers, put_group, strip_groups, put_event, strip_events, managed_for_vendor,
}
use overgent.Hooks.Binding.{wanted, expected}
use overgent.Hooks.Tables.{groups_at, is_event}
use overgent.Prelude.{
  ℕ, String, ◌≡◌, refl, sym, ap, ◌∙◌, inl, inr, true, false, none, some, List, [], ◌∷◌, ◌++◌, arith,
  str_eq, if◌then◌else◌, Bool-cases, Result, ok, Result-cases,
}

unfoldable pub foreign_handlers : String → List Handler → List (String × Handler)
foreign_handlers matcher [] = []
foreign_handlers matcher (h ∷ hs) =
    let rest = foreign_handlers matcher hs in
    if managed h.command then rest else (matcher, h) ∷ rest

-- The handlers of an event that no Overgent command runs, each with the matcher of its group.
unfoldable pub foreign_of : List Group → List (String × Handler)
foreign_of [] = []
foreign_of (g ∷ gs) = foreign_handlers g.matcher g.hooks ++ foreign_of gs

-- The same, read from a file.
unfoldable pub foreign_in : File → String → Result HookError (List (String × Handler))
foreign_in file e = do (d, hooks) ← read file; gs ← groups_at e hooks; ok (foreign_of gs)

pub foreign_of-expected :
    (os c : List ℕ) (e : String) (gs : List Group)
    → managed c ≡ true
    → foreign_of (gs ++ expected os e c ∷ []) ≡ foreign_of gs
unfolding foreign_of foreign_handlers expected wanted
foreign_of-expected os c e [] m = rw m refl
foreign_of-expected os c e (g ∷ gs) m =
    ap (λ r. foreign_handlers g.matcher g.hooks ++ r) (foreign_of-expected os c e gs m)

-- Rebind

foreign-strip_handlers :
    (vendor : List ℕ) (matcher : String) (hs out : List Handler)
    → strip_handlers vendor hs ≡ ok out
    → foreign_handlers matcher out ≡ foreign_handlers matcher hs
unfolding foreign_handlers strip_handlers
foreign-strip_handlers vendor matcher [] out h = let n : [] ≡ out = cc h in rw (sym n) refl
foreign-strip_handlers vendor matcher (x ∷ hs) out h = elim (Bool-cases (managed x.command)) [
  | inl m ↦ elim (Bool-cases (managed_for_vendor x.command vendor)) [
    | inl v ↦ rw m (foreign-strip_handlers vendor matcher hs out (rw (m, v) at h))
    | inr v ↦ cc (rw (m, v) at h)
  ]
  | inr m ↦ elim (Result-cases (strip_handlers vendor hs)) [
    | inl (hs', k) ↦
        let e : x ∷ hs' ≡ out = cc (rw (m, k) at h) in
        rw (sym e, m) (ap (λ r. (matcher, x) ∷ r) (foreign-strip_handlers vendor matcher hs hs' k))
    | inr (x', k) ↦ cc (rw (m, k) at h)
  ]
]

foreign-put_group :
    (g : Group) (hs : List Handler) (gs : List Group)
    → foreign_of (put_group g hs gs) ≡ foreign_handlers g.matcher hs ++ foreign_of gs
unfolding foreign_of foreign_handlers
foreign-put_group g [] gs = refl
foreign-put_group g (h ∷ hs) gs = refl

pub foreign-strip_groups :
    (vendor : List ℕ) (gs out : List Group)
    → strip_groups vendor gs ≡ ok out
    → foreign_of out ≡ foreign_of gs
unfolding foreign_of strip_groups
foreign-strip_groups vendor [] out h = let n : [] ≡ out = cc h in rw (sym n) refl
foreign-strip_groups vendor (g ∷ gs) out h = elim (Result-cases (strip_handlers vendor g.hooks)) [
  | inl (hs, k) ↦ elim (Result-cases (strip_groups vendor gs)) [
    | inl (gs', j) ↦
        let e : put_group g hs gs' ≡ out = cc (rw (k, j) at h) in
        subst (λ o. foreign_of o ≡ foreign_handlers g.matcher g.hooks ++ foreign_of gs) e
          (foreign-put_group g hs gs'
            ∙ cc (
              foreign-strip_handlers vendor g.matcher g.hooks hs k,
              foreign-strip_groups vendor gs gs' j,
            ))
    | inr (x, j) ↦ cc (rw (k, j) at h)
  ]
  | inr (x, k) ↦ cc (rw k at h)
]

value_of-put_event :
    (f e : String) (gs : List Group) (rest : List (String × Raw))
    → str_eq f e ≡ false
    → value_of e rest ≡ none
    → value_of e (put_event f gs rest) ≡ none
unfolding value_of
value_of-put_event f e [] rest h k = k
value_of-put_event f e (g ∷ gs) rest h k = rw h k

pub value_of-strip_events :
    (vendor : List ℕ) (hooks out : List (String × Raw)) (e : String)
    → strip_events vendor hooks ≡ ok out
    → value_of e hooks ≡ none
    → value_of e out ≡ none
unfolding strip_events value_of
value_of-strip_events vendor [] out e h n = let z : [] ≡ out = cc h in rw (sym z) refl
value_of-strip_events vendor ((f, raw) ∷ more) out e h n =
    elim (Result-cases (groups_for f (some raw))) [
      | inl (gs, k) ↦ elim (Result-cases (strip_groups vendor gs)) [
        | inl (gs', j) ↦ elim (Result-cases (strip_events vendor more)) [
          | inl (rest, l) ↦
              let z : put_event f gs' rest ≡ out = cc (rw (k, j, l) at h) in
              subst (λ o. value_of e o ≡ none) z
                (value_of-put_event f e gs' rest (ground (arith, n))
                  (value_of-strip_events vendor more rest e l (ground (arith, n))))
          | inr (x, l) ↦ cc (rw (k, j, l) at h)
        ]
        | inr (x, j) ↦ cc (rw (k, j) at h)
      ]
      | inr (x, k) ↦ cc (rw k at h)
    ]

abbrev pub names_of : List (String × Raw) → List String
names_of [] = []
names_of ((e, raw) ∷ more) = e ∷ names_of more

pub value_of-absent :
    (e : String) (hooks : List (String × Raw))
    → is_event e (names_of hooks) ≡ false
    → value_of e hooks ≡ none
unfolding is_event value_of
value_of-absent e [] h = refl
value_of-absent e ((f, raw) ∷ more) h = ground (arith, value_of-absent e more)
