-- ===== src/Hooks/Kept.antt =====
-- hooks.go, Install and Rebind: the handlers that are not Overgent's are the same before and after.
use mathlib.Core.Path.{subst}
use overgent.Hooks.Settings.{Group, Raw, Document, File, document, read, value_of, groups_for}
use overgent.Hooks.Groups.{
  managed, strip_groups, put_event, strip_events, configured_events, command_vendor,
}
use overgent.Hooks.Binding.{expected, append_events, rebind}
use overgent.Hooks.Tables.{groups_at, is_event, are_distinct, groups_for-marshal, read-write}
use overgent.Hooks.Bare.{append_events-other, append_events-at}
use overgent.Hooks.Foreign.{
  foreign_of, foreign_in, foreign_of-expected, foreign-strip_groups, value_of-strip_events,
  value_of-absent, names_of,
}
use overgent.Hooks.Rebound.{rebind-parts, configured-distinct, vendor_managed}
use overgent.Prelude.{
  ℕ, String, ◌≡◌, refl, ap, ◌∙◌, inl, inr, true, false, none, some, List, [], ◌∷◌, ◌++◌, arith,
  str_eq, eq_refl, str_eq→eq, Bool-cases, ok, Result-cases,
}

put_event-at :
    (e : String) (gs : List Group) (rest : List (String × Raw))
    → value_of e rest ≡ none
    → groups_at e (put_event e gs rest) ≡ ok gs
unfolding groups_at value_of groups_for
put_event-at e [] rest h = rw h refl
put_event-at e (g ∷ gs) rest h = rw (eq_refl e) (groups_for-marshal e (g ∷ gs))

put_event-other :
    (f e : String) (gs : List Group) (rest : List (String × Raw))
    → str_eq f e ≡ false
    → groups_at e (put_event f gs rest) ≡ groups_at e rest
unfolding groups_at value_of
put_event-other f e [] rest h = refl
put_event-other f e (g ∷ gs) rest h = rw h refl

-- The groups of an event before and after the first pass.
IsStripped : List ℕ → String → List (String × Raw) → List (String × Raw) → Type 0
IsStripped vendor e hooks out =
    (gs : List Group) × (gs' : List Group) × (groups_at e hooks ≡ ok gs)
    × (groups_at e out ≡ ok gs')
    × (strip_groups vendor gs ≡ ok gs')

strip_events-first :
    (vendor : List ℕ) (f : String) (raw : Raw) (more rest : List (String × Raw))
    (gs gs' : List Group)
    → is_event f (names_of more) ≡ false
    → groups_for f (some raw) ≡ ok gs
    → strip_groups vendor gs ≡ ok gs'
    → strip_events vendor more ≡ ok rest
    → IsStripped vendor f ((f, raw) ∷ more) (put_event f gs' rest)
unfolding IsStripped groups_at value_of
strip_events-first vendor f raw more rest gs gs' n k j l = (
  gs,
  gs',
  rw (eq_refl f) k,
  put_event-at f gs' rest (value_of-strip_events vendor more rest f l (value_of-absent f more n)),
  j,
)

IsStripped-nothing : (vendor : List ℕ) (e : String) → IsStripped vendor e [] []
unfolding IsStripped groups_at value_of groups_for strip_groups
IsStripped-nothing vendor e = ([], [], refl, refl, refl)

strip_events-next :
    (vendor : List ℕ) (f e : String) (raw : Raw) (gs' : List Group)
    (more rest : List (String × Raw))
    → str_eq f e ≡ false
    → IsStripped vendor e more rest
    → IsStripped vendor e ((f, raw) ∷ more) (put_event f gs' rest)
unfolding IsStripped groups_at value_of
strip_events-next vendor f e raw gs' more rest s (xs, ys, p, q, r) =
    (xs, ys, rw s p, put_event-other f e gs' rest s ∙ q, r)

strip_events-at :
    (vendor : List ℕ) (hooks out : List (String × Raw)) (e : String)
    → are_distinct (names_of hooks) ≡ true
    → strip_events vendor hooks ≡ ok out
    → IsStripped vendor e hooks out
unfolding IsStripped strip_events are_distinct
strip_events-at vendor [] out e d h =
    let z : [] ≡ out = cc h in subst (λ o. IsStripped vendor e [] o) z (IsStripped-nothing vendor e)
strip_events-at vendor ((f, raw) ∷ more) out e d h = elim (Result-cases (groups_for f (some raw))) [
  | inl (gs, k) ↦ elim (Result-cases (strip_groups vendor gs)) [
    | inl (gs', j) ↦ elim (Result-cases (strip_events vendor more)) [
      | inl (rest, l) ↦
          let z : put_event f gs' rest ≡ out = cc (rw (k, j, l) at h) in
          subst (λ o. IsStripped vendor e ((f, raw) ∷ more) o) z
            (elim (Bool-cases (str_eq f e)) [
              | inl s ↦
                  subst (λ x. IsStripped vendor x ((f, raw) ∷ more) (put_event f gs' rest))
                    (str_eq→eq f e s)
                    (strip_events-first vendor f raw more rest gs gs' (ground (arith, d)) k j l)
              | inr s ↦
                  strip_events-next vendor f e raw gs' more rest s
                    (strip_events-at vendor more rest e (ground (arith, d)) l)
            ])
      | inr (x, l) ↦ cc (rw (k, j, l) at h)
    ]
    | inr (x, j) ↦ cc (rw (k, j) at h)
  ]
  | inr (x, k) ↦ cc (rw k at h)
]

module _ (os c : List ℕ) where
  append_events-foreign :
      (es : List String) (e : String) (hooks out : List (String × Raw)) (gs : List Group)
      → managed c ≡ true
      → are_distinct es ≡ true
      → append_events os c es hooks ≡ ok out
      → groups_at e hooks ≡ ok gs
      → (gs' : List Group) × (groups_at e out ≡ ok gs') × (foreign_of gs' ≡ foreign_of gs)
  append_events-foreign es e hooks out gs m d h k = elim (Bool-cases (is_event e es)) [
    | inl i ↦ (
      gs ++ expected os e c ∷ [],
      append_events-at os c es e hooks out gs d i h k,
      foreign_of-expected os c e gs m,
    )
    | inr i ↦ (gs, append_events-other os c es e hooks out i h ∙ k, refl)
  ]

  -- A rebind that succeeded leaves each event the handlers that no Overgent command runs, with their
  -- matchers and in their order, where the file names no event twice.
  pub rebind-foreign :
      (file : File) (doc d : Document) (hooks : List (String × Raw)) (e : String)
      → read file ≡ ok (d, hooks)
      → are_distinct (names_of hooks) ≡ true
      → rebind os file c ≡ ok doc
      → foreign_in (document doc) e ≡ foreign_in file e
  unfolding foreign_in IsStripped
  rebind-foreign file doc d hooks e r u h =
      let (d', hooks', stripped, out, k, n, p, q, shape) = rebind-parts os c file doc h in
      let same_hooks : hooks' ≡ hooks = cc (k, r) in
      let (gs, gs', before, between, left) =
        strip_events-at (command_vendor c) hooks stripped e u (rw same_hooks at p) in
      let (gs'', after, equal) =
        append_events-foreign (configured_events c) e stripped out gs' (vendor_managed c n)
          (configured-distinct c) q between in
      rw (shape, read-write d' out, r, after, before)
        (ap ok (equal ∙ foreign-strip_groups (command_vendor c) gs gs' left))
