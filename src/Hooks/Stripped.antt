-- ===== src/Hooks/Stripped.antt =====
-- hooks.go, the loops of Rebind that take the old handlers out: no managed handler stays in an event.
use mathlib.Core.Path.{subst}
use overgent.Hooks.Settings.{Handler, Group, Raw, value_of, groups_for}
use overgent.Hooks.Groups.{
  managed, strip_handlers, put_group, strip_groups, put_event, strip_events, managed_for_vendor,
}
use overgent.Hooks.Tables.{groups_at, groups_for-marshal}
use overgent.Hooks.Bare.{has_managed, any_managed}
use overgent.Prelude.{
  ℕ, String, ◌≡◌, refl, sym, inl, inr, Bool, true, false, some, List, [], ◌∷◌, arith, str_eq,
  if◌then◌else◌, Bool-cases, ok, Result-cases,
}

strip_handlers-bare :
    (vendor : List ℕ) (hs out : List Handler)
    → strip_handlers vendor hs ≡ ok out
    → has_managed out ≡ false
unfolding has_managed strip_handlers
strip_handlers-bare vendor [] out h = ground (arith, h)
strip_handlers-bare vendor (x ∷ hs) out h = elim (Bool-cases (managed x.command)) [
  | inl m ↦ elim (Bool-cases (managed_for_vendor x.command vendor)) [
    | inl v ↦ strip_handlers-bare vendor hs out (rw (m, v) at h)
    | inr v ↦ cc (rw (m, v) at h)
  ]
  | inr m ↦ elim (Result-cases (strip_handlers vendor hs)) [
    | inl (hs', k) ↦
        let e : x ∷ hs' ≡ out = cc (rw (m, k) at h) in
        rw (sym e) (rw m (strip_handlers-bare vendor hs hs' k))
    | inr (x', k) ↦ cc (rw (m, k) at h)
  ]
]

put_group-bare :
    (g : Group) (hs : List Handler) (gs : List Group)
    → has_managed hs ≡ false
    → any_managed gs ≡ false
    → any_managed (put_group g hs gs) ≡ false
unfolding any_managed has_managed
put_group-bare g [] gs h k = k
put_group-bare g (x ∷ hs) gs h k = ground (arith, h, k)

strip_groups-bare :
    (vendor : List ℕ) (gs out : List Group)
    → strip_groups vendor gs ≡ ok out
    → any_managed out ≡ false
unfolding any_managed strip_groups
strip_groups-bare vendor [] out h = ground (arith, h)
strip_groups-bare vendor (g ∷ gs) out h = elim (Result-cases (strip_handlers vendor g.hooks)) [
  | inl (hs, k) ↦ elim (Result-cases (strip_groups vendor gs)) [
    | inl (gs', j) ↦
        let e : put_group g hs gs' ≡ out = cc (rw (k, j) at h) in
        subst (λ o. any_managed o ≡ false) e
          (put_group-bare g hs gs' (strip_handlers-bare vendor g.hooks hs k)
            (strip_groups-bare vendor gs gs' j))
    | inr (x, j) ↦ cc (rw (k, j) at h)
  ]
  | inr (x, k) ↦ cc (rw k at h)
]

abbrev is_nil : List Group → Bool
is_nil [] = true
is_nil (g ∷ gs) = false

groups_at-put_event :
    (e f : String) (gs : List Group) (rest : List (String × Raw))
    → groups_at f (put_event e gs rest)
      ≡ (if str_eq e f then (if is_nil gs then groups_at f rest else ok gs) else groups_at f rest)
unfolding groups_at value_of
groups_at-put_event e f [] rest = ground arith
groups_at-put_event e f (g ∷ gs) rest = ground (arith, groups_for-marshal f (g ∷ gs))

nothing_at : (e : String) → (gs : List Group) × (groups_at e [] ≡ ok gs) × (any_managed gs ≡ false)
unfolding groups_at value_of groups_for any_managed
nothing_at e = ([], refl, refl)

put_event-bare :
    (f e : String) (gs : List Group) (rest : List (String × Raw)) (xs : List Group)
    → any_managed gs ≡ false
    → groups_at e rest ≡ ok xs
    → any_managed xs ≡ false
    → (ys : List Group) × (groups_at e (put_event f gs rest) ≡ ok ys) × (any_managed ys ≡ false)
put_event-bare f e [] rest xs h p q = (xs, p, q)
put_event-bare f e (g ∷ gs) rest xs h p q = elim (Bool-cases (str_eq f e)) [
  | inl s ↦ (g ∷ gs, rw (groups_at-put_event f e (g ∷ gs) rest, s) refl, h)
  | inr s ↦ (xs, rw (groups_at-put_event f e (g ∷ gs) rest, s) p, q)
]

pub strip_events-bare :
    (vendor : List ℕ) (hooks out : List (String × Raw)) (e : String)
    → strip_events vendor hooks ≡ ok out
    → (gs : List Group) × (groups_at e out ≡ ok gs) × (any_managed gs ≡ false)
unfolding strip_events
strip_events-bare vendor [] out e h =
    let n : [] ≡ out = cc h in
    subst (λ o. (gs : List Group) × (groups_at e o ≡ ok gs) × (any_managed gs ≡ false)) n
      (nothing_at e)
strip_events-bare vendor ((f, raw) ∷ more) out e h = elim (Result-cases (groups_for f (some raw))) [
  | inl (gs, k) ↦ elim (Result-cases (strip_groups vendor gs)) [
    | inl (gs', j) ↦ elim (Result-cases (strip_events vendor more)) [
      | inl (rest, l) ↦
          let n : put_event f gs' rest ≡ out = cc (rw (k, j, l) at h) in
          let (xs, p, q) = strip_events-bare vendor more rest e l in
          subst (λ o. (gs : List Group) × (groups_at e o ≡ ok gs) × (any_managed gs ≡ false)) n
            (put_event-bare f e gs' rest xs (strip_groups-bare vendor gs gs' j) p q)
      | inr (x, l) ↦ cc (rw (k, j, l) at h)
    ]
    | inr (x, j) ↦ cc (rw (k, j) at h)
  ]
  | inr (x, k) ↦ cc (rw k at h)
]
