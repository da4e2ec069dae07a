-- ===== src/Hooks/Installed.antt =====
-- hooks.go, Install: what one event is after its step, and that the step then changes nothing.
use overgent.Prelude.Bytes.{same}
use mathlib.Core.Path.{subst}
use overgent.Hooks.Settings.{Handler, Group, Raw, value_of, set_member, groups_for, marshal}
use overgent.Hooks.Groups.{managed, scan_handlers, scan_groups, kept, takes_tool}
use overgent.Hooks.Binding.{wanted, expected, install_event}
use overgent.Hooks.Tables.{groups_at, groups_at-set_member, value_of-set_member}
use overgent.Hooks.Reads.{same_self, same_handler_self}
use overgent.Hooks.Repeated.{Scan-cases, scan_groups-repaired, scan_groups-append}
use overgent.Prelude.{
  ℕ, String, ◌≡◌, refl, sym, inl, inr, true, false, List, [], ◌∷◌, ◌++◌, str_eq, if◌then◌else◌,
  str_eq→eq, Bool-cases, ok, Result-cases,
}

pub wanted-command : (os c : List ℕ) (e : String) → (wanted os e c).command ≡ c
unfolding wanted
wanted-command os c e = refl

single-kept :
    (c : List ℕ) (w : Handler) (matcher : String)
    → managed w.command ≡ true
    → same w.command c ≡ true
    → scan_groups c w (record { matcher = matcher; hooks = w ∷ [] } ∷ []) ≡ kept
unfolding scan_groups scan_handlers
single-kept c w matcher m s = rw (m, s, same_handler_self w) refl

module _ (os c : List ℕ) where
  expected-kept :
      (e : String) → managed c ≡ true → scan_groups c (wanted os e c) (expected os e c ∷ []) ≡ kept
  unfolding expected
  expected-kept e m =
      single-kept c (wanted os e c) (if takes_tool e then "*" else "")
        (rw (wanted-command os c e) m) (rw (wanted-command os c e) (same_self c))

  -- What a look at an event finds when it is as Install leaves it.
  unfoldable pub IsSettled : String → List (String × Raw) → Type 0
  IsSettled e hooks =
      (gs : List Group) × (groups_at e hooks ≡ ok gs) × (scan_groups c (wanted os e c) gs ≡ kept)

  pub install_event-settles :
      (e : String) (hooks out : List (String × Raw))
      → managed c ≡ true
      → install_event os c e hooks ≡ ok out
      → IsSettled e out
  unfolding IsSettled install_event groups_at
  install_event-settles e hooks out m h =
      let w = wanted os e c in
      elim (Result-cases (groups_for e (value_of e hooks))) [
        | inl (gs, k) ↦ elim (Scan-cases (scan_groups c w gs)) [
          | inl a ↦
              let z : set_member e (marshal (gs ++ expected os e c ∷ [])) hooks ≡ out =
                cc (rw (k, a) at h) in
              subst (IsSettled e) z (
                gs ++ expected os e c ∷ [],
                groups_at-set_member e (gs ++ expected os e c ∷ []) hooks,
                scan_groups-append c w (expected os e c) gs a (expected-kept e m),
              )
          | inr (inl a) ↦
              let z : hooks ≡ out = cc (rw (k, a) at h) in subst (IsSettled e) z (gs, k, a)
          | inr (inr (inl (gs', a))) ↦
              let z : set_member e (marshal gs') hooks ≡ out = cc (rw (k, a) at h) in
              subst (IsSettled e) z (
                gs',
                groups_at-set_member e gs' hooks,
                scan_groups-repaired c w gs gs' (rw (wanted-command os c e) m)
                    (rw (wanted-command os c e) (same_self c)) (same_handler_self w) a,
              )
          | inr (inr (inr a)) ↦ cc (rw (k, a) at h)
        ]
        | inr (x, k) ↦ cc (rw k at h)
      ]

  pub install_event-other :
      (f : String) (hooks out : List (String × Raw)) (e : String)
      → install_event os c f hooks ≡ ok out
      → str_eq f e ≡ false
      → value_of e out ≡ value_of e hooks
  unfolding install_event
  install_event-other f hooks out e h n = elim (Result-cases (groups_for f (value_of f hooks))) [
    | inl (gs, k) ↦ elim (Scan-cases (scan_groups c (wanted os f c) gs)) [
      | inl a ↦
          let r = marshal (gs ++ expected os f c ∷ []) in
          let z : set_member f r hooks ≡ out = cc (rw (k, a) at h) in
          rw (sym z, value_of-set_member f e r hooks, n) refl
      | inr (inl a) ↦ let z : hooks ≡ out = cc (rw (k, a) at h) in rw (sym z) refl
      | inr (inr (inl (gs', a))) ↦
          let z : set_member f (marshal gs') hooks ≡ out = cc (rw (k, a) at h) in
          rw (sym z, value_of-set_member f e (marshal gs') hooks, n) refl
      | inr (inr (inr a)) ↦ cc (rw (k, a) at h)
    ]
    | inr (x, k) ↦ cc (rw k at h)
  ]

  pub install_event-settled :
      (e : String) (hooks : List (String × Raw))
      → IsSettled e hooks
      → install_event os c e hooks ≡ ok hooks
  unfolding install_event IsSettled groups_at
  install_event-settled e hooks (gs, k, a) = rw (k, a) refl

  pub install_event-keeps :
      (f e : String) (hooks out : List (String × Raw))
      → managed c ≡ true
      → install_event os c f hooks ≡ ok out
      → IsSettled e hooks
      → IsSettled e out
  unfolding IsSettled groups_at
  install_event-keeps f e hooks out m h (gs, k, a) = elim (Bool-cases (str_eq f e)) [
    | inl s ↦ subst (λ x. IsSettled x out) (str_eq→eq f e s) (install_event-settles f hooks out m h)
    | inr s ↦ (gs, rw (install_event-other f hooks out e h s) k, a)
  ]
