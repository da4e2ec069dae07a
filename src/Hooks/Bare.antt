-- ===== src/Hooks/Bare.antt =====
-- hooks.go: what the operations do to an event in which no handler is managed.
use overgent.Prelude.Bytes.{same}
use mathlib.Core.Path.{subst}
use overgent.Hooks.Settings.{Handler, Group, Raw, value_of, set_member, groups_for, marshal}
use overgent.Hooks.Groups.{managed, scan_handlers, scan_groups, absent, holds_managed, drop_managed}
use overgent.Hooks.Binding.{wanted, expected, install_event, install_events, append_events}
use overgent.Hooks.Tables.{
  groups_at, groups_at-set_member, groups_at-set_member_ne, is_event, are_distinct,
}
use overgent.Prelude.{
  ℕ, String, ◌≡◌, refl, ◌∙◌, inl, inr, Bool, true, false, ◌||◌, List, [], ◌∷◌, ◌++◌, arith, str_eq,
  eq_iff, eq_refl, str_eq→eq, Bool-cases, ok, Result-cases,
}

unfoldable pub has_managed : List Handler → Bool
has_managed [] = false
has_managed (h ∷ hs) = managed h.command || has_managed hs

unfoldable pub any_managed : List Group → Bool
any_managed [] = false
any_managed (g ∷ gs) = has_managed g.hooks || any_managed gs

scan_handlers-bare :
    (c : List ℕ) (w : Handler) (hs : List Handler)
    → has_managed hs ≡ false
    → scan_handlers c w hs ≡ absent
unfolding has_managed scan_handlers
scan_handlers-bare c w [] h = refl
scan_handlers-bare c w (x ∷ hs) h = ground (arith, scan_handlers-bare c w hs)

pub scan_groups-bare :
    (c : List ℕ) (w : Handler) (gs : List Group)
    → any_managed gs ≡ false
    → scan_groups c w gs ≡ absent
unfolding any_managed scan_groups
scan_groups-bare c w [] h = refl
scan_groups-bare c w (g ∷ gs) h =
    rw (scan_handlers-bare c w g.hooks (ground arith), scan_groups-bare c w gs (ground arith)) refl

holds_managed-bare :
    (c : List ℕ) (hs : List Handler) → has_managed hs ≡ false → holds_managed c hs ≡ ok false
unfolding has_managed holds_managed
holds_managed-bare c [] h = refl
holds_managed-bare c (x ∷ hs) h = ground (arith, holds_managed-bare c hs)

-- Dropping the group that was appended gives the groups back.
pub drop_managed-append :
    (os c : List ℕ) (e : String) (gs : List Group)
    → managed c ≡ true
    → same c c ≡ true
    → any_managed gs ≡ false
    → drop_managed c (gs ++ expected os e c ∷ []) ≡ ok gs
unfolding any_managed drop_managed expected wanted holds_managed
drop_managed-append os c e [] m r h = rw (m, r) refl
drop_managed-append os c e (g ∷ gs) m r h =
    rw
      (
        holds_managed-bare c g.hooks (ground arith),
        drop_managed-append os c e gs m r (ground arith),
      )
      refl

pub drop_managed-bare :
    (c : List ℕ) (gs : List Group) → any_managed gs ≡ false → drop_managed c gs ≡ ok gs
unfolding any_managed drop_managed
drop_managed-bare c [] h = refl
drop_managed-bare c (g ∷ gs) h =
    rw (holds_managed-bare c g.hooks (ground arith), drop_managed-bare c gs (ground arith)) refl

pub event-str_neq :
    (es : List String) (e x : String)
    → is_event e es ≡ false
    → is_event x es ≡ true
    → str_eq e x ≡ false
unfolding is_event
event-str_neq [] e x h k = ground arith
event-str_neq (d ∷ es) e x h k =
    ground (arith, eq_iff d e, eq_iff d x, eq_iff e x, event-str_neq es e x)

module _ (os c : List ℕ) where
  pub append_events-other :
      (es : List String) (e : String) (hooks out : List (String × Raw))
      → is_event e es ≡ false
      → append_events os c es hooks ≡ ok out
      → groups_at e out ≡ groups_at e hooks
  unfolding append_events is_event
  append_events-other [] e hooks out n h = cc
  append_events-other (d ∷ es) e hooks out n h =
      elim (Result-cases (groups_for d (value_of d hooks))) [
        | inl (gs, k) ↦
            append_events-other es e (set_member d (marshal (gs ++ expected os d c ∷ [])) hooks) out
              (ground arith) (rw k at h)
            ∙ groups_at-set_member_ne e d (marshal (gs ++ expected os d c ∷ [])) hooks
                (ground arith)
        | inr (x, k) ↦ cc (rw k at h)
      ]

  append_events-first :
      (es : List String) (f : String) (hooks out : List (String × Raw)) (gs : List Group)
      → is_event f es ≡ false
      → append_events os c (f ∷ es) hooks ≡ ok out
      → groups_at f hooks ≡ ok gs
      → groups_at f out ≡ ok (gs ++ expected os f c ∷ [])
  unfolding append_events groups_at
  append_events-first es f hooks out gs n h k =
      append_events-other es f (set_member f (marshal (gs ++ expected os f c ∷ [])) hooks) out n
        (rw k at h)
      ∙ groups_at-set_member f (gs ++ expected os f c ∷ []) hooks

  -- Each event of the pass gains the expected group at its end.
  pub append_events-at :
      (es : List String) (e : String) (hooks out : List (String × Raw)) (gs : List Group)
      → are_distinct es ≡ true
      → is_event e es ≡ true
      → append_events os c es hooks ≡ ok out
      → groups_at e hooks ≡ ok gs
      → groups_at e out ≡ ok (gs ++ expected os e c ∷ [])
  unfolding append_events is_event are_distinct groups_at
  append_events-at [] e hooks out gs d m h k = ground arith
  append_events-at (f ∷ es) e hooks out gs d m h k =
      elim (Result-cases (groups_for f (value_of f hooks))) [
        | inl (fs, p) ↦
            let hooks' = set_member f (marshal (fs ++ expected os f c ∷ [])) hooks in
            elim (Bool-cases (str_eq f e)) [
              | inl s ↦
                  subst
                    (λ x.
                      groups_at x hooks ≡ ok gs → groups_at x out ≡ ok (gs ++ expected os x c ∷ []))
                    (str_eq→eq f e s)
                    (λ k'. append_events-first es f hooks out gs (ground (arith, d)) h k') k
              | inr s ↦
                  append_events-at es e hooks' out gs (ground arith) (ground arith) (rw p at h)
                    (groups_at-set_member_ne e f (marshal (fs ++ expected os f c ∷ [])) hooks s ∙ k)
            ]
        | inr (x, p) ↦ cc (rw p at h)
      ]

  -- Install does to a bare event what Rebind's second pass does.
  pub install_event-bare :
      (e : String) (hooks : List (String × Raw)) (gs : List Group)
      → groups_at e hooks ≡ ok gs
      → any_managed gs ≡ false
      → install_event os c e hooks ≡ ok (set_member e (marshal (gs ++ expected os e c ∷ [])) hooks)
  unfolding install_event groups_at
  install_event-bare e hooks gs k n = rw (k, scan_groups-bare c (wanted os e c) gs n) refl

  pub install_events-bare :
      (es : List String) (hooks : List (String × Raw))
      → are_distinct es ≡ true
      → ((e : String)
          → is_event e es ≡ true
          → (gs : List Group) × (groups_at e hooks ≡ ok gs) × (any_managed gs ≡ false))
      → install_events os c es hooks ≡ append_events os c es hooks
  unfolding install_events append_events is_event are_distinct groups_at
  install_events-bare [] hooks d b = refl
  install_events-bare (e ∷ es) hooks d b =
      let (gs, k, n) = b e (rw (eq_refl e) refl) in
      let hooks' = set_member e (marshal (gs ++ expected os e c ∷ [])) hooks in
      rw (install_event-bare e hooks gs k n, k)
        (install_events-bare es hooks' (ground arith) (λ x m.
          let (xs, j, l) = b x (ground (arith, m)) in
          (
            xs,
            groups_at-set_member_ne x e (marshal (gs ++ expected os e c ∷ [])) hooks
                  (event-str_neq es e x (ground (arith, d)) m)
                ∙ j,
            l,
          )))

  pub append_events-total :
      (es : List String) (hooks : List (String × Raw))
      → are_distinct es ≡ true
      → ((e : String) → (gs : List Group) × (groups_at e hooks ≡ ok gs))
      → (out : List (String × Raw)) × (append_events os c es hooks ≡ ok out)
  unfolding append_events groups_at are_distinct
  append_events-total [] hooks d b = (hooks, refl)
  append_events-total (e ∷ es) hooks d b =
      let (gs, k) = b e in
      let r = gs ++ expected os e c ∷ [] in
      let (out, p) =
        append_events-total es (set_member e (marshal r) hooks) (ground (arith, d)) (λ x.
          elim (Bool-cases (str_eq e x)) [
            | inl s ↦
                subst
                  (λ y. (xs : List Group) × (groups_at y (set_member e (marshal r) hooks) ≡ ok xs))
                  (str_eq→eq e x s) (r, groups_at-set_member e r hooks)
            | inr s ↦ let (xs, j) = b x in (xs, groups_at-set_member_ne x e (marshal r) hooks s ∙ j)
          ]) in
      (out, rw k p)
