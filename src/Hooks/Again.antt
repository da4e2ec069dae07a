-- ===== src/Hooks/Again.antt =====
-- hooks.go, Install: the passes over the events, done a second time.
use mathlib.Core.Path.{subst}
use overgent.Hooks.Settings.{Group, Raw, value_of, groups_for, marshal, put_kept}
use overgent.Hooks.Groups.{managed, holds_managed, drop_managed}
use overgent.Hooks.Binding.{install_event, install_events, withdraw_event}
use overgent.Hooks.Tables.{
  groups_at, groups_at-put_kept, is_event, value_of-set_member, set_member_same,
  delete_member_absent, value_of-delete_member,
}
use overgent.Hooks.Installed.{
  IsSettled, install_event-settles, install_event-settled, install_event-keeps, install_event-other,
}
use overgent.Prelude.{
  ℕ, String, ◌≡◌, refl, sym, ap, ◌∙◌, inl, inr, true, false, List, [], ◌∷◌, arith, str_eq, eq_refl,
  str_eq→eq, Bool-cases, ok, Result-cases,
}

drop_managed-again :
    (c : List ℕ) (gs out : List Group) → drop_managed c gs ≡ ok out → drop_managed c out ≡ ok out
unfolding drop_managed
drop_managed-again c [] out h = let z : [] ≡ out = cc h in rw (sym z) refl
drop_managed-again c (g ∷ gs) out h = elim (Result-cases (holds_managed c g.hooks)) [
  | inl (b, k) ↦ elim (Result-cases (drop_managed c gs)) [
    | inl (rest, j) ↦
        let ih : drop_managed c rest ≡ ok rest = drop_managed-again c gs rest j in
        elim (Bool-cases b) [
          | inl t ↦ let z : rest ≡ out = cc (rw (k, j, t) at h) in rw (sym z) ih
          | inr t ↦ let z : g ∷ rest ≡ out = cc (rw (k, j, t) at h) in rw (sym z, k, ih, t) refl
        ]
    | inr (x, j) ↦ cc (rw (k, j) at h)
  ]
  | inr (x, k) ↦ cc (rw k at h)
]

pub groups_at-same :
    (e : String) (hooks hooks' : List (String × Raw))
    → value_of e hooks ≡ value_of e hooks'
    → groups_at e hooks ≡ groups_at e hooks'
unfolding groups_at
groups_at-same e hooks hooks' h = ap (groups_for e) h

withdrawn :
    (os c : List ℕ) (e : String) (gs : List Group) (hooks : List (String × Raw))
    → groups_at e hooks ≡ ok gs
    → drop_managed c gs ≡ ok gs
    → put_kept e gs hooks ≡ hooks
    → withdraw_event os c e hooks ≡ ok hooks
unfolding withdraw_event groups_at
withdrawn os c e gs hooks h k l = rw (h, k, l) refl

put_kept-again :
    (e : String) (gs : List Group) (hooks later : List (String × Raw))
    → value_of e later ≡ value_of e (put_kept e gs hooks)
    → put_kept e gs later ≡ later
unfolding put_kept
put_kept-again e [] hooks later h =
    delete_member_absent e later (h ∙ rw (value_of-delete_member e e hooks, eq_refl e) refl)
put_kept-again e (g ∷ gs) hooks later h =
    set_member_same e (marshal (g ∷ gs)) later
      (h ∙ rw (value_of-set_member e e (marshal (g ∷ gs)) hooks, eq_refl e) refl)

-- An event that a managed command was withdrawn from is not changed by a second withdrawal.
pub withdraw_event-again :
    (os c : List ℕ) (e : String) (hooks out later : List (String × Raw))
    → withdraw_event os c e hooks ≡ ok out
    → value_of e later ≡ value_of e out
    → withdraw_event os c e later ≡ ok later
unfolding withdraw_event
withdraw_event-again os c e hooks out later h l =
    elim (Result-cases (groups_for e (value_of e hooks))) [
      | inl (gs, k) ↦ elim (Result-cases (drop_managed c gs)) [
        | inl (rest, j) ↦
            let z : put_kept e rest hooks ≡ out = cc (rw (k, j) at h) in
            let there : groups_at e later ≡ ok rest =
              groups_at-same e later out l ∙ rw (sym z) (groups_at-put_kept e rest hooks) in
            withdrawn os c e rest later there (drop_managed-again c gs rest j)
              (put_kept-again e rest hooks later (rw (sym z) at l))
        | inr (x, j) ↦ cc (rw (k, j) at h)
      ]
      | inr (x, k) ↦ cc (rw k at h)
    ]

module _ (os c : List ℕ) where
  pub install_events-other :
      (es : List String) (hooks out : List (String × Raw)) (e : String)
      → is_event e es ≡ false
      → install_events os c es hooks ≡ ok out
      → value_of e out ≡ value_of e hooks
  unfolding install_events is_event
  install_events-other [] hooks out e n h = let z : hooks ≡ out = cc h in rw (sym z) refl
  install_events-other (f ∷ es) hooks out e n h = elim (Result-cases (install_event os c f hooks)) [
    | inl (hooks', k) ↦
        install_events-other es hooks' out e (ground (arith, n)) (rw k at h)
        ∙ install_event-other os c f hooks hooks' e k (ground (arith, n))
    | inr (x, k) ↦ cc (rw k at h)
  ]

  install_events-keeps :
      (es : List String) (e : String) (hooks out : List (String × Raw))
      → managed c ≡ true
      → install_events os c es hooks ≡ ok out
      → IsSettled os c e hooks
      → IsSettled os c e out
  unfolding install_events
  install_events-keeps [] e hooks out m h s =
      let z : hooks ≡ out = cc h in subst (IsSettled os c e) z s
  install_events-keeps (f ∷ es) e hooks out m h s =
      elim (Result-cases (install_event os c f hooks)) [
        | inl (hooks', k) ↦
            install_events-keeps es e hooks' out m (rw k at h)
              (install_event-keeps os c f e hooks hooks' m k s)
        | inr (x, k) ↦ cc (rw k at h)
      ]

  pub install_events-settles :
      (es : List String) (hooks out : List (String × Raw)) (e : String)
      → managed c ≡ true
      → install_events os c es hooks ≡ ok out
      → is_event e es ≡ true
      → IsSettled os c e out
  unfolding install_events is_event
  install_events-settles [] hooks out e m h i = absurd (ground (arith, i))
  install_events-settles (f ∷ es) hooks out e m h i =
      elim (Result-cases (install_event os c f hooks)) [
        | inl (hooks', k) ↦ elim (Bool-cases (str_eq f e)) [
          | inl s ↦ install_events-keeps es e hooks' out m (rw k at h) (
              subst (λ x. IsSettled os c x hooks') (str_eq→eq f e s)
                (install_event-settles os c f hooks hooks' m k))
          | inr s ↦ install_events-settles es hooks' out e m (rw k at h) (ground (arith, i, s))
        ]
        | inr (x, k) ↦ cc (rw k at h)
      ]

  pub install_events-settled :
      (es : List String) (hooks : List (String × Raw))
      → ((e : String) → is_event e es ≡ true → IsSettled os c e hooks)
      → install_events os c es hooks ≡ ok hooks
  unfolding install_events is_event
  install_events-settled [] hooks s = refl
  install_events-settled (e ∷ es) hooks s =
      rw (install_event-settled os c e hooks (s e (rw (eq_refl e) refl)))
        (install_events-settled es hooks (λ x i. s x (ground (arith, i))))
