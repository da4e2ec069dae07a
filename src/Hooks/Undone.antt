-- ===== src/Hooks/Undone.antt =====
-- hooks.go, Install and Remove: on a file without managed handlers the one undoes the other.
use overgent.Prelude.Outcomes.{◌>>=◌}
use mathlib.Core.Path.{subst}
use overgent.Hooks.Settings.{
  groups, other, decoded_groups, Group, Raw, Document, File, document, HookError, read, write,
  value_of, groups_for, put_kept,
}
use overgent.Hooks.Groups.{managed, drop_managed, is_codex, configured_events}
use overgent.Hooks.Binding.{
  expected, install, install_events, withdraw_event, remove, remove_events,
}
use overgent.Hooks.Tables.{
  groups_at, groups_at-put_kept, groups_at-put_kept_ne, is_event, are_distinct, read-write,
}
use overgent.Hooks.Reads.{same_self}
use overgent.Hooks.Bare.{
  any_managed, drop_managed-append, drop_managed-bare, append_events-other, append_events-at,
  append_events-total, install_events-bare, event-str_neq,
}
use overgent.Hooks.Rebound.{configured-distinct}
use overgent.Hooks.Installation.{withdraw_event-other, withdrawn_first}
use overgent.Prelude.{
  ℕ, String, ◌≡◌, refl, sym, ◌∙◌, inl, inr, Bool, true, false, ◌&&◌, not, List, [], ◌∷◌, ◌++◌,
  arith, str_eq, eq_refl, if◌then◌else◌, str_eq→eq, Bool-cases, Result, ok, err, Result-cases,
}

module _ (os c : List ℕ) where
  remove_events-other :
      (es : List String) (e : String) (hooks out : List (String × Raw))
      → is_event e es ≡ false
      → remove_events os c es hooks ≡ ok out
      → groups_at e out ≡ groups_at e hooks
  unfolding remove_events is_event
  remove_events-other [] e hooks out n h = let z : hooks ≡ out = cc h in rw (sym z) refl
  remove_events-other (f ∷ es) e hooks out n h = elim (Result-cases (withdraw_event os c f hooks)) [
    | inl (hooks', k) ↦
        remove_events-other es e hooks' out (ground (arith, n)) (rw k at h)
        ∙ withdraw_event-other os c f e hooks hooks' (ground (arith, n)) k
    | inr (x, k) ↦ cc (rw k at h)
  ]

  -- The step of Remove on an event whose groups it can read.
  withdraw_event-at :
      (e : String) (hooks : List (String × Raw)) (gs left : List Group)
      → groups_at e hooks ≡ ok gs
      → drop_managed c gs ≡ ok left
      → withdraw_event os c e hooks ≡ ok (put_kept e left hooks)
  unfolding withdraw_event groups_at
  withdraw_event-at e hooks gs left k j = rw (k, j) refl

  -- Remove succeeds on a file whose configured events are bound, and leaves what stood before the
  -- expected groups.
  remove_events-bound :
      (es : List String) (hooks : List (String × Raw)) (before : String → List Group)
      → managed c ≡ true
      → are_distinct es ≡ true
      → ((e : String)
          → is_event e es ≡ true
          → (groups_at e hooks ≡ ok (before e ++ expected os e c ∷ []))
            × (any_managed (before e) ≡ false))
      → (out : List (String × Raw)) × (remove_events os c es hooks ≡ ok out)
        × ((e : String) → is_event e es ≡ true → groups_at e out ≡ ok (before e))
  unfolding remove_events is_event are_distinct
  remove_events-bound [] hooks before m d b = (hooks, refl, λ e i. absurd (ground (arith, i)))
  remove_events-bound (f ∷ es) hooks before m d b =
      let here = b f (rw (eq_refl f) refl) in
      let hooks' = put_kept f (before f) hooks in
      let step : withdraw_event os c f hooks ≡ ok hooks' =
        withdraw_event-at f hooks (before f ++ expected os f c ∷ []) (before f) here.0
          (drop_managed-append os c f (before f) m (same_self c) here.1) in
      let (out, p, q) = remove_events-bound es hooks' before m (ground (arith, d)) (λ x i.
        let there = b x (ground (arith, i)) in
        (
          groups_at-put_kept_ne x f (before f) hooks (event-str_neq es f x (ground (arith, d)) i)
              ∙ there.0,
          there.1,
        )) in
      (
        out,
        rw step p,
        λ x i. elim (Bool-cases (str_eq f x)) [
          | inl s ↦
              subst (λ y. groups_at y out ≡ ok (before y)) (str_eq→eq f x s)
                (remove_events-other es f hooks' out (ground (arith, d)) p
                  ∙ groups_at-put_kept f (before f) hooks)
          | inr s ↦ q x (ground (arith, i, s))
        ],
      )

  install_events-bound :
      (es : List String) (hooks : List (String × Raw)) (before : String → List Group)
      → are_distinct es ≡ true
      → ((e : String) → (groups_at e hooks ≡ ok (before e)) × (any_managed (before e) ≡ false))
      → (out : List (String × Raw)) × (install_events os c es hooks ≡ ok out)
        × ((e : String)
            → groups_at e out
              ≡ ok (if is_event e es then before e ++ expected os e c ∷ [] else before e))
  unfolding are_distinct
  install_events-bound es hooks before d b =
      let plain = install_events-bare os c es hooks d (λ e i. (before e, (b e).0, (b e).1)) in
      let (out, p) = append_events-total os c es hooks d (λ e. (before e, (b e).0)) in
      (
        out,
        plain ∙ p,
        λ e. elim (Bool-cases (is_event e es)) [
          | inl i ↦ rw i (append_events-at os c es e hooks out (before e) d i p (b e).0)
          | inr i ↦ rw i (append_events-other os c es e hooks out i p ∙ (b e).0)
        ],
      )

  withdrawn_first-bare :
      (hooks : List (String × Raw)) (before : String → List Group)
      → ((e : String) → (groups_at e hooks ≡ ok (before e)) × (any_managed (before e) ≡ false))
      → (between : List (String × Raw)) × (withdrawn_first os c hooks ≡ ok between)
        × ((e : String) → groups_at e between ≡ ok (before e))
  withdrawn_first-bare hooks before b =
      let f : String = "PostToolUseFailure" in
      elim (Bool-cases (is_codex c)) [
        | inl k ↦ (
          put_kept f (before f) hooks,
          rw k (
              withdraw_event-at f hooks (before f) (before f) (b f).0
                (drop_managed-bare c (before f) (b f).1)),
          λ e. elim (Bool-cases (str_eq f e)) [
            | inl s ↦
                subst (λ y. groups_at y (put_kept f (before f) hooks) ≡ ok (before y))
                  (str_eq→eq f e s) (groups_at-put_kept f (before f) hooks)
            | inr s ↦ groups_at-put_kept_ne e f (before f) hooks s ∙ (b e).0
          ],
        )
        | inr k ↦ (hooks, rw k refl, λ e. (b e).0)
      ]

-- The events of a file can be read, and none of their handlers is managed.
is_bare_raw : Raw → Bool
is_bare_raw (groups gs) = not (any_managed (decoded_groups gs))
is_bare_raw (other t) = false

unfoldable pub is_bare : List (String × Raw) → Bool
unfolding is_bare_raw
is_bare [] = true
is_bare ((e, raw) ∷ more) = is_bare_raw raw && is_bare more

-- The groups of an event, or none.
abbrev pub or_none : Result HookError (List Group) → List Group
or_none (ok gs) = gs
or_none (err x) = []

bare-at :
    (hooks : List (String × Raw)) (e : String)
    → is_bare hooks ≡ true
    → (groups_at e hooks ≡ ok (or_none (groups_at e hooks)))
      × (any_managed (or_none (groups_at e hooks)) ≡ false)
unfolding is_bare is_bare_raw groups_at value_of groups_for any_managed
bare-at [] e h = (refl, refl)
bare-at ((f, groups gs) ∷ more) e h = elim (Bool-cases (str_eq f e)) [
  | inl s ↦ rw s (refl, ground (arith, h))
  | inr s ↦ rw s (bare-at more e (ground (arith, h)))
]
bare-at ((f, other t) ∷ more) e h = absurd (ground (arith, h))

-- The groups of an event of a file.
unfoldable pub event_in : File → String → Result HookError (List Group)
event_in file e = do (d, hooks) ← read file; groups_at e hooks

module _ (os c : List ℕ) where
  -- On a settings file that can be read and holds no managed handler, installing a managed command
  -- succeeds, and so does removing it from the result, which leaves every event the groups it had.
  pub remove-install :
      (file : File) (d : Document) (hooks : List (String × Raw))
      → managed c ≡ true
      → read file ≡ ok (d, hooks)
      → is_bare hooks ≡ true
      → (installed : Document) × (removed : Document) × (install os file c ≡ ok installed)
        × (remove os (document installed) c ≡ ok removed)
        × ((e : String) → event_in (document removed) e ≡ event_in file e)
  unfolding install remove event_in
  remove-install file d hooks m r b =
      let before = λ (e : String). or_none (groups_at e hooks) in
      let es = configured_events c in
      let (between, w, at) = withdrawn_first-bare os c hooks before (λ e. bare-at hooks e b) in
      let (out, p, q) =
        install_events-bound os c es between before (configured-distinct c)
          (λ e. (at e, (bare-at hooks e b).1)) in
      let (left, x, y) =
        remove_events-bound os c es out before m (configured-distinct c)
          (λ e i. (rw i at (q e), (bare-at hooks e b).1)) in
      (
        write d out,
        write (write d out) left,
        rw (r, w, p) refl,
        rw (read-write d out, x) refl,
        λ e.
            let unchanged : groups_at e left ≡ groups_at e hooks =
              elim (Bool-cases (is_event e es)) [
                | inl i ↦ y e i ∙ sym (bare-at hooks e b).0
                | inr i ↦
                    remove_events-other os c es e out left i x
                    ∙ (rw i at (q e))
                    ∙ sym (bare-at hooks e b).0
              ] in
            rw (read-write (write d out) left, r) unchanged,
      )
