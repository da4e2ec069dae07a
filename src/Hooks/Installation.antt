-- ===== src/Hooks/Installation.antt =====
-- hooks.go, Install: the foreign handlers stay, and a second installation changes nothing.
use overgent.Prelude.Outcomes.{◌>>=◌}
use mathlib.Core.Path.{subst}
use overgent.Hooks.Settings.{
  Raw, Document, File, document, HookError, read, write, value_of, set_member, groups_for, marshal,
  put_kept,
}
use overgent.Hooks.Groups.{managed, scan_groups, drop_managed, is_codex, configured_events}
use overgent.Hooks.Binding.{
  wanted, expected, install, install_event, install_events, withdraw_event,
}
use overgent.Hooks.Tables.{
  groups_at, groups_at-set_member, groups_at-put_kept_ne, is_event, read-write,
}
use overgent.Hooks.Repeated.{Scan-cases, scan_groups-foreign}
use overgent.Hooks.Foreign.{foreign_of, foreign_in, foreign_of-expected}
use overgent.Hooks.Installed.{wanted-command, install_event-other}
use overgent.Hooks.Again.{
  withdraw_event-again, groups_at-same, install_events-other, install_events-settles,
  install_events-settled,
}
use overgent.Prelude.{
  ℕ, String, ◌≡◌, refl, sym, ap, ◌∙◌, inl, inr, true, false, ◌&&◌, List, [], ◌∷◌, ◌++◌, arith,
  str_eq, if◌then◌else◌, str_eq→eq, Bool-cases, Result, ok, Result-cases,
}

-- The first pass of Install on the events of the file.
abbrev pub withdrawn_first :
    List ℕ → List ℕ → List (String × Raw) → Result HookError (List (String × Raw))
withdrawn_first os c hooks =
    if is_codex c then withdraw_event os c "PostToolUseFailure" hooks else ok hooks

pub withdraw_event-other :
    (os c : List ℕ) (f e : String) (hooks out : List (String × Raw))
    → str_eq f e ≡ false
    → withdraw_event os c f hooks ≡ ok out
    → groups_at e out ≡ groups_at e hooks
unfolding withdraw_event
withdraw_event-other os c f e hooks out n h =
    elim (Result-cases (groups_for f (value_of f hooks))) [
      | inl (gs, k) ↦ elim (Result-cases (drop_managed c gs)) [
        | inl (rest, j) ↦
            let z : put_kept f rest hooks ≡ out = cc (rw (k, j) at h) in
            rw (sym z) (groups_at-put_kept_ne e f rest hooks n)
        | inr (x, j) ↦ cc (rw (k, j) at h)
      ]
      | inr (x, k) ↦ cc (rw k at h)
    ]

failure_elsewhere :
    (c : List ℕ) → is_codex c ≡ true → is_event "PostToolUseFailure" (configured_events c) ≡ false
unfolding configured_events is_event
failure_elsewhere c h = rw h refl

module _ (os c : List ℕ) where
  pub install-parts :
      (file : File) (doc : Document)
      → install os file c ≡ ok doc
      → (d : Document) × (hooks : List (String × Raw)) × (between : List (String × Raw))
        × (out : List (String × Raw)) × (read file ≡ ok (d, hooks))
        × (withdrawn_first os c hooks ≡ ok between)
        × (install_events os c (configured_events c) between ≡ ok out)
        × (doc ≡ write d out)
  unfolding install
  install-parts file doc h = elim (Result-cases (read file)) [
    | inl ((d, hooks), k) ↦ elim (Result-cases (withdrawn_first os c hooks)) [
      | inl (between, p) ↦ elim (Result-cases (install_events os c (configured_events c) between)) [
        | inl (out, q) ↦ (d, hooks, between, out, k, p, q, cc (rw (k, p, q) at h))
        | inr (x, q) ↦ cc (rw (k, p, q) at h)
      ]
      | inr (x, p) ↦ cc (rw (k, p) at h)
    ]
    | inr (x, k) ↦ cc (rw k at h)
  ]

  withdrawn_first-again :
      (hooks between out : List (String × Raw))
      → withdrawn_first os c hooks ≡ ok between
      → install_events os c (configured_events c) between ≡ ok out
      → withdrawn_first os c out ≡ ok out
  withdrawn_first-again hooks between out p q = elim (Bool-cases (is_codex c)) [
    | inl k ↦ rw k (
        withdraw_event-again os c "PostToolUseFailure" hooks between out (rw k at p) (
          install_events-other os c (configured_events c) between out "PostToolUseFailure"
            (failure_elsewhere c k) q))
    | inr k ↦ rw k refl
  ]

  write-write : (d : Document) (out : List (String × Raw)) → write (write d out) out ≡ write d out
  unfolding write
  write-write d [] = refl
  write-write d (h ∷ hs) = refl

  -- Installing a managed command again where it has just been installed succeeds and gives the same
  -- settings file, whatever the file held before.
  pub install-install :
      (file : File) (doc : Document)
      → managed c ≡ true
      → install os file c ≡ ok doc
      → install os (document doc) c ≡ ok doc
  unfolding install
  install-install file doc m h =
      let (d, hooks, between, out, k, p, q, shape) = install-parts file doc h in
      rw
        (
          shape,
          read-write d out,
          withdrawn_first-again hooks between out p q,
          install_events-settled os c (configured_events c) out
              (λ e i. install_events-settles os c (configured_events c) between out e m q i),
        )
        (ap ok (write-write d out))

  install_event-foreign :
      (e : String) (hooks out : List (String × Raw))
      → managed c ≡ true
      → install_event os c e hooks ≡ ok out
      → (groups_at e out >>= (λ gs. ok (foreign_of gs)))
        ≡ (groups_at e hooks >>= (λ gs. ok (foreign_of gs)))
  unfolding install_event groups_at
  install_event-foreign e hooks out m h =
      let w = wanted os e c in
      elim (Result-cases (groups_for e (value_of e hooks))) [
        | inl (gs, k) ↦ elim (Scan-cases (scan_groups c w gs)) [
          | inl a ↦
              let z : set_member e (marshal (gs ++ expected os e c ∷ [])) hooks ≡ out =
                cc (rw (k, a) at h) in
              rw (sym z, groups_at-set_member e (gs ++ expected os e c ∷ []) hooks, k)
                (ap ok (foreign_of-expected os c e gs m))
          | inr (inl a) ↦ let z : hooks ≡ out = cc (rw (k, a) at h) in rw (sym z) refl
          | inr (inr (inl (gs', a))) ↦
              let z : set_member e (marshal gs') hooks ≡ out = cc (rw (k, a) at h) in
              rw (sym z, groups_at-set_member e gs' hooks, k)
                (ap ok (scan_groups-foreign c w gs gs' (rw (wanted-command os c e) m) a))
          | inr (inr (inr a)) ↦ cc (rw (k, a) at h)
        ]
        | inr (x, k) ↦ cc (rw k at h)
      ]

  install_events-foreign :
      (es : List String) (e : String) (hooks out : List (String × Raw))
      → managed c ≡ true
      → install_events os c es hooks ≡ ok out
      → (groups_at e out >>= (λ gs. ok (foreign_of gs)))
        ≡ (groups_at e hooks >>= (λ gs. ok (foreign_of gs)))
  unfolding install_events
  install_events-foreign [] e hooks out m h = let z : hooks ≡ out = cc h in rw (sym z) refl
  install_events-foreign (f ∷ es) e hooks out m h =
      elim (Result-cases (install_event os c f hooks)) [
        | inl (hooks', k) ↦
            install_events-foreign es e hooks' out m (rw k at h) ∙ elim (Bool-cases (str_eq f e)) [
              | inl s ↦
                  subst
                    (λ x.
                      (groups_at x hooks' >>= (λ gs. ok (foreign_of gs)))
                      ≡ (groups_at x hooks >>= (λ gs. ok (foreign_of gs))))
                    (str_eq→eq f e s) (install_event-foreign f hooks hooks' m k)
              | inr s ↦
                  ap (λ r. r >>= (λ gs. ok (foreign_of gs)))
                    (groups_at-same e hooks' hooks (install_event-other os c f hooks hooks' e k s))
            ]
        | inr (x, k) ↦ cc (rw k at h)
      ]

  withdrawn_first-other :
      (hooks between : List (String × Raw)) (e : String)
      → (is_codex c && str_eq "PostToolUseFailure" e) ≡ false
      → withdrawn_first os c hooks ≡ ok between
      → groups_at e between ≡ groups_at e hooks
  withdrawn_first-other hooks between e n h = elim (Bool-cases (is_codex c)) [
    | inl k ↦
        withdraw_event-other os c "PostToolUseFailure" e hooks between (ground (arith, n, k))
          (rw k at h)
    | inr k ↦ let z : hooks ≡ between = cc (rw k at h) in rw (sym z) refl
  ]

  -- An installation that succeeded leaves an event the handlers that no Overgent command runs, with
  -- their matchers and in their order, except that of the one event that Codex does not have.
  pub install-foreign :
      (file : File) (doc : Document) (e : String)
      → managed c ≡ true
      → install os file c ≡ ok doc
      → (is_codex c && str_eq "PostToolUseFailure" e) ≡ false
      → foreign_in (document doc) e ≡ foreign_in file e
  unfolding foreign_in
  install-foreign file doc e m h n =
      let (d, hooks, between, out, k, p, q, shape) = install-parts file doc h in
      rw (shape, read-write d out, k, sym (withdrawn_first-other hooks between e n p))
        (install_events-foreign (configured_events c) e between out m q)
