-- ===== src/Hooks/Rebound.antt =====
-- hooks.go, Rebind: after it the file is bound to the command, and the foreign handlers are as they were.
use overgent.Hooks.Command.{vendor_marker}
use overgent.Hooks.Delimiters.{begins_self}
use overgent.Prelude.Bytes.{same, ascii, ends, contains, begins, same→eq}
use overgent.Prelude.Outcomes.{◌>>=◌}
use mathlib.Core.Path.{subst}
use overgent.Hooks.Settings.{Raw, Document, File, document, read, write, current}
use overgent.Hooks.Groups.{
  managed, strip_events, is_codex, configured_events, command_vendor, managed_for_vendor,
  codex_events, claude_events,
}
use overgent.Hooks.Binding.{append_events, inspect, inspect_events, rebind}
use overgent.Hooks.Tables.{is_event, are_distinct, read-write}
use overgent.Hooks.Reads.{same_self, IsBound, inspect-bound}
use overgent.Hooks.Bare.{append_events-at}
use overgent.Hooks.Stripped.{strip_events-bare}
use overgent.Prelude.{
  ℕ, ◌-◌, String, ◌≡◌, refl, sym, ap, ◌∙◌, inl, inr, true, false, List, [], ◌∷◌, ◌++◌, arith,
  Bool-cases, length, take, drop, take-append-drop, ok, Result-cases,
}

contains-begins : (m s : List ℕ) → begins m s ≡ true → contains m s ≡ true
unfolding contains
contains-begins m [] h = h
contains-begins m (c ∷ s) h = ground (arith, h)

contains-middle : (m t v : List ℕ) → contains m (t ++ (m ++ v)) ≡ true
unfolding contains
contains-middle m [] v = contains-begins m (m ++ v) (begins_self m v)
contains-middle m (c ∷ t) v = ground (arith, contains-middle m t v)

ends-contains : (m v s : List ℕ) → ends (m ++ v) s ≡ true → contains m s ≡ true
unfolding ends
ends-contains m v s h =
    let n = length s - length (m ++ v) in
    let tail : m ++ v ≡ drop n s = same→eq (m ++ v) (drop n s) (ground (arith, h)) in
    subst (λ x. contains m x ≡ true) (ap (λ r. take n s ++ r) tail ∙ take-append-drop n s)
      (contains-middle m (take n s) v)

-- A command of a known vendor is a managed one.
pub vendor_managed : (c : List ℕ) → same (command_vendor c) [] ≡ false → managed c ≡ true
unfolding command_vendor managed same
vendor_managed c h = elim (Bool-cases (ends (vendor_marker ++ ascii "codex") c)) [
  | inl a ↦ ends-contains vendor_marker (ascii "codex") c a
  | inr a ↦ elim (Bool-cases (ends (vendor_marker ++ ascii "claude") c)) [
    | inl b ↦ ends-contains vendor_marker (ascii "claude") c b
    | inr b ↦ cc (rw (a, b) at h)
  ]
]

pub configured-distinct : (c : List ℕ) → are_distinct (configured_events c) ≡ true
unfolding are_distinct configured_events is_event
configured-distinct c = elim (Bool-cases (is_codex c)) [ inl k ↦ rw k refl | inr k ↦ rw k refl ]

configured-cons : (c : List ℕ) → (e : String) × (es : List String) × (configured_events c ≡ e ∷ es)
unfolding configured_events
configured-cons c = elim (Bool-cases (is_codex c)) [
  | inl k ↦ ("SessionStart", drop 1 codex_events, rw k refl)
  | inr k ↦ ("SessionStart", drop 1 claude_events, rw k refl)
]

module _ (os c : List ℕ) where
  -- A file whose configured events are bound is read as current.
  pub inspect_file-bound :
      (d : Document) (hooks : List (String × Raw))
      → same (command_vendor c) [] ≡ false
      → managed_for_vendor c (command_vendor c) ≡ true
      → ((e : String)
          → is_event e (configured_events c) ≡ true
          → IsBound os c (command_vendor c) e hooks)
      → inspect os (document (write d hooks)) c
        ≡ ok (record { state = current; existing_command = c })
  unfolding inspect
  inspect_file-bound d hooks k v b =
      let (e, es, shape) = configured-cons c in
      let found : inspect_events os (command_vendor c) (configured_events c) hooks
            (record { commands = []; present = [] })
          ≡ ok (record { commands = c ∷ []; present = configured_events c }) =
        subst
          (λ x.
            are_distinct x ≡ true
            → ((y : String) → is_event y x ≡ true → IsBound os c (command_vendor c) y hooks)
            → inspect_events os (command_vendor c) x hooks (record { commands = []; present = [] })
              ≡ ok (record { commands = c ∷ []; present = x }))
          (sym shape) (inspect-bound os c (command_vendor c) e es hooks (vendor_managed c k) v)
          (configured-distinct c) b in
      rw (read-write d hooks, k, found, same_self c) (ground arith)

  rebind-passes :
      (file : File) (d : Document) (hooks : List (String × Raw)) (doc : Document)
      → (inspect os file c >>= (λ inspection. strip_events (command_vendor c) hooks >>= (λ stripped.
          append_events os c (configured_events c) stripped >>= (λ out. ok (write d out)))))
        ≡ ok doc
      → (stripped : List (String × Raw)) × (out : List (String × Raw)) × (strip_events
            (command_vendor c)
            hooks
          ≡ ok stripped)
        × (append_events os c (configured_events c) stripped ≡ ok out)
        × (doc ≡ write d out)
  rebind-passes file d hooks doc h = elim (Result-cases (inspect os file c)) [
    | inl (i, k) ↦ elim (Result-cases (strip_events (command_vendor c) hooks)) [
      | inl (stripped, p) ↦
          elim (Result-cases (append_events os c (configured_events c) stripped)) [
            | inl (out, q) ↦ (stripped, out, p, q, cc (rw (k, p, q) at h))
            | inr (x, q) ↦ cc (rw (k, p, q) at h)
          ]
      | inr (x, p) ↦ cc (rw (k, p) at h)
    ]
    | inr (x, k) ↦ cc (rw k at h)
  ]

  pub rebind-parts :
      (file : File) (doc : Document)
      → rebind os file c ≡ ok doc
      → (d : Document) × (hooks : List (String × Raw)) × (stripped : List (String × Raw))
        × (out : List (String × Raw)) × (read file ≡ ok (d, hooks))
        × (same (command_vendor c) [] ≡ false)
        × (strip_events (command_vendor c) hooks ≡ ok stripped)
        × (append_events os c (configured_events c) stripped ≡ ok out)
        × (doc ≡ write d out)
  unfolding rebind
  rebind-parts file doc h = elim (Result-cases (read file)) [
    | inl ((d, hooks), k) ↦ elim (Bool-cases (same (command_vendor c) [])) [
      | inl n ↦ cc (rw (k, n) at h)
      | inr n ↦
          let (stripped, out, p, q, shape) = rebind-passes file d hooks doc (rw (k, n) at h) in
          (d, hooks, stripped, out, k, n, p, q, shape)
    ]
    | inr (x, k) ↦ cc (rw k at h)
  ]

  -- After a rebind that succeeded, Inspect reads the file as bound to exactly the command, all its
  -- events configured, whatever commands of that vendor it was bound to before.
  pub rebind-inspect :
      (file : File) (doc : Document)
      → managed_for_vendor c (command_vendor c) ≡ true
      → rebind os file c ≡ ok doc
      → inspect os (document doc) c ≡ ok (record { state = current; existing_command = c })
  unfolding IsBound
  rebind-inspect file doc v h =
      let (d, hooks, stripped, out, k, n, p, q, shape) = rebind-parts file doc h in
      rw shape (
        inspect_file-bound d out n v (λ e m.
          let (gs, at, bare) = strip_events-bare (command_vendor c) hooks stripped e p in
          (
            gs,
            append_events-at os c (configured_events c) e stripped out gs (configured-distinct c) m
                q at,
            bare,
          )))
