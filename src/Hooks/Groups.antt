-- ===== src/Hooks/Groups.antt =====
-- internal/hookconfig/hooks.go: the managed handlers among the hook groups of one event.
use overgent.Prelude.Bytes.{ascii, same, contains, ends, trim_suffix, contains_any}
use overgent.Hooks.Command.{vendor_marker, parse_prefix, is_absolute_path, Binding}
use overgent.Hooks.Settings.{Handler, Group, Raw, HookError, drifted, groups_for, marshal}
use overgent.Prelude.Outcomes.{◌>>=◌}
use overgent.Prelude.{
  ℕ, String, Bool, true, false, ◌&&◌, ◌||◌, not, Option, none, some, List, [], ◌∷◌, ◌++◌, str_eq,
  ◌==◌, if◌then◌else◌, Result, ok, err,
}

-- claudeEvents and codexEvents
abbrev pub claude_events : List String
claude_events =
    "SessionStart" ∷ "UserPromptSubmit" ∷ "PreToolUse" ∷ "PermissionRequest" ∷ "PostToolUse"
    ∷ "PostToolUseFailure" ∷ "SubagentStart" ∷ "SubagentStop" ∷ "Stop" ∷ "SessionEnd" ∷ []

abbrev pub codex_events : List String
codex_events =
    "SessionStart" ∷ "UserPromptSubmit" ∷ "PreToolUse" ∷ "PermissionRequest" ∷ "PostToolUse"
    ∷ "SubagentStart" ∷ "SubagentStop" ∷ "Stop" ∷ "SessionEnd" ∷ []

unfoldable pub is_codex : List ℕ → Bool
is_codex command = ends (ascii "--vendor codex") command

unfoldable pub configured_events : List ℕ → List String
configured_events command = if is_codex command then codex_events else claude_events

unfoldable pub managed : List ℕ → Bool
managed command = contains vendor_marker command

abbrev pub is_managed : Handler → Bool
is_managed h = managed h.command

unfoldable pub command_vendor : List ℕ → List ℕ
command_vendor command =
    if ends (vendor_marker ++ ascii "codex") command
    then ascii "codex"
    else (if ends (vendor_marker ++ ascii "claude") command then ascii "claude" else [])

abbrev pub is_ours : Option Binding → Bool
is_ours none = false
is_ours (some b) =
    (same b.executable (ascii "overgent") && same b.config_root [])
    || (is_absolute_path b.executable && is_absolute_path b.config_root)

unfoldable pub managed_for_vendor : List ℕ → List ℕ → Bool
managed_for_vendor command vendor =
    if not (same (command_vendor command) vendor) || contains_any (13 ∷ 10 ∷ 0 ∷ []) command
    then false
    else is_ours (parse_prefix (trim_suffix (vendor_marker ++ vendor) command))

abbrev pub takes_tool : String → Bool
takes_tool event =
    str_eq event "PreToolUse"
    || str_eq event "PermissionRequest"
    || str_eq event "PostToolUse"
    || str_eq event "PostToolUseFailure"

abbrev pub is_boundary : String → Bool
is_boundary event = str_eq event "SessionStart" || str_eq event "UserPromptSubmit"

-- `candidate == wanted`
unfoldable pub same_handler : Handler → Handler → Bool
same_handler a b =
    str_eq a.kind b.kind
    && same a.command b.command
    && (if a.async then b.async else not b.async)
    && a.timeout == b.timeout
    && str_eq a.shell b.shell

-- What a look at the handlers of an event finds: no managed handler, ours as it is wanted, ours
-- after its repair, or another command's.
pub data Scan {ℓ} (A : Type ℓ) : Type ℓ where
  absent : Scan A
  kept : Scan A
  repaired : A → Scan A
  foreign : Scan A

abbrev pub scan_map {ℓ κ} : {A : Type ℓ} {B : Type κ} → (A → B) → Scan A → Scan B
scan_map f absent = absent
scan_map f kept = kept
scan_map f (repaired a) = repaired (f a)
scan_map f foreign = foreign

unfoldable pub scan_handlers : List ℕ → Handler → List Handler → Scan (List Handler)
scan_handlers command wanted [] = absent
scan_handlers command wanted (h ∷ hs) =
    let rest = scan_handlers command wanted hs in
    if is_managed h
    then (if not (same h.command command)
        then foreign
        else (if same_handler h wanted then kept else repaired (wanted ∷ hs)))
    else scan_map (λ more. h ∷ more) rest

abbrev pub scan_next :
    Group → List Group → Scan (List Group) → Scan (List Handler) → Scan (List Group)
scan_next g gs rest absent = scan_map (λ more. g ∷ more) rest
scan_next g gs rest kept = kept
scan_next g gs rest (repaired hs) = repaired (record g { hooks = hs } ∷ gs)
scan_next g gs rest foreign = foreign

unfoldable pub scan_groups : List ℕ → Handler → List Group → Scan (List Group)
scan_groups command wanted [] = absent
scan_groups command wanted (g ∷ gs) =
    scan_next g gs (scan_groups command wanted gs) (scan_handlers command wanted g.hooks)

-- Whether a group holds the managed command, and the error when it holds another managed one.
unfoldable pub holds_managed : List ℕ → List Handler → Result HookError Bool
holds_managed command [] = ok false
holds_managed command (h ∷ hs) =
    let rest = holds_managed command hs in
    if is_managed h
    then (if not (same h.command command) then err drifted else (rest >>= (λ b. ok true)))
    else rest

-- The groups that do not hold the managed command.
unfoldable pub drop_managed : List ℕ → List Group → Result HookError (List Group)
drop_managed command [] = ok []
drop_managed command (g ∷ gs) = do
  removes ← holds_managed command g.hooks
  rest ← drop_managed command gs
  ok (if removes then rest else g ∷ rest)

-- The handlers that no Overgent command runs; a managed one of another vendor is an error.
unfoldable pub strip_handlers : List ℕ → List Handler → Result HookError (List Handler)
strip_handlers vendor [] = ok []
strip_handlers vendor (h ∷ hs) =
    let rest = strip_handlers vendor hs in
    if is_managed h
    then (if not (managed_for_vendor h.command vendor) then err drifted else rest)
    else (rest >>= (λ more. ok (h ∷ more)))

abbrev pub put_group : Group → List Handler → List Group → List Group
put_group g [] gs = gs
put_group g (h ∷ hs) gs = record g { hooks = h ∷ hs } ∷ gs

unfoldable pub strip_groups : List ℕ → List Group → Result HookError (List Group)
strip_groups vendor [] = ok []
strip_groups vendor (g ∷ gs) = do
  handlers ← strip_handlers vendor g.hooks
  rest ← strip_groups vendor gs
  ok (put_group g handlers rest)

abbrev pub put_event : String → List Group → List (String × Raw) → List (String × Raw)
put_event event [] rest = rest
put_event event (g ∷ gs) rest = (event, marshal (g ∷ gs)) ∷ rest

-- Rebind's first pass, over every event of the file.
unfoldable pub strip_events : List ℕ → List (String × Raw) → Result HookError (List (String × Raw))
strip_events vendor [] = ok []
strip_events vendor ((event, raw) ∷ more) = do
  gs ← groups_for event (some raw)
  stripped ← strip_groups vendor gs
  rest ← strip_events vendor more
  ok (put_event event stripped rest)
