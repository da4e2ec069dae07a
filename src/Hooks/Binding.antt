-- ===== src/Hooks/Binding.antt =====
-- internal/hookconfig/hooks.go: Install, Inspect, Rebind and Remove.
use overgent.Hooks.Groups.{
  is_codex, configured_events, is_managed, command_vendor, managed_for_vendor, takes_tool,
  is_boundary, same_handler, Scan, absent, kept, repaired, foreign, scan_groups, drop_managed,
  strip_events,
}
use overgent.Prelude.Bytes.{ascii, same}
use overgent.Hooks.Settings.{
  Handler, Group, Raw, Document, File, HookError, drifted, conflicting, invalid_command,
  not_configured, current, partial, other_profile, Inspection, read, write, value_of, set_member,
  groups_for, marshal, put_kept,
}
use overgent.Prelude.Outcomes.{◌>>=◌}
use overgent.Prelude.{
  ℕ, String, ◌&&◌, not, List, [], ◌∷◌, ◌++◌, str_eq, ◌==◌, if◌then◌else◌, length, Result, ok, err,
}

-- The commands and the events that Inspect has found, each once.
pub record Found : Type 0 where
  pub commands : List (List ℕ)
  pub present : List String

unfoldable pub add_command : List ℕ → List (List ℕ) → List (List ℕ)
add_command c [] = c ∷ []
add_command c (d ∷ ds) = let rest = add_command c ds in if same d c then d ∷ ds else d ∷ rest

unfoldable pub add_event : String → List String → List String
add_event e [] = e ∷ []
add_event e (d ∷ ds) = let rest = add_event e ds in if str_eq d e then d ∷ ds else d ∷ rest

abbrev pub known_vendor : List ℕ → Result HookError (List ℕ)
known_vendor command =
    if same (command_vendor command) [] then err invalid_command else ok (command_vendor command)

-- `hook_os` is hookOS, the platform whose command form is written.
module _ (hook_os : List ℕ) where
  -- The one handler of `expected(event, command)`, and its group.
  unfoldable pub wanted : String → List ℕ → Handler
  wanted event command = record {
    kind = "command";
    command = command;
    async = not (str_eq event "SessionEnd") && not (is_boundary event);
    timeout =
        (if str_eq event "SessionEnd" && same (command_vendor command) (ascii "codex")
          then 3
          else (if is_boundary event then 2 else 5));
    shell =
        (if same hook_os (ascii "windows") && same (command_vendor command) (ascii "claude")
          then "powershell"
          else "");
  }

  unfoldable pub expected : String → List ℕ → Group
  expected event command = record {
    matcher = (if takes_tool event then "*" else "");
    hooks = wanted event command ∷ [];
  }

  abbrev pub install_scan :
      String
      → List ℕ
      → List Group
      → Scan (List Group)
      → List (String × Raw)
      → Result HookError (List (String × Raw))
  install_scan event command gs absent hooks =
      ok (set_member event (marshal (gs ++ expected event command ∷ [])) hooks)
  install_scan event command gs kept hooks = ok hooks
  install_scan event command gs (repaired gs') hooks = ok (set_member event (marshal gs') hooks)
  install_scan event command gs foreign hooks = err drifted

  unfoldable pub install_event :
      List ℕ → String → List (String × Raw) → Result HookError (List (String × Raw))
  install_event command event hooks = do
    gs ← groups_for event (value_of event hooks)
    install_scan event command gs (scan_groups command (wanted event command) gs) hooks

  unfoldable pub install_events :
      List ℕ → List String → List (String × Raw) → Result HookError (List (String × Raw))
  install_events command [] hooks = ok hooks
  install_events command (event ∷ more) hooks = do
    hooks' ← install_event command event hooks
    install_events command more hooks'

  -- The first pass of Install, for a Codex command: the event that Codex does not have.
  unfoldable pub withdraw_event :
      List ℕ → String → List (String × Raw) → Result HookError (List (String × Raw))
  withdraw_event command event hooks = do
    gs ← groups_for event (value_of event hooks)
    left ← drop_managed command gs
    ok (put_kept event left hooks)

  unfoldable pub install : File → List ℕ → Result HookError Document
  install file command = do
    (d, hooks) ← read file
    hooks' ←
        (if is_codex command then withdraw_event command "PostToolUseFailure" hooks else ok hooks)
    hooks'' ← install_events command (configured_events command) hooks'
    ok (write d hooks'')

  unfoldable pub remove_events :
      List ℕ → List String → List (String × Raw) → Result HookError (List (String × Raw))
  remove_events command [] hooks = ok hooks
  remove_events command (event ∷ more) hooks = do
    hooks' ← withdraw_event command event hooks
    remove_events command more hooks'

  -- Remove
  unfoldable pub remove : File → List ℕ → Result HookError Document
  remove file command = do
    (d, hooks) ← read file
    hooks' ← remove_events command (configured_events command) hooks
    ok (write d hooks')

  unfoldable pub inspect_handler : String → List ℕ → Found → Handler → Result HookError Found
  inspect_handler event vendor found h =
      if is_managed h
      then (if not (managed_for_vendor h.command vendor)
          then err drifted
          else ok (record {
            commands = add_command h.command found.commands;
            present =
                (if same_handler h (wanted event h.command)
                  then add_event event found.present
                  else found.present);
          }))
      else ok found

  unfoldable pub inspect_handlers : String → List ℕ → List Handler → Found → Result HookError Found
  inspect_handlers event vendor [] found = ok found
  inspect_handlers event vendor (h ∷ hs) found = do
    found' ← inspect_handler event vendor found h
    inspect_handlers event vendor hs found'

  unfoldable pub inspect_groups : String → List ℕ → List Group → Found → Result HookError Found
  inspect_groups event vendor [] found = ok found
  inspect_groups event vendor (g ∷ gs) found = do
    found' ← inspect_handlers event vendor g.hooks found
    inspect_groups event vendor gs found'

  unfoldable pub inspect_events :
      List ℕ → List String → List (String × Raw) → Found → Result HookError Found
  inspect_events vendor [] hooks found = ok found
  inspect_events vendor (event ∷ more) hooks found = do
    gs ← groups_for event (value_of event hooks)
    found' ← inspect_groups event vendor gs found
    inspect_events vendor more hooks found'

  abbrev pub verdict : List ℕ → List (List ℕ) → ℕ → Result HookError Inspection
  verdict command [] present = ok (record { state = not_configured; existing_command = [] })
  verdict command (existing ∷ []) present = ok (record {
    state =
        (if not (same existing command)
          then other_profile
          else (if not (present == length (configured_events command)) then partial else current));
    existing_command = existing;
  })
  verdict command (existing ∷ another ∷ more) present = err conflicting

  -- Inspect
  unfoldable pub inspect : File → List ℕ → Result HookError Inspection
  inspect file command = do
    (d, hooks) ← read file
    vendor ← known_vendor command
    found ←
        inspect_events vendor (configured_events command) hooks
          (record { commands = []; present = [] })
    verdict command found.commands (length found.present)

  -- Rebind's second pass
  unfoldable pub append_events :
      List ℕ → List String → List (String × Raw) → Result HookError (List (String × Raw))
  append_events command [] hooks = ok hooks
  append_events command (event ∷ more) hooks = do
    gs ← groups_for event (value_of event hooks)
    append_events command more
        (set_member event (marshal (gs ++ expected event command ∷ [])) hooks)

  -- Rebind; every state that Inspect answers is one that it supports.
  unfoldable pub rebind : File → List ℕ → Result HookError Document
  rebind file command = do
    (d, hooks) ← read file
    vendor ← known_vendor command
    inspection ← inspect file command
    stripped ← strip_events vendor hooks
    hooks' ← append_events command (configured_events command) stripped
    ok (write d hooks')
