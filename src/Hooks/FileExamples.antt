-- ===== src/Hooks/FileExamples.antt =====
-- Settings files that Install, Rebind and Remove of internal/hookconfig change.
use overgent.Hooks.Groups.{command_vendor, managed_for_vendor}
use overgent.Prelude.{
  not, ℕ, String, ◌≡◌, refl, true, false, ◌||◌, none, some, List, [], ◌∷◌, str_eq, Result, ok, err,
}
use overgent.Hooks.Settings.{
  WrittenHandler, Raw, groups, events, Document, document, HookError, current, Permissions, strings,
  permissions, read,
}
use overgent.Hooks.Grants.{allow_tools, disallow_tools, allowed_in, grant, disallow_tools-allow}
use overgent.Prelude.Tables.{any, select}
use overgent.Hooks.Binding.{install, remove, rebind, inspect}
use overgent.Hooks.Foreign.{foreign_in}
use overgent.Hooks.Rebound.{rebind-inspect}
use overgent.Hooks.Kept.{rebind-foreign}
use overgent.Hooks.Installation.{install-install, install-foreign}
use overgent.Hooks.Undone.{remove-install, event_in}
use overgent.Prelude.Bytes.{ascii}

abbrev ours : List ℕ
ours = ascii "'overgent' agent-hook --vendor claude"

abbrev theirs : List ℕ
theirs = ascii "'/o/overgent' --config-root '/p' agent-hook --vendor claude"

abbrev run : List ℕ → WrittenHandler
run command = record {
  handler = record { kind = "command"; command = command; async = false; timeout = 9; shell = "" };
  others = [];
}

abbrev lint : Raw
lint = groups (record { matcher = "*"; hooks = run (ascii "lint") ∷ []; others = [] } ∷ [])

abbrev mixed : Raw
mixed =
    groups
      (record { matcher = "*"; hooks = run (ascii "lint") ∷ run theirs ∷ []; others = [] } ∷ [])

abbrev plain_document : Document
plain_document = record { hooks = some (events (("Stop", lint) ∷ [])); granted = none; others = [] }

abbrev bound_document : Document
bound_document = record {
  hooks = some (events (("Stop", mixed) ∷ []));
  granted = none;
  others = [];
}

abbrev or_plain : Result HookError Document → Document
or_plain (ok d) = d
or_plain (err x) = plain_document

abbrev linux : List ℕ
linux = ascii "linux"

ours_is_managed : managed_for_vendor ours (command_vendor ours) ≡ true
unfolding overgent.Hooks.Groups.managed_for_vendor overgent.Prelude.Bytes.same
    overgent.Hooks.Groups.command_vendor overgent.Prelude.Bytes.ends
    overgent.Prelude.Bytes.contains_any overgent.Hooks.Command.parse_prefix
    overgent.Prelude.Bytes.trim_suffix overgent.Prelude.Bytes.byte_at overgent.Prelude.Bytes.index
    overgent.Hooks.Command.unquote_argument overgent.Prelude.Bytes.contains
    overgent.Prelude.Bytes.replace_all overgent.Prelude.Bytes.begins
    overgent.Prelude.Bytes.contains_byte overgent.Prelude.Bytes.repeat
    overgent.Prelude.Bytes.replace_from overgent.Prelude.Bytes.split
    overgent.Prelude.Bytes.trim_prefix overgent.Hooks.Command.is_absolute_path
    overgent.Hooks.Command.trailing_backslashes overgent.Hooks.Command.unescape
    overgent.Hooks.Command.windows_absolute
ours_is_managed = refl

rebind_runs :
    rebind linux (document bound_document) ours
    ≡ ok (or_plain (rebind linux (document bound_document) ours))
unfolding overgent.Hooks.Groups.managed_for_vendor overgent.Prelude.Bytes.same
    overgent.Hooks.Groups.command_vendor overgent.Prelude.Bytes.ends
    overgent.Prelude.Bytes.contains_any overgent.Hooks.Command.parse_prefix
    overgent.Prelude.Bytes.trim_suffix overgent.Prelude.Bytes.byte_at overgent.Prelude.Bytes.index
    overgent.Hooks.Command.unquote_argument overgent.Prelude.Bytes.contains
    overgent.Prelude.Bytes.replace_all rebind overgent.Hooks.Settings.read inspect
    overgent.Hooks.Binding.inspect_events overgent.Hooks.Groups.configured_events
    overgent.Hooks.Binding.add_command overgent.Hooks.Binding.add_event
    overgent.Hooks.Binding.append_events overgent.Hooks.Binding.expected
    overgent.Hooks.Binding.inspect_groups overgent.Hooks.Binding.inspect_handler
    overgent.Hooks.Binding.inspect_handlers overgent.Hooks.Binding.wanted
    overgent.Prelude.Bytes.begins overgent.Prelude.Bytes.contains_byte overgent.Prelude.Bytes.repeat
    overgent.Prelude.Bytes.replace_from overgent.Prelude.Bytes.split
    overgent.Prelude.Bytes.trim_prefix overgent.Hooks.Command.is_absolute_path
    overgent.Hooks.Command.trailing_backslashes overgent.Hooks.Command.unescape
    overgent.Hooks.Command.windows_absolute overgent.Hooks.Groups.is_codex
    overgent.Hooks.Groups.managed overgent.Hooks.Groups.same_handler
    overgent.Hooks.Groups.strip_events overgent.Hooks.Groups.strip_groups
    overgent.Hooks.Groups.strip_handlers overgent.Hooks.Settings.groups_for
    overgent.Hooks.Settings.set_member overgent.Hooks.Settings.value_of
    overgent.Hooks.Settings.marshal overgent.Hooks.Settings.write
rebind_runs = refl

rebind-inspect_example :
    inspect linux (document (or_plain (rebind linux (document bound_document) ours))) ours
    ≡ ok (record { state = current; existing_command = ours })
rebind-inspect_example =
    rebind-inspect linux ours (document bound_document)
      (or_plain (rebind linux (document bound_document) ours)) ours_is_managed rebind_runs

rebind-foreign_example :
    foreign_in (document (or_plain (rebind linux (document bound_document) ours))) "Stop"
    ≡ foreign_in (document bound_document) "Stop"
unfolding overgent.Hooks.Settings.read overgent.Hooks.Tables.are_distinct
    overgent.Hooks.Tables.is_event
rebind-foreign_example =
    rebind-foreign linux ours (document bound_document)
      (or_plain (rebind linux (document bound_document) ours)) bound_document (("Stop", mixed) ∷ [])
      "Stop" refl refl rebind_runs

install-install_example :
    install linux (document (or_plain (install linux (document plain_document) ours))) ours
    ≡ ok (or_plain (install linux (document plain_document) ours))
unfolding overgent.Hooks.Groups.managed overgent.Prelude.Bytes.contains install
    overgent.Hooks.Settings.read overgent.Hooks.Groups.is_codex overgent.Prelude.Bytes.ends
    overgent.Hooks.Binding.install_events overgent.Hooks.Groups.configured_events
    overgent.Hooks.Binding.install_event overgent.Hooks.Settings.groups_for
    overgent.Hooks.Settings.value_of overgent.Hooks.Groups.scan_groups
    overgent.Hooks.Settings.set_member overgent.Hooks.Groups.scan_handlers
install-install_example =
    install-install linux ours (document plain_document)
      (or_plain (install linux (document plain_document) ours)) refl refl

install-foreign_example :
    foreign_in (document (or_plain (install linux (document plain_document) ours))) "Stop"
    ≡ foreign_in (document plain_document) "Stop"
unfolding overgent.Hooks.Groups.managed overgent.Prelude.Bytes.contains install
    overgent.Hooks.Settings.read overgent.Hooks.Groups.is_codex overgent.Prelude.Bytes.ends
    overgent.Hooks.Binding.install_events overgent.Hooks.Groups.configured_events
    overgent.Hooks.Binding.install_event overgent.Hooks.Settings.groups_for
    overgent.Hooks.Settings.value_of overgent.Hooks.Groups.scan_groups
    overgent.Hooks.Settings.set_member overgent.Hooks.Groups.scan_handlers
install-foreign_example =
    install-foreign linux ours (document plain_document)
      (or_plain (install linux (document plain_document) ours)) "Stop" refl refl refl

remove-install_example :
    (installed : Document) × (removed : Document) × (install linux (document plain_document) ours
      ≡ ok installed)
    × (remove linux (document installed) ours ≡ ok removed)
    × ((e : String) → event_in (document removed) e ≡ event_in (document plain_document) e)
unfolding overgent.Hooks.Groups.managed overgent.Prelude.Bytes.contains overgent.Hooks.Settings.read
    overgent.Hooks.Undone.is_bare overgent.Hooks.Bare.any_managed overgent.Hooks.Bare.has_managed
remove-install_example =
    remove-install linux ours (document plain_document) plain_document (("Stop", lint) ∷ []) refl
      refl refl

abbrev bash_only : Permissions
bash_only = record { allow = some (strings ("Bash" ∷ [])); others = ("deny", "[]") ∷ [] }

abbrev granting : Document
granting = record { hooks = none; granted = some (permissions bash_only); others = [] }

abbrev tools : List String
tools = "mcp__overgent__begin_work" ∷ "mcp__overgent__finish_work" ∷ []

disallow_tools-allow_example :
    (wider : Document) × (narrower : Document) × (allow_tools (document granting) tools ≡ ok wider)
    × (disallow_tools (document wider) tools ≡ ok (some narrower))
    × (read (document wider) ≡ ok (wider, []))
    × (read (document narrower) ≡ ok (narrower, []))
    × (allowed_in (document wider) ≡ ok (grant tools ("Bash" ∷ [])))
    × ((t : String)
        → any (str_eq t) (grant tools ("Bash" ∷ []))
          ≡ (any (str_eq t) tools || any (str_eq t) ("Bash" ∷ [])))
    × (allowed_in (document narrower)
        ≡ ok (select (λ entry. not (any (str_eq entry) tools)) ("Bash" ∷ [])))
unfolding read overgent.Hooks.Grants.allow_list
disallow_tools-allow_example =
    disallow_tools-allow (document granting) tools ("Bash" ∷ []) granting bash_only [] refl refl
