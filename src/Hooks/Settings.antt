-- ===== src/Hooks/Settings.antt =====
-- internal/hookconfig/hooks.go: the settings file of a coding agent, and how it is read and written.
use overgent.Prelude.{
  ℕ, String, Bool, Option, none, some, List, [], ◌∷◌, str_eq, if◌then◌else◌, Result, ok, err,
}

-- handler
pub record Handler : Type 0 where
  pub kind : String
  pub command : List ℕ
  pub async : Bool
  pub timeout : ℕ
  pub shell : String

-- group
pub record Group : Type 0 where
  pub matcher : String
  pub hooks : List Handler

-- A handler and a group as the file holds them, with the members that the structs do not name.
pub record WrittenHandler : Type 0 where
  pub handler : Handler
  pub others : List (String × String)

pub record WrittenGroup : Type 0 where
  pub matcher : String
  pub hooks : List WrittenHandler
  pub others : List (String × String)

-- The JSON of one event: an array of groups, or text that json.Unmarshal refuses as one.
pub data Raw : Type 0 where
  groups : List WrittenGroup → Raw
  other : String → Raw

-- The JSON of the member "hooks".
pub data HooksValue : Type 0 where
  events : List (String × Raw) → HooksValue
  not_object : String → HooksValue

-- The JSON of the member "allow" of the permissions, and of the member "permissions" itself.
pub data AllowValue : Type 0 where
  strings : List String → AllowValue
  not_strings : String → AllowValue

pub record Permissions : Type 0 where
  pub allow : Option AllowValue
  pub others : List (String × String)

pub data PermissionsValue : Type 0 where
  permissions : Permissions → PermissionsValue
  no_permissions : String → PermissionsValue

-- The settings document: the members "hooks" and "permissions", and the others with their text.
pub record Document : Type 0 where
  pub hooks : Option HooksValue
  pub granted : Option PermissionsValue
  pub others : List (String × String)

pub data File : Type 0 where
  missing : File
  too_big : File
  not_json : File
  document : Document → File

pub data HookError : Type 0 where
  oversized : HookError
  unparsed : HookError
  hooks_not_object : HookError
  undecoded : String → HookError
  drifted : HookError
  conflicting : HookError
  invalid_command : HookError
  permissions_not_object : HookError
  allow_not_strings : HookError

pub data BindingState : Type 0 where
  not_configured : BindingState
  current : BindingState
  partial : BindingState
  other_profile : BindingState

pub record Inspection : Type 0 where
  pub state : BindingState
  pub existing_command : List ℕ

abbrev pub hooks_of : Option HooksValue → Result HookError (List (String × Raw))
hooks_of none = ok []
hooks_of (some (events es)) = ok es
hooks_of (some (not_object t)) = err hooks_not_object

abbrev pub with_hooks :
    Document
    → Result HookError (List (String × Raw))
    → Result HookError (Document × List (String × Raw))
with_hooks d (ok es) = ok (d, es)
with_hooks d (err e) = err e

unfoldable pub read : File → Result HookError (Document × List (String × Raw))
read missing = ok (record { hooks = none; granted = none; others = [] }, [])
read too_big = err oversized
read not_json = err unparsed
read (document d) = with_hooks d (hooks_of d.hooks)

-- The document that `write` puts in the file's place.
unfoldable pub write : Document → List (String × Raw) → Document
write d [] = record d { hooks = none }
write d (e ∷ es) = record d { hooks = some (events (e ∷ es)) }

-- `hooks[event]`, `hooks[event] = raw` and `delete(hooks, event)`
module _ {ℓ} {V : Type ℓ} where
  unfoldable pub value_of : String → List (String × V) → Option V
  value_of event [] = none
  value_of event ((name, raw) ∷ rest) = if str_eq name event then some raw else value_of event rest

  unfoldable pub set_member : String → V → List (String × V) → List (String × V)
  set_member event new [] = (event, new) ∷ []
  set_member event new ((name, raw) ∷ rest) =
      let later = set_member event new rest in
      if str_eq name event then (name, new) ∷ rest else (name, raw) ∷ later

  unfoldable pub delete_member : String → List (String × V) → List (String × V)
  delete_member event [] = []
  delete_member event ((name, raw) ∷ rest) =
      let later = delete_member event rest in
      if str_eq name event then later else (name, raw) ∷ later

abbrev pub decoded_handlers : List WrittenHandler → List Handler
decoded_handlers [] = []
decoded_handlers (h ∷ hs) = h.handler ∷ decoded_handlers hs

abbrev pub decoded_groups : List WrittenGroup → List Group
decoded_groups [] = []
decoded_groups (g ∷ gs) =
    record { matcher = g.matcher; hooks = decoded_handlers g.hooks } ∷ decoded_groups gs

-- The error names its event, as every caller's message does.
unfoldable pub groups_for : String → Option Raw → Result HookError (List Group)
groups_for event none = ok []
groups_for event (some (groups gs)) = ok (decoded_groups gs)
groups_for event (some (other t)) = err (undecoded event)

abbrev pub written_handlers : List Handler → List WrittenHandler
written_handlers [] = []
written_handlers (h ∷ hs) = record { handler = h; others = [] } ∷ written_handlers hs

abbrev pub written_groups : List Group → List WrittenGroup
written_groups [] = []
written_groups (g ∷ gs) =
    record { matcher = g.matcher; hooks = written_handlers g.hooks; others = [] }
    ∷ written_groups gs

-- `json.Marshal(groups)`
unfoldable pub marshal : List Group → Raw
marshal gs = groups (written_groups gs)

-- `delete(hooks, event)` when no group is left, and `hooks[event] = json.Marshal(kept)` otherwise.
unfoldable pub put_kept : String → List Group → List (String × Raw) → List (String × Raw)
put_kept event [] hooks = delete_member event hooks
put_kept event (g ∷ gs) hooks = set_member event (marshal (g ∷ gs)) hooks
