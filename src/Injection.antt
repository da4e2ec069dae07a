-- ===== src/Injection.antt =====
-- The context that internal/app/app.go injects into an agent's turn: which items of a brief are
-- chosen, within a budget of characters, and when they count as delivered. What a request reads of
-- the clock is one instant. `len` is the length in bytes of UTF-8, as in Go.
pub mod Text
pub mod Handler
pub mod Budget
pub mod Handover
pub mod Limits
mod Examples
use Prim.Native.String.{◌++◌ as concat}
use Prim.Native.String.{len}
use Text.{join_fields, is_contract_id}
use text.Mathlib.Text.{starts_with}
use overgent.Prelude.{
  ℕ, ◌+◌, ◌-◌, String, Bool, true, false, ◌&&◌, ◌||◌, not, Option, none, some, List, [], ◌∷◌,
  str_eq, ltb, leb, if◌then◌else◌,
}
use overgent.Prelude.Tables.{find, upsert}
use overgent.Config
use overgent.Config.{Config}
use overgent.Store
use overgent.Store.{Db, InjectionItem}
use overgent.Store.Focus.{focused_until}
use overgent.Store.Deliveries.{same_item, undelivered_injection_items, claim_injection_deliveries}
use overgent.Publisher.{Service, Outside, with_db, sender_for_workspace}

-- `BriefItem` of internal/hosted/client.go, as far as the injection reads it.
pub record BriefItem : Type 0 where
  pub id : String
  pub revision : ℕ
  pub text : String
  pub relevance_reason : String
  pub advisory_action : String

-- `agentInjectionResult`
pub record InjectionResult : Type 0 where
  pub additional_context : String
  pub item_ids : List String

-- The fields of `daemon.Request` that are read.
pub record Request : Type 0 where
  pub agent_event : String
  pub agent_workstream_id : String
  pub agent_vendor : String
  pub agent_cwd : String
  pub agent_candidate_roots : List String

-- An entry of the map `midTurnFetch`.
pub record Fetch : Type 0 where
  pub workstream : String
  pub at : ℕ

-- A Service as the injections see it: with its map `midTurnFetch`.
pub record Listener : Type 0 where
  pub service : Service
  pub mid_turn : List Fetch

-- The file system, the backends and the standard library, as an injection uses them.
pub record Context (S : Type 0) : Type 0 where
  pub outside : Outside S
  -- `filepath.Abs`, `filepath.EvalSymlinks`, `filepath.Clean` and `filepath.Rel`, with `none` for
  -- their errors, and the separator of paths
  pub absolute : String → Option String
  pub eval_symlinks : String → Option String
  pub clean : String → String
  pub relative : String → String → Option String
  pub separator : String
  -- whether a backend's publisher provides briefs, and its answer for a session
  pub provides_briefs : Bool
  pub create_brief : String → Option (List BriefItem)
  -- whether the deadline of the fetch has passed
  pub has_expired : Bool
  pub digest16 : String → String

abbrev pub max_injection_chars : ℕ
max_injection_chars = 3200

abbrev pub header : String
header = "Coordination update:\n"

abbrev pub suffix : String → String → String → String
suffix before value after = if str_eq value "" then "" else concat before (concat value after)

unfoldable pub injection_line : BriefItem → String
unfolding join_fields
injection_line item = concat "- " (
    concat (join_fields item.text) (
      concat (suffix " Reason: " (join_fields item.relevance_reason) "")
        (concat (suffix " Action: " (join_fields item.advisory_action) ".") "\n")))

unfoldable pub render_lines : List BriefItem → String
render_lines [] = ""
render_lines (item ∷ items) = concat (injection_line item) (render_lines items)

unfoldable pub render_injection : List BriefItem → String
unfolding render_lines
render_injection [] = ""
render_injection (item ∷ items) = concat header (render_lines (item ∷ items))

-- What stands for an item that is too long for what is left of the budget.
unfoldable pub reference : BriefItem → BriefItem
reference item = record item {
  text = concat "Review coordination item " (concat item.id ".");
  relevance_reason = "Required context was compacted to honor the injection budget.";
  advisory_action = "review_recommended";
}

-- The loop of `selectInjectionItems`.
unfoldable pub select_loop : ℕ → List BriefItem → List BriefItem
select_loop used [] = []
select_loop used (item ∷ items) =
    let whole = select_loop (used + len (injection_line item)) items in
    let compact = select_loop (used + len (injection_line (reference item))) items in
    if leb max_injection_chars used
    then []
    else if ltb (max_injection_chars - used) (len (injection_line item))
    then (if ltb (max_injection_chars - used) (len (injection_line (reference item)))
        then []
        else reference item ∷ compact)
    else item ∷ whole

unfoldable pub select_injection_items : List BriefItem → List BriefItem
unfolding select_loop
select_injection_items items = select_loop (len header) items

-- `window` of `claimMidTurnFetch`: 20 seconds
abbrev pub fetch_window : ℕ
fetch_window = 20000000000

abbrev pub is_fetch : String → Fetch → Bool
is_fetch workstream f = str_eq f.workstream workstream

unfoldable pub claim_mid_turn_fetch : String → ℕ → List Fetch → List Fetch × Bool
unfolding find upsert
claim_mid_turn_fetch workstream now fetches =
    let noted =
      upsert (is_fetch workstream) (λ (f : Fetch). record f { at = now })
        (record { workstream = workstream; at = now }) fetches in
    elim (find (is_fetch workstream) fetches) [
      | none ↦ (noted, true)
      | some last ↦ if ltb now (last.at + fetch_window) then (fetches, false) else (noted, true)
    ]

abbrev no_workspace : Config.Workspace
no_workspace = record {
  id = "";
  project_id = "";
  workstream = "";
  root = "";
  baseline = "";
  fingerprint = "";
  member_id = "";
  session_id = "";
}

module _ {S : Type 0} (o : Context S) where
  -- A root holds a directory when the path from it does not lead upwards.
  abbrev holds : String → String → Bool
  holds root directory = elim (o.relative root directory) [
    | none ↦ false
    | some path ↦ not (str_eq path ".." || starts_with path (concat ".." o.separator))
  ]

  -- The loop of `workspaceForCWD`: the longest root wins, the first one of those that are as long.
  unfoldable pub longest_root : String → Config.Workspace → List Config.Workspace → Config.Workspace
  longest_root directory selected [] = selected
  longest_root directory selected (w ∷ ws) =
      let taken = longest_root directory w ws in
      let kept = longest_root directory selected ws in
      if holds w.root directory && (str_eq selected.root "" || ltb (len selected.root) (len w.root))
      then taken
      else kept

  unfoldable pub canonical_directory : String → Option String
  canonical_directory directory =
      if str_eq directory "" then none else elim (o.absolute directory) [
        | none ↦ none
        | some absolute ↦ some (
            o.clean
              (elim (o.eval_symlinks absolute) [ none ↦ absolute | some resolved ↦ resolved ]))
      ]

  unfoldable pub workspace_for_cwd : Config → String → Option Config.Workspace
  unfolding longest_root canonical_directory
  workspace_for_cwd c cwd = elim (canonical_directory cwd) [
    | none ↦ none
    | some directory ↦
        let selected = longest_root directory no_workspace c.workspaces in
        if str_eq selected.root "" then none else some selected
  ]

  -- `workspaceForAnyRoot`, without the directory that it found the workspace by.
  unfoldable pub workspace_for_any_root : Config → List String → Option Config.Workspace
  unfolding workspace_for_cwd
  workspace_for_any_root c [] = none
  workspace_for_any_root c (root ∷ roots) =
      let rest = workspace_for_any_root c roots in
      if str_eq root ""
      then rest
      else elim (workspace_for_cwd c root) [ none ↦ rest | some w ↦ some w ]

  unfoldable pub published_workstream_id : String → String → String → String
  published_workstream_id workstream project workspace = concat "wrk_agent_" (
      o.digest16 (
        concat "overgent.agent-session-scope.v1\0"
          (concat project (concat "\0" (concat workspace (concat "\0" workstream))))))
