-- ===== src/Injection/Handler.antt =====
-- `handleAgentInjection` of internal/app/app.go.
use overgent.Prelude.{
  ℕ, String, Bool, true, false, ◌&&◌, ◌||◌, not, none, some, List, [], ◌∷◌, map, str_eq,
  if◌then◌else◌, is_some, ok, err,
}
use overgent.Prelude.Tables.{select, any}
use overgent.Config
use overgent.Store.{Db, InjectionItem}
use overgent.Store.Focus.{focused_until}
use overgent.Store.Deliveries.{same_item, undelivered_injection_items, claim_injection_deliveries}
use overgent.Publisher.{Service, with_db, sender_for_workspace}
use overgent.Injection.{
  BriefItem, InjectionResult, Request, Listener, Context, render_injection, select_injection_items,
  claim_mid_turn_fetch, workspace_for_any_root, published_workstream_id, Fetch,
}
use overgent.Injection.Text.{is_contract_id}

abbrev pub silent : InjectionResult
silent = record { additional_context = ""; item_ids = [] }

abbrev pub candidate : BriefItem → InjectionItem
candidate item = record { id = item.id; revision = item.revision }

-- An item whose revision is in a list: the maps `undeliveredSet` and `claimedRevisions`.
abbrev pub is_among : List InjectionItem → BriefItem → Bool
is_among items item = any (same_item (candidate item)) items

-- Undelivered, and urgent enough for the middle of a turn.
abbrev pub is_waiting : Bool → List InjectionItem → BriefItem → Bool
is_waiting mid_turn undelivered item =
    is_among undelivered item
    && (not mid_turn || str_eq item.advisory_action "coordination_required")

abbrev pub shown_result : List BriefItem → InjectionResult
shown_result pending = if str_eq (render_injection pending) "" then silent else record {
  additional_context = render_injection pending;
  item_ids = map (λ (i : BriefItem). i.id) pending;
}

-- The claim of the selected items, and what the hook is given.
unfoldable pub hand_over : ℕ → String → List BriefItem → Db → Db × InjectionResult
unfolding claim_injection_deliveries render_injection
hand_over now session selected db =
    elim (claim_injection_deliveries now session (map candidate selected) db) [
      | err e ↦ (db, silent)
      | ok (db', claimed) ↦ (db', shown_result (select (is_among claimed) selected))
    ]

unfoldable pub deliver_brief : Bool → ℕ → Bool → String → List BriefItem → Db → Db × InjectionResult
unfolding undelivered_injection_items select_injection_items hand_over
deliver_brief has_expired now mid_turn session items db =
    elim (undelivered_injection_items session (map candidate items) db) [
      | err e ↦ (db, silent)
      | ok undelivered ↦
          if has_expired
          then (db, silent)
          else hand_over now session
              (select_injection_items (select (is_waiting mid_turn undelivered) items)) db
    ]

module _ {S : Type 0} (o : Context S) where
  unfoldable pub answer_session :
      ℕ → Bool → String → Config.Workspace → Service → Service × InjectionResult
  unfolding focused_until sender_for_workspace deliver_brief
  answer_session now mid_turn session w s =
      let (s', usable) = sender_for_workspace o.outside w s in
      if is_some (focused_until session now s.db)
      then (s, silent)
      else if usable && o.provides_briefs
      then elim (o.create_brief session) [
        | none ↦ (s', silent)
        | some items ↦
            let (db, result) = deliver_brief o.has_expired now mid_turn session items s'.db in
            (with_db s' db, result)
      ]
      else (s', silent)

  abbrev pub is_vendor : String → Bool
  is_vendor v = str_eq v "claude" || str_eq v "codex" || str_eq v "cursor"

  unfoldable pub answer_request : ℕ → Bool → Request → Service → Service × InjectionResult
  unfolding is_contract_id workspace_for_any_root published_workstream_id answer_session
  answer_request now mid_turn q s =
      if is_vendor q.agent_vendor && is_contract_id q.agent_workstream_id
      then elim (workspace_for_any_root o s.config (q.agent_cwd ∷ q.agent_candidate_roots)) [
        | none ↦ (s, silent)
        | some w ↦
            answer_session now mid_turn
              (published_workstream_id o q.agent_workstream_id w.project_id w.id) w s
      ]
      else (s, silent)

  abbrev pub is_mid_turn : Request → Bool
  is_mid_turn q = str_eq q.agent_event "PostToolUse"

  abbrev pub answered : List Fetch → Service × InjectionResult → Listener × InjectionResult
  answered fetches (s, result) = (record { service = s; mid_turn = fetches }, result)

  unfoldable pub handle_agent_injection : ℕ → Request → Listener → Listener × InjectionResult
  unfolding claim_mid_turn_fetch answer_request
  handle_agent_injection now q l =
      let (fetches, granted) = claim_mid_turn_fetch q.agent_workstream_id now l.mid_turn in
      if is_mid_turn q
      then (if granted then answered fetches (answer_request now true q l.service) else (l, silent))
      else if str_eq q.agent_event "SessionStart" || str_eq q.agent_event "UserPromptSubmit"
      then answered l.mid_turn (answer_request now false q l.service)
      else (l, silent)
