-- ===== src/Store/Sessions.antt =====
-- Agent observations and agent sessions of internal/store/store.go.
use overgent.Prelude.{
  ℕ, String, Bool, ◌&&◌, ◌||◌, not, Option, none, some, List, str_eq, leb, if◌then◌else◌, Result,
  ok, err, str_le,
}
use overgent.Prelude.Tables.{find, select, delete, update, any, upsert}
use overgent.Prelude.Tables.Order.{sort_by}
use overgent.Store.{Db, Observation, AgentSession, Error, invalid, unix_milli}

abbrev pub is_vendor : String → Bool
is_vendor v = str_eq v "codex" || str_eq v "claude"

abbrev observed_vendor : String → Bool
observed_vendor v = is_vendor v || str_eq v "cursor"

abbrev pub is_observation : String → String → Observation → Bool
is_observation workspace vendor o = str_eq o.workspace_id workspace && str_eq o.vendor vendor

unfoldable pub record_agent_observation : ℕ → String → String → Db → Result Error Db
unfolding upsert any update
record_agent_observation at workspace vendor db =
    if str_eq workspace "" || not (observed_vendor vendor)
    then err invalid
    else ok (record db {
      observations =
          upsert (is_observation workspace vendor)
            (λ (o : Observation). record o { last_observed_at = unix_milli at })
            (record { workspace_id = workspace; vendor = vendor; last_observed_at = unix_milli at })
            db.observations;
    })

-- `none` is the answer "never observed".
unfoldable pub agent_observed : String → String → Db → Option ℕ
unfolding find
agent_observed workspace vendor db = elim (find (is_observation workspace vendor) db.observations) [
  | none ↦ none
  | some o ↦ some o.last_observed_at
]

unfoldable pub clear_agent_observation : String → String → Db → Db
unfolding delete
clear_agent_observation workspace vendor db = record db {
  observations = delete (is_observation workspace vendor) db.observations;
}

abbrev pub is_status : String → Bool
is_status s =
    str_eq s "active"
    || str_eq s "idle"
    || str_eq s "waiting"
    || str_eq s "error"
    || str_eq s "done"

abbrev pub same_session : String → String → AgentSession → Bool
same_session vendor workstream s = str_eq s.vendor vendor && str_eq s.workstream_id workstream

-- The checks of `RecordAgentSession` on the identity, the vendor and the status.
unfoldable pub is_refused : AgentSession → Bool
is_refused s =
    str_eq s.workspace_id ""
    || str_eq s.workstream_id ""
    || str_eq s.cwd ""
    || not (is_vendor s.vendor)
    || not (is_status s.status)

abbrev pub refresh : AgentSession → ℕ → AgentSession → AgentSession
refresh s at old = record s {
  vendor = old.vendor;
  workstream_id = old.workstream_id;
  observed_at = unix_milli at;
}

-- `at` is none for the zero `time.Time`.
unfoldable pub record_agent_session : Option ℕ → AgentSession → Db → Result Error Db
unfolding upsert any update
record_agent_session none s db = err invalid
record_agent_session (some at) s db =
    if is_refused s
    then err invalid
    else ok (record db {
      sessions =
          upsert (same_session s.vendor s.workstream_id) (refresh s at)
            (record s { observed_at = unix_milli at }) db.sessions;
    })

abbrev pub is_recent : ℕ → AgentSession → Bool
is_recent after s = not (str_eq s.status "done") && leb (unix_milli after) s.observed_at

abbrev pub is_active_at : String → String → String → ℕ → AgentSession → Bool
is_active_at workspace vendor cwd after s =
    str_eq s.workspace_id workspace
    && str_eq s.vendor vendor
    && str_eq s.cwd cwd
    && is_recent after s

abbrev by_workstream : AgentSession → AgentSession → Bool
by_workstream a b = str_le a.workstream_id b.workstream_id

unfoldable pub active_agent_sessions :
    String → String → String → Option ℕ → Db → Result Error (List AgentSession)
unfolding select
active_agent_sessions workspace vendor cwd at db = elim at [
  | none ↦ err invalid
  | some after ↦
      if str_eq workspace "" || str_eq cwd "" || not (is_vendor vendor)
      then err invalid
      else ok (sort_by by_workstream (select (is_active_at workspace vendor cwd after) db.sessions))
]

-- ORDER BY status, vendor, workstream_id
abbrev by_status : AgentSession → AgentSession → Bool
by_status a b =
    if str_eq a.status b.status
    then (if str_eq a.vendor b.vendor then by_workstream a b else str_le a.vendor b.vendor)
    else str_le a.status b.status

abbrev pub is_recent_in : String → ℕ → AgentSession → Bool
is_recent_in workspace after s = str_eq s.workspace_id workspace && is_recent after s

unfoldable pub recent_agent_sessions : String → Option ℕ → Db → Result Error (List AgentSession)
unfolding select
recent_agent_sessions workspace at db = elim at [
  | none ↦ err invalid
  | some after ↦
      if str_eq workspace ""
      then err invalid
      else ok (sort_by by_status (select (is_recent_in workspace after) db.sessions))
]
