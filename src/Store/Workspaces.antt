-- ===== src/Store/Workspaces.antt =====
-- Registration in internal/store/store.go: `UpsertWorkspace`, `RebindWorkspace`, `DeleteWorkspace`,
-- pausing, and the list of workspaces.
pub mod Enrolment
pub mod Deletion
use Prim.Native.String.{◌++◌ as concat}
use overgent.Prelude.{
  ℕ, ◌+◌, String, Bool, true, false, ◌&&◌, ◌||◌, not, none, some, List, map, str_eq, if◌then◌else◌,
  length, Result, ok, err, str_le,
}
use overgent.Prelude.Tables.{find, select, delete, update, any, upsert}
use overgent.Prelude.Tables.Order.{sort_by}
use overgent.Store.Payload.{Json, object, field, end, text}
use overgent.Store.Queue.{queued, cursor_of}
use overgent.Store.{
  Db, Event, Codec, Workspace, WorkspaceRow, ProjectRow, Workstream, Manifest, IdempotencyKey,
  Observation, AgentSession, Fingerprint, ReadRow, Error, no_rows, invalid, workspace_not_found,
  is_workspace, event_of, insert_event,
}

-- INSERT INTO projects ... DO UPDATE SET backend_id WHERE excluded.backend_id<>''
unfoldable pub note_project : Workspace → Db → Db
unfolding upsert any update
note_project w db = record db {
  projects =
      upsert (λ (q : ProjectRow). str_eq q.id w.project_id)
        (λ (q : ProjectRow).
          if str_eq w.backend_id "" then q else record q { backend_id = w.backend_id })
        (record { id = w.project_id; backend_id = w.backend_id }) db.projects;
}

-- WHERE root=? AND id<>?
abbrev pub has_stale_root : Workspace → WorkspaceRow → Bool
has_stale_root w row = str_eq row.root w.root && not (str_eq row.id w.id)

unfoldable pub drop_stale : Workspace → Db → Db
unfolding delete any select
drop_stale w db = record db {
  workstreams =
      delete
        (λ (s : Workstream).
          any (λ (row : WorkspaceRow). str_eq row.id s.workspace_id)
            (select (has_stale_root w) db.workspaces))
        db.workstreams;
  workspaces = delete (has_stale_root w) db.workspaces;
}

-- ON CONFLICT(id) DO UPDATE: everything but paused, revision and the hidden columns
abbrev pub overwrite : Workspace → WorkspaceRow → WorkspaceRow
overwrite w row = record row { shown = record w { paused = row.paused; revision = row.revision } }

abbrev pub new_row : Workspace → WorkspaceRow
new_row w = record { shown = w; registration_enqueued = false; sequence = 0; intent_revision = 0 }

unfoldable pub put_workspace : Workspace → Db → Db
unfolding upsert any update
put_workspace w db = record db {
  workspaces = upsert (is_workspace w.id) (overwrite w) (new_row w) db.workspaces;
  workstreams =
      upsert (λ (s : Workstream). str_eq s.id w.workstream_id)
        (λ (s : Workstream). record s {
          project_id = w.project_id;
          workspace_id = w.id;
          baseline = w.baseline;
        })
        (record {
          id = w.workstream_id;
          project_id = w.project_id;
          workspace_id = w.id;
          baseline = w.baseline;
          status = "active";
        })
        db.workstreams;
}

-- UPDATE workspaces SET registration_enqueued=1,sequence=? WHERE id=?
abbrev pub set_registered : ℕ → WorkspaceRow → WorkspaceRow
set_registered n row = record row { registration_enqueued = true; sequence = n }

abbrev pub mark_registered : String → ℕ → Result Error Db → Result Error Db
mark_registered id n (err e) = err e
mark_registered id n (ok db) =
    ok (record db { workspaces = update (is_workspace id) (set_registered n) db.workspaces })

module _ (codec : Codec) where
  unfoldable pub registration_event_id : String → String → String → String
  registration_event_id project device workspace = concat "evt_registration_" (
      codec.digest16 (
        concat "overgent.workspace-registration.v1\0"
          (concat project (concat "\0" (concat device (concat "\0" workspace))))))

  abbrev registration_payload : Workspace → Json
  registration_payload w = object (
      field "repoFingerprint" (text w.fingerprint) (
        field "label" (text w.id)
          (field "capabilities" (object (field "gitManifest" (text "layered/v1") end)) end)))

  abbrev pub registration : ℕ → Workspace → WorkspaceRow → Event
  registration now w row =
      queued codec row now (registration_event_id w.project_id w.device_id w.id) (row.sequence + 1)
        "manual" "workspace.registered" (registration_payload w)

  unfoldable pub register : ℕ → Workspace → Db → Result Error Db
  unfolding insert_event find update registration_event_id
  register now w db = elim (find (is_workspace w.id) db.workspaces) [
    | none ↦ err no_rows
    | some row ↦
        if row.registration_enqueued
        then ok db
        else mark_registered w.id (row.sequence + 1) (insert_event (registration now w row) db)
  ]

  unfoldable pub upsert_workspace : ℕ → Workspace → Db → Result Error Db
  unfolding note_project drop_stale put_workspace register
  upsert_workspace now w db = register now w (put_workspace w (drop_stale w (note_project w db)))

abbrev pub rebind_row : String → String → WorkspaceRow → WorkspaceRow
rebind_row device backend row = record row {
  shown = record row.shown { device_id = device; backend_id = backend };
  registration_enqueued = false;
}

unfoldable pub rebind_workspace : String → String → String → Db → Result Error Db
unfolding any update delete
rebind_workspace id device backend db =
    if str_eq id "" || str_eq device "" || str_eq backend ""
    then err invalid
    else if any (is_workspace id) db.workspaces
    then ok (record db {
      workspaces = update (is_workspace id) (rebind_row device backend) db.workspaces;
      event_queue = delete (event_of id) db.event_queue;
      cursors = delete (cursor_of id) db.cursors;
    })
    else err workspace_not_found

unfoldable pub delete_workspace : String → Db → Result Error Db
unfolding delete
delete_workspace id db =
    if str_eq id ""
    then err invalid
    else ok (record db {
      workstreams = delete (λ (r : Workstream). str_eq r.workspace_id id) db.workstreams;
      manifests = delete (λ (r : Manifest). str_eq r.workspace_id id) db.manifests;
      event_queue = delete (event_of id) db.event_queue;
      cursors = delete (cursor_of id) db.cursors;
      idempotency_keys =
          delete (λ (r : IdempotencyKey). str_eq r.workspace_id id) db.idempotency_keys;
      observations = delete (λ (r : Observation). str_eq r.workspace_id id) db.observations;
      sessions = delete (λ (r : AgentSession). str_eq r.workspace_id id) db.sessions;
      fingerprints = delete (λ (r : Fingerprint). str_eq r.workspace_id id) db.fingerprints;
      read_sets = delete (λ (r : ReadRow). str_eq r.workspace_id id) db.read_sets;
      workspaces = delete (is_workspace id) db.workspaces;
    })

-- ORDER BY id
unfoldable pub workspaces : Db → List Workspace
workspaces db =
    sort_by (λ (a b : Workspace). str_le a.id b.id)
      (map (λ (row : WorkspaceRow). row.shown) db.workspaces)

abbrev pub pause_row : Bool → WorkspaceRow → WorkspaceRow
pause_row p row = record row { shown = record row.shown { paused = p } }

-- An UPDATE by primary key changes one row or none.
unfoldable pub set_paused : String → Bool → Db → Result Error Db
unfolding any update
set_paused id p db =
    if any (is_workspace id) db.workspaces
    then ok (record db { workspaces = update (is_workspace id) (pause_row p) db.workspaces })
    else err workspace_not_found

abbrev pub in_project : String → WorkspaceRow → Bool
in_project project row = str_eq row.project_id project

unfoldable pub set_project_paused : String → Bool → Db → Result Error (Db × ℕ)
unfolding update select
set_project_paused project p db =
    if str_eq project ""
    then err invalid
    else ok (
      record db { workspaces = update (in_project project) (pause_row p) db.workspaces },
      length (select (in_project project) db.workspaces),
    )
