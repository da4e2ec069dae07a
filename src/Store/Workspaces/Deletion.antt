-- ===== src/Store/Workspaces/Deletion.antt =====
-- `DeleteWorkspace`: nothing of the workspace is left, and nothing else is touched.
use overgent.Prelude.{
  ℕ, String, ◌≡◌, refl, ◌≢◌, true, none, List, [], ◌∷◌, arith, str_eq, eq_iff, ok, err,
}
use overgent.Prelude.Tables.{find, select, delete, any, select-delete_ne, select-delete_self}
use overgent.Store.{
  Db, Event, Cursor, Workspace, WorkspaceRow, Workstream, Manifest, IdempotencyKey, Observation,
  AgentSession, Fingerprint, ReadRow, constraint, is_workspace, event_of, is_event, clashes,
  insert_event, Codec,
}
use overgent.Store.Queue.{cursor_of}
use overgent.Store.Workspaces.{
  delete_workspace, upsert_workspace, register, registration, registration_event_id, new_row,
}
use overgent.Store.Workspaces.Enrolment.{event_queue-written, find-written}

-- The rows of one workspace in every table that is keyed by a workspace.
pub record Trace : Type 0 where
  pub workspaces : List WorkspaceRow
  pub workstreams : List Workstream
  pub manifests : List Manifest
  pub events : List Event
  pub cursors : List Cursor
  pub keys : List IdempotencyKey
  pub observations : List Observation
  pub sessions : List AgentSession
  pub fingerprints : List Fingerprint
  pub reads : List ReadRow

abbrev pub trace : String → Db → Trace
trace id db = record {
  workspaces = select (is_workspace id) db.workspaces;
  workstreams = select (λ (r : Workstream). str_eq r.workspace_id id) db.workstreams;
  manifests = select (λ (r : Manifest). str_eq r.workspace_id id) db.manifests;
  events = select (event_of id) db.event_queue;
  cursors = select (cursor_of id) db.cursors;
  keys = select (λ (r : IdempotencyKey). str_eq r.workspace_id id) db.idempotency_keys;
  observations = select (λ (r : Observation). str_eq r.workspace_id id) db.observations;
  sessions = select (λ (r : AgentSession). str_eq r.workspace_id id) db.sessions;
  fingerprints = select (λ (r : Fingerprint). str_eq r.workspace_id id) db.fingerprints;
  reads = select (λ (r : ReadRow). str_eq r.workspace_id id) db.read_sets;
}

abbrev pub no_trace : Trace
no_trace = record {
  workspaces = [];
  workstreams = [];
  manifests = [];
  events = [];
  cursors = [];
  keys = [];
  observations = [];
  sessions = [];
  fingerprints = [];
  reads = [];
}

module _ {A : Type 0} (key : A → String) (id : String) (rows : List A) where
  gone : select (λ (r : A). str_eq (key r) id) (delete (λ (r : A). str_eq (key r) id) rows) ≡ []
  gone = select-delete_self (λ (r : A). str_eq (key r) id) rows

  kept :
      (j : String)
      → id ≢ j
      → select (λ (r : A). str_eq (key r) j) (delete (λ (r : A). str_eq (key r) id) rows)
        ≡ select (λ (r : A). str_eq (key r) j) rows
  kept j n =
      select-delete_ne (λ (r : A). str_eq (key r) id) (λ (r : A). str_eq (key r) j) rows
        (λ r m. ground (arith, eq_iff (key r) id, eq_iff (key r) j))

-- Deleting a workspace removes its rows from all ten tables that are keyed by workspace, keeps every
-- other workspace's rows in each, and leaves Projects, deliveries and focus alone. Only the empty id
-- is refused.
pub delete_exact :
    (id : String) (db : Db)
    → id ≢ ""
    → (db' : Db) × (delete_workspace id db ≡ ok db')
      × (trace id db' ≡ no_trace)
      × ((j : String) → id ≢ j → trace j db' ≡ trace j db)
      × (db'.projects ≡ db.projects)
      × (db'.deliveries ≡ db.deliveries)
      × (db'.focus ≡ db.focus)
unfolding delete_workspace
delete_exact id db n = (
  after,
  ground (arith, eq_iff id ""),
  (λ i. record {
    workspaces = gone (λ (r : WorkspaceRow). r.id) id db.workspaces i;
    workstreams = gone (λ (r : Workstream). r.workspace_id) id db.workstreams i;
    manifests = gone (λ (r : Manifest). r.workspace_id) id db.manifests i;
    events = gone (λ (r : Event). r.workspace_id) id db.event_queue i;
    cursors = gone (λ (r : Cursor). r.workspace_id) id db.cursors i;
    keys = gone (λ (r : IdempotencyKey). r.workspace_id) id db.idempotency_keys i;
    observations = gone (λ (r : Observation). r.workspace_id) id db.observations i;
    sessions = gone (λ (r : AgentSession). r.workspace_id) id db.sessions i;
    fingerprints = gone (λ (r : Fingerprint). r.workspace_id) id db.fingerprints i;
    reads = gone (λ (r : ReadRow). r.workspace_id) id db.read_sets i;
  }),
  (λ j m i. record {
    workspaces = kept (λ (r : WorkspaceRow). r.id) id db.workspaces j m i;
    workstreams = kept (λ (r : Workstream). r.workspace_id) id db.workstreams j m i;
    manifests = kept (λ (r : Manifest). r.workspace_id) id db.manifests j m i;
    events = kept (λ (r : Event). r.workspace_id) id db.event_queue j m i;
    cursors = kept (λ (r : Cursor). r.workspace_id) id db.cursors j m i;
    keys = kept (λ (r : IdempotencyKey). r.workspace_id) id db.idempotency_keys j m i;
    observations = kept (λ (r : Observation). r.workspace_id) id db.observations j m i;
    sessions = kept (λ (r : AgentSession). r.workspace_id) id db.sessions j m i;
    fingerprints = kept (λ (r : Fingerprint). r.workspace_id) id db.fingerprints j m i;
    reads = kept (λ (r : ReadRow). r.workspace_id) id db.read_sets j m i;
  }),
  refl,
  refl,
  refl,
)
  where
    after : Db
    after = record db {
      workstreams = delete (λ (r : Workstream). str_eq r.workspace_id id) db.workstreams;
      manifests = delete (λ (r : Manifest). str_eq r.workspace_id id) db.manifests;
      event_queue = delete (event_of id) db.event_queue;
      cursors = delete (cursor_of id) db.cursors;
      idempotency_keys =
          delete (λ (r : IdempotencyKey). str_eq r.workspace_id id) db.idempotency_keys;
      observations = delete (λ (r : Observation). str_eq r.workspace_id id) db.observations;
      sessions = delete (λ (r : AgentSession). str_eq r.workspace_id id) db.sessions;
      fingerprints = delete (λ (r : Fingerprint). str_eq r.workspace_id id) db.fingerprints;
      read_sets = delete (λ (r : ReadRow). str_eq r.workspace_id id) db.read_sets;
      workspaces = delete (is_workspace id) db.workspaces;
    }

clashing :
    (new : Event) (es : List Event) → any (is_event new.id) es ≡ true → any (clashes new) es ≡ true
unfolding any
clashing new [] h = cc
clashing new (e ∷ es) h = ground (arith, clashing new es)

-- A workspace that lost its row to another one at its root cannot come back while its first
-- registration is still queued, acknowledged or not: the upsert breaks the primary key of
-- `event_queue` and is rolled back.
pub reenrolment_refused :
    (codec : Codec) (now : ℕ) (w : Workspace) (db : Db)
    → find (is_workspace w.id) db.workspaces ≡ none
    → any (is_event (registration_event_id codec w.project_id w.device_id w.id)) db.event_queue
      ≡ true
    → upsert_workspace codec now w db ≡ err constraint
unfolding upsert_workspace register insert_event
reenrolment_refused codec now w db gone old = ground (
  arith,
  find-written w db,
  event_queue-written w db,
  clashing (registration codec now w (new_row w)) db.event_queue old,
)
