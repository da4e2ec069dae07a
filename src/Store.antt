-- ===== src/Store.antt =====
-- internal/store/store.go: the service's SQLite database. A table is the list of its rows in
-- insertion order; a transaction returns the new database, or an error and none (the rollback).
-- Instants are nanoseconds since the Unix epoch. JSON, SHA-256 and number formatting are the
-- standard library's, and enter as the fields of `Codec`.
pub mod Payload
pub mod Queue
pub mod Workspaces
pub mod Lifecycle
pub mod Manifests
pub mod Deliveries
pub mod Sessions
pub mod Focus
pub mod Contracts
pub mod Sequences
pub mod Examples
use Payload.{Json}
use overgent.Prelude.Tables.{any}
use overgent.Prelude.{
  ℕ, ◌+◌, ◌*◌, ◌/◌, String, Bool, ◌&&◌, ◌||◌, Option, List, [], ◌∷◌, ◌++◌, str_eq, ◌==◌,
  if◌then◌else◌, Result, ok, err,
}

-- `Workspace` of the source: what a caller registers and reads back.
pub record Workspace : Type 0 where
  pub id : String
  pub project_id : String
  pub workstream_id : String
  pub member_id : String
  pub device_id : String
  pub session_id : String
  pub root : String
  pub baseline : String
  pub fingerprint : String
  pub backend_id : String
  pub paused : Bool
  pub revision : ℕ

-- A row of `workspaces`: the columns that no caller sees stand beside.
pub record WorkspaceRow : Type 0 where
  pub shown : Workspace
  pub open shown use *
  pub registration_enqueued : Bool
  pub sequence : ℕ
  pub intent_revision : ℕ

pub record ProjectRow : Type 0 where
  pub id : String
  pub backend_id : String

pub record Workstream : Type 0 where
  pub id : String
  pub project_id : String
  pub workspace_id : String
  pub baseline : String
  pub status : String

pub record Manifest : Type 0 where
  pub workspace_id : String
  pub revision : ℕ
  pub manifest_id : String
  pub workstream_id : String
  pub baseline_ref : String
  pub head_ref : String
  pub content_hash : String
  pub path_count : ℕ
  pub entries : List Json
  pub active : Bool

-- A row of `event_queue`. `QueueEvent` of the source is its first five columns.
pub record Event : Type 0 where
  pub id : String
  pub workspace_id : String
  pub sequence : ℕ
  pub kind : String
  pub payload : String
  pub created_at : ℕ
  pub acked_at : Option ℕ
  pub quarantined_at : Option ℕ

pub record Cursor : Type 0 where
  pub workspace_id : String
  pub last_acked_sequence : ℕ

pub record IdempotencyKey : Type 0 where
  pub workspace_id : String
  pub method : String
  pub key : String
  pub request_hash : String
  pub response_revision : ℕ
  pub created_at : ℕ

pub record Observation : Type 0 where
  pub workspace_id : String
  pub vendor : String
  pub last_observed_at : ℕ

-- `AgentSession` of the source, its instant in milliseconds.
pub record AgentSession : Type 0 where
  pub workspace_id : String
  pub vendor : String
  pub workstream_id : String
  pub cwd : String
  pub status : String
  pub observed_at : ℕ

pub record Fingerprint : Type 0 where
  pub workspace_id : String
  pub path : String
  pub hash : String
  pub observed_at : ℕ

-- `ReadSetEntry` of the source.
pub record ReadSetEntry : Type 0 where
  pub path : String
  pub hash : String
  pub observed_at : String
  pub fidelity : String

pub record ReadRow : Type 0 where
  pub workspace_id : String
  pub session : String
  pub entry : ReadSetEntry

-- `InjectionItem` of the source. A revision below 1 is refused, so a natural number is enough.
pub record InjectionItem : Type 0 where
  pub id : String
  pub revision : ℕ

pub record Delivery : Type 0 where
  pub session_key : String
  pub item : InjectionItem
  pub delivered_at : ℕ

pub record FocusRow : Type 0 where
  pub session_key : String
  pub until : ℕ
  pub created_at : ℕ

pub record Db : Type 0 where
  pub projects : List ProjectRow
  pub workspaces : List WorkspaceRow
  pub workstreams : List Workstream
  pub manifests : List Manifest
  pub event_queue : List Event
  pub cursors : List Cursor
  pub idempotency_keys : List IdempotencyKey
  pub observations : List Observation
  pub sessions : List AgentSession
  pub fingerprints : List Fingerprint
  pub read_sets : List ReadRow
  pub deliveries : List Delivery
  pub focus : List FocusRow
  pub boot_count : ℕ

pub record Envelope : Type 0 where
  pub schema_version : ℕ
  pub event_id : String
  pub project_id : String
  pub member_id : String
  pub device_id : String
  pub workspace_id : String
  pub session_id : String
  pub sequence : ℕ
  pub observed_at : ℕ
  pub sent_at : ℕ
  pub source : String
  pub kind : String
  pub payload : Json

pub record LifecycleEvent : Type 0 where
  pub kind : String
  pub payload : Json

pub record Codec : Type 0 where
  -- the hexadecimal digits of the first 16 bytes of SHA-256
  pub digest16 : String → String
  -- `fmt.Sprintf` of `%d` and of `%04d`
  pub decimal : ℕ → String
  pub decimal4 : ℕ → String
  -- `Time.Format(time.RFC3339Nano)`
  pub timestamp : ℕ → String
  -- `json.Marshal` of an envelope and of a batch, and `json.Valid`
  pub marshal : Envelope → String
  pub marshal_batch : List String → String
  pub is_valid : String → Bool
  -- what `json.Unmarshal` makes of the `json.Marshal` of a payload
  pub reencode : Json → Json
  -- the hexadecimal SHA-256 of `json.Marshal(events)`
  pub request_hash : List LifecycleEvent → String

pub data Error : Type 0 where
  -- `sql.ErrNoRows`, and a broken PRIMARY KEY or UNIQUE
  no_rows constraint : Error
  -- an argument that the method refuses
  invalid : Error
  workspace_not_found idempotency_reused manifest_too_large : Error
  intent_conflict : ℕ → Error
  empty_batch batch_too_large crosses_workspaces invalid_envelope : Error

abbrev pub unix : ℕ → ℕ
unix now = now / 1000000000

abbrev pub unix_milli : ℕ → ℕ
unix_milli now = now / 1000000

abbrev pub empty_db : Db
empty_db = record {
  projects = [];
  workspaces = [];
  workstreams = [];
  manifests = [];
  event_queue = [];
  cursors = [];
  idempotency_keys = [];
  observations = [];
  sessions = [];
  fingerprints = [];
  read_sets = [];
  deliveries = [];
  focus = [];
  boot_count = 0;
}

-- WHERE id=? on `workspaces`, and WHERE workspace_id=? on `event_queue`
abbrev pub is_workspace : String → WorkspaceRow → Bool
is_workspace id w = str_eq w.id id

abbrev pub is_event : String → Event → Bool
is_event id e = str_eq e.id id

abbrev pub event_of : String → Event → Bool
event_of id e = str_eq e.workspace_id id

-- INSERT INTO event_queue, whose id and whose sequence within a workspace are unique.
abbrev pub clashes : Event → Event → Bool
clashes new old =
    str_eq old.id new.id
    || (str_eq old.workspace_id new.workspace_id && old.sequence == new.sequence)

unfoldable pub insert_event : Event → Db → Result Error Db
insert_event e db =
    if any (clashes e) db.event_queue
    then err constraint
    else ok (record db { event_queue = db.event_queue ++ e ∷ [] })

unfoldable pub boot : Db → Db × ℕ
boot db = (record db { boot_count = db.boot_count + 1 }, db.boot_count + 1)
