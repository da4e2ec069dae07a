-- ===== src/Store/Examples.antt =====
-- A small store to run the operations of internal/store/store.go on.
mod Queue
mod Workspaces
mod Publishing
mod Records
use overgent.Prelude.{
  ℕ, String, Bool, true, false, none, List, [], ◌∷◌, ◌==◌, if◌then◌else◌, Result, ok, err,
}
use overgent.Store.{
  Db, Codec, Envelope, Event, Error, Workspace, WorkspaceRow, ProjectRow, Cursor, LifecycleEvent,
  empty_db,
}
use overgent.Store.Payload.{Json, null}

abbrev pub db_of : Result Error Db → Db
db_of r = elim r [ ok db ↦ db | err e ↦ empty_db ]

abbrev pub first_of : {A : Type 0} → Result Error (Db × A) → Db
first_of r = elim r [ ok p ↦ p.0 | err e ↦ empty_db ]

abbrev pub published_of : Result Error (Db × ℕ × Bool) → Db
published_of r = elim r [ ok p ↦ p.0 | err e ↦ empty_db ]

abbrev hash_of : List LifecycleEvent → String
hash_of [] = ""
hash_of (e ∷ es) = e.kind

abbrev pub codec : Codec
codec = record {
  digest16 = λ s. s;
  decimal = λ n. if n == 0 then "0" else "n";
  decimal4 = λ n. "0000";
  timestamp = λ n. "now";
  reencode = λ p. p;
  marshal = λ e. e.event_id;
  marshal_batch = λ xs. "batch";
  is_valid = λ s. true;
  request_hash = hash_of;
}

abbrev pub shown : Workspace
shown = record {
  id = "w1";
  project_id = "p1";
  workstream_id = "s1";
  member_id = "m1";
  device_id = "d1";
  session_id = "x1";
  root = "/r";
  baseline = "main";
  fingerprint = "f";
  backend_id = "bk";
  paused = false;
  revision = 0;
}

abbrev pub row : WorkspaceRow
row = record { shown = shown; registration_enqueued = true; sequence = 2; intent_revision = 0 }

abbrev pub event : String → ℕ → Event
event id n = record {
  id = id;
  workspace_id = "w1";
  sequence = n;
  kind = "k";
  payload = "{}";
  created_at = 0;
  acked_at = none;
  quarantined_at = none;
}

-- One registered workspace with two pending events, the first acknowledged on its cursor before.
abbrev pub small : Db
small = record empty_db {
  projects = record { id = "p1"; backend_id = "bk" } ∷ [];
  workspaces = row ∷ [];
  event_queue = event "e1" 1 ∷ event "e2" 2 ∷ [];
  cursors = record { workspace_id = "w1"; last_acked_sequence = 1 } ∷ [];
}
