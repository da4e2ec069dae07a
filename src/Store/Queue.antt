-- ===== src/Store/Queue.antt =====
-- The event queue of internal/store/store.go: enqueueing, the pending events, acknowledgement,
-- quarantine and cleanup.
pub mod Drain
pub mod Batches
use overgent.Prelude.{
  ℕ, ◌+◌, max, String, Bool, false, ◌&&◌, not, Option, none, some, List, [], ◌∷◌, map, str_eq, ltb,
  leb, if◌then◌else◌, is_some, length, Result, ok, err, str_le,
}
use overgent.Prelude.Tables.{find, select, delete, update, upsert}
use overgent.Prelude.Tables.Order.{sort_by}
use overgent.Store.Payload.{Json}
use overgent.Store.{
  Db, Event, Envelope, Codec, Cursor, WorkspaceRow, Error, no_rows, empty_batch, batch_too_large,
  crosses_workspaces, invalid_envelope, is_workspace, is_event, insert_event, unix,
}

-- UPDATE workspaces SET sequence=? WHERE id=?
abbrev pub set_sequence : ℕ → WorkspaceRow → WorkspaceRow
set_sequence n w = record w { sequence = n }

module _ (codec : Codec) where
  -- The envelope that a workspace's identity puts round a payload.
  abbrev pub envelope : WorkspaceRow → ℕ → String → ℕ → String → String → Json → Envelope
  envelope w now id sequence source kind payload = record {
    schema_version = 1;
    event_id = id;
    project_id = w.project_id;
    member_id = w.member_id;
    device_id = w.device_id;
    workspace_id = w.id;
    session_id = w.session_id;
    sequence = sequence;
    observed_at = now;
    sent_at = now;
    source = source;
    kind = kind;
    payload = payload;
  }

  abbrev pub queued : WorkspaceRow → ℕ → String → ℕ → String → String → Json → Event
  queued w now id sequence source kind payload = record {
    id = id;
    workspace_id = w.id;
    sequence = sequence;
    kind = kind;
    payload = codec.marshal (envelope w now id sequence source kind payload);
    created_at = unix now;
    acked_at = none;
    quarantined_at = none;
  }

  abbrev pub advance : String → ℕ → Result Error Db → Result Error Db
  advance id n (err e) = err e
  advance id n (ok db) =
      ok (record db { workspaces = update (is_workspace id) (set_sequence n) db.workspaces })

  unfoldable pub enqueue_event : ℕ → String → String → String → String → Json → Db → Result Error Db
  unfolding insert_event find update
  enqueue_event now workspace id source kind payload db =
      elim (find (is_workspace workspace) db.workspaces) [
        | none ↦ err no_rows
        | some w ↦
            advance workspace (w.sequence + 1)
              (insert_event (queued w now id (w.sequence + 1) source kind payload) db)
      ]

-- WHERE acked_at IS NULL AND quarantined_at IS NULL
abbrev pub is_pending : Event → Bool
is_pending e = not (is_some e.acked_at) && not (is_some e.quarantined_at)

-- ORDER BY workspace_id, sequence
abbrev pub in_order : Event → Event → Bool
in_order a b =
    if str_eq a.workspace_id b.workspace_id
    then leb a.sequence b.sequence
    else str_le a.workspace_id b.workspace_id

unfoldable pub pending : Db → List Event
pending db = sort_by in_order (select is_pending db.event_queue)

-- The checks of `Batch` on the events after the first has fixed the workspace.
unfoldable pub check_window : Codec → String → List Event → Option Error
check_window codec workspace [] = none
check_window codec workspace (e ∷ es) =
    let rest = check_window codec workspace es in
    if str_eq e.workspace_id workspace
    then (if codec.is_valid e.payload then rest else some invalid_envelope)
    else some crosses_workspaces

unfoldable pub batch : Codec → List Event → Result Error String
unfolding check_window
batch codec [] = err empty_batch
batch codec (e ∷ es) =
    if ltb 100 (length (e ∷ es))
    then err batch_too_large
    else elim (check_window codec e.workspace_id (e ∷ es)) [
      | some error ↦ err error
      | none ↦ ok (codec.marshal_batch (map (λ (x : Event). x.payload) (e ∷ es)))
    ]

abbrev pub ack_row : ℕ → Event → Event
ack_row now e = record e { acked_at = some (unix now) }

abbrev pub cursor_of : String → Cursor → Bool
cursor_of workspace c = str_eq c.workspace_id workspace

-- ON CONFLICT(workspace_id) DO UPDATE SET last_acked_sequence=max(...)
abbrev pub raise_cursor : ℕ → Cursor → Cursor
raise_cursor sequence c = record c { last_acked_sequence = max c.last_acked_sequence sequence }

unfoldable pub ack : ℕ → String → Db → Result Error Db
unfolding find update upsert
ack now id db = elim (find (is_event id) db.event_queue) [
  | none ↦ err no_rows
  | some e ↦ ok (record db {
    event_queue = update (is_event id) (ack_row now) db.event_queue;
    cursors =
        upsert (cursor_of e.workspace_id) (raise_cursor e.sequence)
          (record { workspace_id = e.workspace_id; last_acked_sequence = e.sequence }) db.cursors;
  })
]

-- WHERE id=? AND acked_at IS NULL
abbrev pub unacked : String → Event → Bool
unacked id e = is_event id e && not (is_some e.acked_at)

abbrev pub quarantine_row : ℕ → Event → Event
quarantine_row now e = record e { quarantined_at = some (unix now) }

unfoldable pub quarantine : ℕ → String → Db → Db
unfolding update
quarantine now id db = record db {
  event_queue = update (unacked id) (quarantine_row now) db.event_queue;
}

unfoldable pub quarantined_count : Db → ℕ
unfolding select
quarantined_count db = length (select (λ (e : Event). is_some e.quarantined_at) db.event_queue)

-- WHERE acked_at IS NOT NULL AND acked_at<?
abbrev pub is_stale : ℕ → Event → Bool
is_stale before e = elim e.acked_at [ none ↦ false | some at ↦ ltb at (unix before) ]

unfoldable pub cleanup_acknowledged : ℕ → Db → Db × ℕ
unfolding delete select
cleanup_acknowledged before db = (
  record db { event_queue = delete (is_stale before) db.event_queue },
  length (select (is_stale before) db.event_queue),
)

unfoldable pub cursor : String → Db → Result Error ℕ
unfolding find
cursor workspace db = elim (find (cursor_of workspace) db.cursors) [
  | none ↦ err no_rows
  | some c ↦ ok c.last_acked_sequence
]
