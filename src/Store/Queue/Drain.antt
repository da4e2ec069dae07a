-- ===== src/Store/Queue/Drain.antt =====
-- How events leave the pending part of the queue.
use overgent.Prelude.{
  ℕ, ◌+◌, max, String, ◌≡◌, refl, ap, ◌≢◌, Bool, true, false, ◌&&◌, none, some, List, [], ◌∷◌,
  arith, eq_iff, eq_refl, length, ok, err,
}
use overgent.Prelude.Tables.{
  find, update, any, upsert, any-delete_self, select-delete_ne, length-select-delete, update-none,
  length-update, find-update_ne, find-upsert_self, find-upsert_ne,
}
use overgent.Prelude.Tables.Order.{sort_by}
use overgent.Store.{Db, Event, Cursor, is_event, no_rows}
use overgent.Store.Queue.{
  ack, ack_row, cursor, cursor_of, raise_cursor, pending, is_pending, quarantine, quarantine_row,
  unacked, cleanup_acknowledged, is_stale, in_order,
}

-- An event that waits for publication under an id.
abbrev pub waits : String → Event → Bool
waits id e = is_event id e && is_pending e

-- The sequence up to which a workspace is acknowledged; 0 when nothing is.
abbrev pub acknowledged : String → Db → ℕ
acknowledged workspace db = elim (cursor workspace db) [ ok n ↦ n | err e ↦ 0 ]

waits-ack :
    (now : ℕ) (id : String) (es : List Event)
    → any (waits id) (update (is_event id) (ack_row now) es) ≡ false
unfolding any update
waits-ack now id [] = refl
waits-ack now id (e ∷ es) = ground (arith, waits-ack now id es)

waits-quarantine :
    (now : ℕ) (id : String) (es : List Event)
    → any (waits id) (update (unacked id) (quarantine_row now) es) ≡ false
unfolding any update
waits-quarantine now id [] = refl
waits-quarantine now id (e ∷ es) = ground (arith, waits-quarantine now id es)

ne_event : (id j : String) → id ≢ j → (e : Event) → is_event id e ≡ true → is_event j e ≡ false
ne_event id j n e h = ground (arith, eq_iff e.id id, eq_iff e.id j)

acknowledged-upsert :
    (e : Event) (rows : List Cursor)
    → find (cursor_of e.workspace_id) (
        upsert
          (cursor_of e.workspace_id)
          (raise_cursor e.sequence)
          (record { workspace_id = e.workspace_id; last_acked_sequence = e.sequence })
          rows)
      ≡ elim (find (cursor_of e.workspace_id) rows) [
        | none ↦ some (record { workspace_id = e.workspace_id; last_acked_sequence = e.sequence })
        | some c ↦ some (raise_cursor e.sequence c)
      ]
acknowledged-upsert e rows =
    find-upsert_self (cursor_of e.workspace_id) (raise_cursor e.sequence)
      (record { workspace_id = e.workspace_id; last_acked_sequence = e.sequence }) rows (λ c h. h)
      (eq_refl e.workspace_id)

-- Acknowledging a queued event takes it out of the pending ones and keeps every other event; the
-- cursor of its workspace becomes the larger of what it was and the event's number, and no other
-- workspace's cursor moves. An unknown id is an error.
pub ack_exact :
    (now : ℕ) (id : String) (db : Db) (e : Event)
    → find (is_event id) db.event_queue ≡ some e
    → (db' : Db) × (ack now id db ≡ ok db')
      × (any (waits id) db'.event_queue ≡ false)
      × ((j : String)
          → id ≢ j
          → find (is_event j) db'.event_queue ≡ find (is_event j) db.event_queue)
      × (cursor e.workspace_id db' ≡ ok (max (acknowledged e.workspace_id db) e.sequence))
      × ((w : String) → e.workspace_id ≢ w → cursor w db' ≡ cursor w db)
      × ((x : String) → find (is_event x) db.event_queue ≡ none → ack now x db ≡ err no_rows)
unfolding ack cursor
ack_exact now id db e found = (
  record db {
    event_queue = update (is_event id) (ack_row now) db.event_queue;
    cursors =
        upsert (cursor_of e.workspace_id) (raise_cursor e.sequence)
          (record { workspace_id = e.workspace_id; last_acked_sequence = e.sequence }) db.cursors;
  },
  ground (arith, found),
  waits-ack now id db.event_queue,
  λ j n.
      find-update_ne (is_event id) (is_event j) (ack_row now) db.event_queue (ne_event id j n)
        (λ x. refl),
  ground (arith, acknowledged-upsert e db.cursors),
  λ w n. ground (
    arith,
    find-upsert_ne (cursor_of e.workspace_id) (cursor_of w) (raise_cursor e.sequence)
        (record { workspace_id = e.workspace_id; last_acked_sequence = e.sequence }) db.cursors
        (λ c m. ground (arith, eq_iff c.workspace_id e.workspace_id, eq_iff c.workspace_id w))
        (λ c. refl) (ground (arith, eq_iff e.workspace_id w)),
  ),
  λ x n. rw (n, ack) refl,
)

-- Quarantining an event takes it out of the pending ones, moves no cursor, loses no row, and changes
-- no other event; an event that was acknowledged stays as it was.
quarantine_exact :
    (now : ℕ) (id : String) (db : Db)
    → let db' = quarantine now id db in
      (any (waits id) db'.event_queue ≡ false)
      × (db'.cursors ≡ db.cursors)
      × (length db'.event_queue ≡ length db.event_queue)
      × ((j : String)
          → id ≢ j
          → find (is_event j) db'.event_queue ≡ find (is_event j) db.event_queue)
      × ((any (unacked id) db.event_queue ≡ false) → db'.event_queue ≡ db.event_queue)
unfolding quarantine
quarantine_exact now id db = (
  waits-quarantine now id db.event_queue,
  refl,
  length-update (unacked id) (quarantine_row now) db.event_queue,
  λ j n.
      find-update_ne (unacked id) (is_event j) (quarantine_row now) db.event_queue
        (λ e h. ne_event id j n e (ground arith)) (λ x. refl),
  update-none (unacked id) (quarantine_row now) db.event_queue,
)

-- Cleanup removes acknowledged events only: what is pending, and every cursor, stays as it was; it
-- reports how many rows it removed, and none that it should remove is left.
cleanup_exact :
    (before : ℕ) (db : Db)
    → let (db', removed) = cleanup_acknowledged before db in
      (pending db' ≡ pending db)
      × (db'.cursors ≡ db.cursors)
      × (removed + length db'.event_queue ≡ length db.event_queue)
      × (any (is_stale before) db'.event_queue ≡ false)
unfolding cleanup_acknowledged pending
cleanup_exact before db = (
  ap (sort_by in_order)
      (select-delete_ne (is_stale before) is_pending db.event_queue (λ e h. ground arith)),
  refl,
  length-select-delete (is_stale before) db.event_queue,
  any-delete_self (is_stale before) db.event_queue,
)
