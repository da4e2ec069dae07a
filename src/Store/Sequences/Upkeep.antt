-- ===== src/Store/Sequences/Upkeep.antt =====
-- Acknowledgement, quarantine and cleanup keep the sequence numbers in range.
use overgent.Prelude.{ℕ, String, ◌≡◌, inl, inr, arith, Option-cases, ok}
use overgent.Prelude.Tables.{find, update}
use overgent.Prelude.Tables.Rows.{All-update, All-delete}
use overgent.Store.{Db, is_event}
use overgent.Store.Queue.{
  ack, ack_row, quarantine, quarantine_row, unacked, cleanup_acknowledged, is_stale,
}
use overgent.Store.Sequences.{FitsAll, IsNumbered}

pub ack-IsNumbered :
    (now : ℕ) (id : String) (db db' : Db) → ack now id db ≡ ok db' → IsNumbered db → IsNumbered db'
unfolding ack
ack-IsNumbered now id db db' h k = elim (Option-cases (find (is_event id) db.event_queue)) [
  | inl e ↦ absurd (ground arith)
  | inr (x, e) ↦
      let shape : (db'.workspaces ≡ db.workspaces)
          × (db'.event_queue ≡ update (is_event id) (ack_row now) db.event_queue) =
        ground arith in
      rw (shape.0) (
        rw (shape.1) (
          All-update (FitsAll db.workspaces) (FitsAll db.workspaces) (is_event id) (ack_row now)
            db.event_queue (λ y f m. f) (λ y f m. f) k))
]

pub quarantine-IsNumbered :
    (now : ℕ) (id : String) (db : Db) → IsNumbered db → IsNumbered (quarantine now id db)
unfolding quarantine
quarantine-IsNumbered now id db =
    All-update (FitsAll db.workspaces) (FitsAll db.workspaces) (unacked id) (quarantine_row now)
      db.event_queue (λ y f m. f) (λ y f m. f)

pub cleanup-IsNumbered :
    (before : ℕ) (db : Db) → IsNumbered db → IsNumbered (cleanup_acknowledged before db).0
unfolding cleanup_acknowledged
cleanup-IsNumbered before db = All-delete (FitsAll db.workspaces) (is_stale before) db.event_queue
