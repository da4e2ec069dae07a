-- ===== src/Store/Sequences/Steps.antt =====
-- Every operation on the queue or on the workspaces keeps the sequence numbers in range.
use overgent.Store.Manifests
use overgent.Store.Manifests.{
  publish_manifest, replace_manifest, insert_all, manifest_events, set_revision,
}
use overgent.Store.Sequences.Inserts.{insert_all-Within}
use overgent.Prelude.{
  ℕ, ◌+◌, String, ◌≡◌, refl, ◌∙◌, inl, inr, Bool, some, List, [], ◌∷◌, arith, str_eq→eq,
  Option-cases, length, All-append, ok, Result-cases,
}
use overgent.Prelude.Tables.{find, update, find_holds}
use overgent.Store.{Db, Event, Codec, WorkspaceRow, is_workspace, insert_event}
use overgent.Store.Payload.{Json}
use overgent.Store.Queue.{queued, set_sequence, enqueue_event}
use overgent.Store.Lifecycle
use overgent.Store.Lifecycle.{
  publish_lifecycle, publish_new, insert_events, next_revision, set_counters, finish, events,
  is_refused, is_key,
}
use overgent.Store.Manifests
use overgent.Store.Sequences.{FitsAll, Within, IsNumbered, Sets, new_fits, raise-Within}
use overgent.Store.Sequences.Inserts.{insert_event_lem, insert_events-Within}

abbrev by_one : (n : ℕ) → Sets n (set_sequence n)
by_one n = record { same_id = λ w. refl; counter = λ w. refl }

found_id :
    (id : String) (ws : List WorkspaceRow) (row : WorkspaceRow)
    → find (is_workspace id) ws ≡ some row
    → row.id ≡ id
found_id id ws row h = str_eq→eq row.id id (find_holds (is_workspace id) ws row h)

-- One event under the next number, and the counter moved onto it.
pub insert_one :
    (id : String) (row : WorkspaceRow) (new : Event) (f : WorkspaceRow → WorkspaceRow) (db mid : Db)
    → Sets (row.sequence + 1) f
    → find (is_workspace id) db.workspaces ≡ some row
    → new.workspace_id ≡ row.id
    → new.sequence ≡ row.sequence + 1
    → insert_event new db ≡ ok mid
    → IsNumbered db
    → Within (update (is_workspace id) f mid.workspaces) mid.event_queue
insert_one id row new f db mid sets found owner number h k =
    rw ((insert_event_lem new db mid h).1) (
      All-append (FitsAll (update (is_workspace id) f db.workspaces)) db.event_queue (new ∷ [])
        (raise-Within id (row.sequence + 1) f sets row db.workspaces db.event_queue found
          (omega arith) k)
        (
          new_fits id (row.sequence + 1) f sets new db.workspaces
              (owner ∙ found_id id db.workspaces row found) (omega arith),
          tt,
        ))

replace_manifest_lem :
    (row : WorkspaceRow) (q : Manifests.Publication) (db db' : Db)
    → replace_manifest row q db ≡ ok db'
    → (db'.event_queue ≡ db.event_queue) × (db'.workspaces ≡ db.workspaces)
unfolding replace_manifest
replace_manifest_lem row q db db' h = ground arith

pub enqueue-IsNumbered :
    (codec : Codec) (now : ℕ) (workspace id source kind : String) (payload : Json) (db db' : Db)
    → enqueue_event codec now workspace id source kind payload db ≡ ok db'
    → IsNumbered db
    → IsNumbered db'
unfolding enqueue_event
enqueue-IsNumbered codec now workspace id source kind payload db db' h k =
    elim (Option-cases (find (is_workspace workspace) db.workspaces)) [
      | inl e ↦ absurd (ground arith)
      | inr (row, e) ↦
          let new = queued codec row now id (row.sequence + 1) source kind payload in
          elim (Result-cases (insert_event new db)) [
            | inr (x, p) ↦ absurd (ground arith)
            | inl (mid, p) ↦
                let same : db' ≡ record mid {
                  workspaces =
                      update (is_workspace workspace) (set_sequence (row.sequence + 1))
                        mid.workspaces;
                } =
                  ground arith in
                rw same (
                  insert_one workspace row new (set_sequence (row.sequence + 1)) db mid
                    (by_one (row.sequence + 1)) e refl refl p k)
          ]
    ]

pub lifecycle-IsNumbered :
    (codec : Codec) (now : ℕ) (q : Lifecycle.Publication) (db db' : Db) (r : ℕ) (duplicate : Bool)
    → publish_new codec now q db ≡ ok (db', r, duplicate)
    → IsNumbered db
    → IsNumbered db'
unfolding publish_new
lifecycle-IsNumbered codec now q db db' r duplicate h k =
    elim (Option-cases (find (is_workspace q.workspace_id) db.workspaces)) [
      | inl e ↦ absurd (ground arith)
      | inr (row, e) ↦ elim (Result-cases (next_revision q row.intent_revision)) [
        | inr (x, p) ↦ absurd (ground arith)
        | inl (rev, p) ↦ elim (Result-cases (insert_events codec now q row 0 (events q) db)) [
          | inr (x, s) ↦ absurd (ground arith)
          | inl (mid, s) ↦
              let n : ℕ = row.sequence + length (events q) in
              let f : WorkspaceRow → WorkspaceRow = set_counters n rev in
              let sets : Sets n f = record { same_id = λ w. refl; counter = λ w. refl } in
              let named = found_id q.workspace_id db.workspaces row e in
              let (within, same) =
                insert_events-Within codec (update (is_workspace q.workspace_id) f db.workspaces)
                  now n row
                  (λ new o b. new_fits q.workspace_id n f sets new db.workspaces (o ∙ named) b) q 0
                  (events q) db mid (omega arith) s
                  (raise-Within q.workspace_id n f sets row db.workspaces db.event_queue e
                    (omega arith) k) in
              let shape : db' ≡ (record mid {
                workspaces = update (is_workspace q.workspace_id) f mid.workspaces;
                idempotency_keys = db'.idempotency_keys;
              }) =
                ground arith in
              rw shape (rw same within)
        ]
      ]
    ]

pub manifest-IsNumbered :
    (codec : Codec) (now : ℕ) (q : Manifests.Publication) (db db' : Db) (r : ℕ)
    → publish_manifest codec now q db ≡ ok (db', r)
    → IsNumbered db
    → IsNumbered db'
unfolding publish_manifest
manifest-IsNumbered codec now q db db' r h k =
    elim (Option-cases (find (is_workspace q.workspace_id) db.workspaces)) [
      | inl e ↦ absurd (ground arith)
      | inr (row, e) ↦ elim (Result-cases (replace_manifest row q db)) [
        | inr (x, p) ↦ absurd (ground arith)
        | inl (start, p) ↦
            elim (Result-cases (insert_all codec now row 0 (manifest_events codec row q) start)) [
              | inr (x, s) ↦ absurd (ground arith)
              | inl (mid, s) ↦
                  let n : ℕ = row.sequence + length (manifest_events codec row q) in
                  let f : WorkspaceRow → WorkspaceRow = set_revision (row.revision + 1) n in
                  let sets : Sets n f = record { same_id = λ w. refl; counter = λ w. refl } in
                  let named = found_id q.workspace_id db.workspaces row e in
                  let kept = replace_manifest_lem row q db start p in
                  let (within, same) =
                    insert_all-Within codec (update (is_workspace q.workspace_id) f db.workspaces)
                      now n row
                      (λ new o b. new_fits q.workspace_id n f sets new db.workspaces (o ∙ named) b)
                      0 (manifest_events codec row q) start mid (omega arith) s
                      (rw (kept.0) (
                        raise-Within q.workspace_id n f sets row db.workspaces db.event_queue e
                          (omega arith) k)) in
                  let shape : db' ≡ (record mid {
                    workspaces = update (is_workspace q.workspace_id) f mid.workspaces;
                  }) =
                    ground arith in
                  rw shape (rw (same ∙ kept.1) within)
            ]
      ]
    ]
