-- ===== src/Store/Sequences/Registration.antt =====
-- Registration, rebinding, deletion and pausing keep the sequence numbers in range.
use overgent.Prelude.{
  ℕ, ◌+◌, String, ◌≡◌, refl, inl, inr, Bool, true, false, ◌||◌, not, List, [], ◌∷◌, ◌++◌, arith,
  eq_iff, Bool-cases, Option-cases, All-append, All-mono, ok, Result-cases,
}
use overgent.Prelude.Tables.{find, delete, update, any, any-delete_ne}
use overgent.Prelude.Tables.Rows.{All-update, All-delete}
use overgent.Store.{Db, Event, Codec, WorkspaceRow, Workspace, is_workspace, event_of, insert_event}
use overgent.Store.Workspaces.{
  upsert_workspace, note_project, drop_stale, put_workspace, register, registration, overwrite,
  new_row, has_stale_root, set_registered, rebind_workspace, rebind_row, delete_workspace,
  set_paused, pause_row, set_project_paused, in_project,
}
use overgent.Store.Sequences.{fits, FitsAll, Within, IsNumbered}
use overgent.Store.Sequences.Steps.{insert_one}

-- Changing rows in other columns than the id and the counter.
module _ (q : WorkspaceRow → Bool) (f : WorkspaceRow → WorkspaceRow)
    (same_id : (w : WorkspaceRow) → q w ≡ true → (f w).id ≡ w.id)
    (same_count : (w : WorkspaceRow) → (f w).sequence ≡ w.sequence) where
  update-Within :
      (ws : List WorkspaceRow) (es : List Event) → Within ws es → Within (update q f ws) es
  update-Within ws = All-mono (FitsAll ws) (FitsAll (update q f ws)) (λ e.
      All-update (λ (w : WorkspaceRow). fits e w ≡ true) (λ (w : WorkspaceRow). fits e w ≡ true) q f
        ws (λ w k m. ground (arith, same_id w m, same_count w)) (λ w k m. k))

delete-Within :
    (q : WorkspaceRow → Bool) (ws : List WorkspaceRow) (es : List Event)
    → Within ws es
    → Within (delete q ws) es
delete-Within q ws =
    All-mono (FitsAll ws) (FitsAll (delete q ws))
      (λ e. All-delete (λ (w : WorkspaceRow). fits e w ≡ true) q ws)

-- A new workspace's counter starts at 0, so no event may bear its id yet.
append-Within :
    (w : WorkspaceRow) (ws : List WorkspaceRow) (es : List Event)
    → any (event_of w.id) es ≡ false
    → Within ws es
    → Within (ws ++ w ∷ []) es
unfolding any
append-Within w ws [] n h = tt
append-Within w ws (e ∷ es) n h = (
  All-append (λ (x : WorkspaceRow). fits e x ≡ true) ws (w ∷ []) h.0
      (ground (arith, eq_iff w.id e.workspace_id, eq_iff e.workspace_id w.id), tt),
  append-Within w ws es (ground arith) h.1,
)

-- The workspace is registered already, or nothing is queued under its id.
abbrev pub may_enrol : Workspace → Db → Bool
may_enrol w db = any (is_workspace w.id) db.workspaces || not (any (event_of w.id) db.event_queue)

still_registered :
    (w : Workspace) (ws : List WorkspaceRow)
    → any (is_workspace w.id) (delete (has_stale_root w) ws) ≡ any (is_workspace w.id) ws
still_registered w ws =
    any-delete_ne (has_stale_root w) (is_workspace w.id) ws (λ x m. ground arith)

put-IsNumbered :
    (w : Workspace) (db : Db)
    → may_enrol w db ≡ true
    → IsNumbered db
    → IsNumbered (put_workspace w (drop_stale w (note_project w db)))
unfolding put_workspace drop_stale note_project
put-IsNumbered w db m k =
    let kept = delete (has_stale_root w) db.workspaces in
    elim (Bool-cases (any (is_workspace w.id) kept)) [
      | inl e ↦ rw e (
          update-Within (is_workspace w.id) (overwrite w) (λ x p. ground (arith, eq_iff x.id w.id))
            (λ x. refl) kept db.event_queue
            (delete-Within (has_stale_root w) db.workspaces db.event_queue k))
      | inr e ↦ rw e (
          append-Within (new_row w) kept db.event_queue
            (ground (arith, still_registered w db.workspaces))
            (delete-Within (has_stale_root w) db.workspaces db.event_queue k))
    ]

register-IsNumbered :
    (codec : Codec) (now : ℕ) (w : Workspace) (db db' : Db)
    → register codec now w db ≡ ok db'
    → IsNumbered db
    → IsNumbered db'
unfolding register
register-IsNumbered codec now w db db' h k =
    elim (Option-cases (find (is_workspace w.id) db.workspaces)) [
      | inl e ↦ absurd (ground arith)
      | inr (row, e) ↦ elim (Bool-cases row.registration_enqueued) [
        | inl p ↦ let same : db ≡ db' = ground arith in rw (← same) k
        | inr p ↦ elim (Result-cases (insert_event (registration codec now w row) db)) [
          | inr (x, s) ↦ absurd (ground arith)
          | inl (mid, s) ↦
              let f : WorkspaceRow → WorkspaceRow = set_registered (row.sequence + 1) in
              let same : db'
                  ≡ record mid { workspaces = update (is_workspace w.id) f mid.workspaces } =
                ground arith in
              rw same (
                insert_one w.id row (registration codec now w row) f db mid
                  (record { same_id = λ x. refl; counter = λ x. refl }) e refl refl s k)
        ]
      ]
    ]

pub upsert-IsNumbered :
    (codec : Codec) (now : ℕ) (w : Workspace) (db db' : Db)
    → may_enrol w db ≡ true
    → upsert_workspace codec now w db ≡ ok db'
    → IsNumbered db
    → IsNumbered db'
unfolding upsert_workspace
upsert-IsNumbered codec now w db db' m h k =
    register-IsNumbered codec now w (put_workspace w (drop_stale w (note_project w db))) db' h
      (put-IsNumbered w db m k)

pub rebind-IsNumbered :
    (id device backend : String) (db db' : Db)
    → rebind_workspace id device backend db ≡ ok db'
    → IsNumbered db
    → IsNumbered db'
unfolding rebind_workspace
rebind-IsNumbered id device backend db db' h k =
    let ws = update (is_workspace id) (rebind_row device backend) db.workspaces in
    let es = delete (event_of id) db.event_queue in
    let shape : (db'.workspaces ≡ ws) × (db'.event_queue ≡ es) = ground arith in
    rw (shape.0) (
      rw (shape.1) (
        All-delete (FitsAll ws) (event_of id) db.event_queue (
          update-Within (is_workspace id) (rebind_row device backend) (λ x p. refl) (λ x. refl)
            db.workspaces db.event_queue k)))

pub delete-IsNumbered :
    (id : String) (db db' : Db) → delete_workspace id db ≡ ok db' → IsNumbered db → IsNumbered db'
unfolding delete_workspace
delete-IsNumbered id db db' h k =
    let ws = delete (is_workspace id) db.workspaces in
    let es = delete (event_of id) db.event_queue in
    let shape : (db'.workspaces ≡ ws) × (db'.event_queue ≡ es) = ground arith in
    rw (shape.0) (
      rw (shape.1) (
        All-delete (FitsAll ws) (event_of id) db.event_queue
          (delete-Within (is_workspace id) db.workspaces db.event_queue k)))

pub pause-IsNumbered :
    (id : String) (p : Bool) (db db' : Db)
    → set_paused id p db ≡ ok db'
    → IsNumbered db
    → IsNumbered db'
unfolding set_paused
pause-IsNumbered id p db db' h k =
    let ws = update (is_workspace id) (pause_row p) db.workspaces in
    let shape : (db'.workspaces ≡ ws) × (db'.event_queue ≡ db.event_queue) = ground arith in
    rw (shape.0) (
      rw (shape.1) (
        update-Within (is_workspace id) (pause_row p) (λ x m. refl) (λ x. refl) db.workspaces
          db.event_queue k))

pub pause_project-IsNumbered :
    (id : String) (p : Bool) (db db' : Db) (n : ℕ)
    → set_project_paused id p db ≡ ok (db', n)
    → IsNumbered db
    → IsNumbered db'
unfolding set_project_paused
pause_project-IsNumbered id p db db' n h k =
    let ws = update (in_project id) (pause_row p) db.workspaces in
    let shape : (db'.workspaces ≡ ws) × (db'.event_queue ≡ db.event_queue) = ground arith in
    rw (shape.0) (
      rw (shape.1) (
        update-Within (in_project id) (pause_row p) (λ x m. refl) (λ x. refl) db.workspaces
          db.event_queue k))
