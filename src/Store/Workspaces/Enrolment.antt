-- ===== src/Store/Workspaces/Enrolment.antt =====
-- A workspace introduces itself to a backend once, and again after it is rebound.
use overgent.Store.{
  Db, Event, Codec, WorkspaceRow, Workspace, is_workspace, is_event, event_of, clashes,
  insert_event,
}
use overgent.Store.Queue.{cursor_of}
use overgent.Store.Workspaces.{
  upsert_workspace, note_project, drop_stale, put_workspace, register, registration,
  registration_event_id, overwrite, new_row, has_stale_root, set_registered, rebind_workspace,
  rebind_row,
}
use overgent.Prelude.{
  ℕ, ◌+◌, String, ◌≡◌, refl, ap, ◌∙◌, ◌≢◌, true, false, Option, none, some, List, [], ◌∷◌, ◌++◌,
  arith, eq_iff, eq_refl, ok,
}
use overgent.Prelude.Tables.{
  find, select, delete, update, any, any-delete_self, find-delete_ne, select-delete_self,
  select-append, find-update_self, find-upsert_self,
}

-- The database once the row of the workspace is written, before the registration.
abbrev pub written : Workspace → Db → Db
written w db = put_workspace w (drop_stale w (note_project w db))

module _ (w : Workspace) (db : Db) where
  pub event_queue-written : (written w db).event_queue ≡ db.event_queue
  unfolding put_workspace drop_stale note_project
  event_queue-written = refl

  pub cursors-written : (written w db).cursors ≡ db.cursors
  unfolding put_workspace drop_stale note_project
  cursors-written = refl

  pub find-written :
      find (is_workspace w.id) (written w db).workspaces
      ≡ (elim (find (is_workspace w.id) db.workspaces) [
        | none ↦ some (new_row w)
        | some old ↦ some (overwrite w old)
      ])
  unfolding put_workspace drop_stale note_project
  find-written =
      find-upsert_self (is_workspace w.id) (overwrite w) (new_row w)
        (delete (has_stale_root w) db.workspaces) (λ x m. eq_refl w.id) (eq_refl w.id)
      ∙ ap
          (λ (o : Option WorkspaceRow). elim o [
            | none ↦ some (new_row w)
            | some old ↦ some (overwrite w old)
          ])
          (find-delete_ne (has_stale_root w) (is_workspace w.id) db.workspaces
            (λ x m. ground arith))

  registered_row :
      (row : WorkspaceRow)
      → find (is_workspace w.id) db.workspaces ≡ some row
      → find (is_workspace w.id) (written w db).workspaces ≡ some (overwrite w row)
  registered_row row e = ground (arith, find-written)

-- A workspace whose registration was queued is not registered again: the queue and the cursors stay
-- as they are, the row takes the new identity, and keeps whether it is paused, its revision and its
-- counter.
upsert_registered :
    (codec : Codec) (now : ℕ) (w : Workspace) (db : Db) (row : WorkspaceRow)
    → find (is_workspace w.id) db.workspaces ≡ some row
    → row.registration_enqueued ≡ true
    → (db' : Db) × (upsert_workspace codec now w db ≡ ok db')
      × (db'.event_queue ≡ db.event_queue)
      × (db'.cursors ≡ db.cursors)
      × (find (is_workspace w.id) db'.workspaces
          ≡ some (record row { shown = record w { paused = row.paused; revision = row.revision } }))
unfolding upsert_workspace register
upsert_registered codec now w db row found once = (
  written w db,
  ground (arith, registered_row w db row found),
  event_queue-written w db,
  cursors-written w db,
  registered_row w db row found,
)

select-event_of_new :
    (id : String) (new : Event) (es : List Event)
    → new.workspace_id ≡ id
    → select (event_of id) (delete (event_of id) es ++ new ∷ []) ≡ new ∷ []
unfolding select
select-event_of_new id new es h =
    rw (select-append, select-delete_self) (ground (arith, eq_iff new.workspace_id id))

select-other_new :
    (id j : String) (new : Event) (es : List Event)
    → new.workspace_id ≡ id
    → id ≢ j
    → select (event_of j) (delete (event_of id) es ++ new ∷ []) ≡ select (event_of j) es
unfolding select delete
select-other_new id j new [] h n = ground (arith, eq_iff new.workspace_id j)
select-other_new id j new (e ∷ es) h n =
    ground
      (arith, select-other_new id j new es h n, eq_iff e.workspace_id id, eq_iff e.workspace_id j)

no_clash_after_delete :
    (id : String) (new : Event) (es : List Event)
    → new.workspace_id ≡ id
    → any (is_event new.id) (delete (event_of id) es) ≡ false
    → any (clashes new) (delete (event_of id) es) ≡ false
unfolding any delete
no_clash_after_delete id new [] h fresh = refl
no_clash_after_delete id new (e ∷ es) h fresh = ground (
  arith,
  no_clash_after_delete id new es h,
  eq_iff e.workspace_id id,
  eq_iff e.workspace_id new.workspace_id,
)

rebind_shape :
    (id device backend : String) (db mid : Db)
    → rebind_workspace id device backend db ≡ ok mid
    → (mid.event_queue ≡ delete (event_of id) db.event_queue)
      × (mid.cursors ≡ delete (cursor_of id) db.cursors)
unfolding rebind_workspace
rebind_shape id device backend db mid h = (ground arith, ground arith)

rebind_row_found :
    (id device backend : String) (db mid : Db) (row : WorkspaceRow)
    → rebind_workspace id device backend db ≡ ok mid
    → find (is_workspace id) db.workspaces ≡ some row
    → find (is_workspace id) mid.workspaces ≡ some (rebind_row device backend row)
unfolding rebind_workspace
rebind_row_found id device backend db mid row h found =
    let same : mid.workspaces ≡ update (is_workspace id) (rebind_row device backend) db.workspaces =
      ground arith in
    rw same (
      find-update_self (is_workspace id) (rebind_row device backend) db.workspaces row (λ x m. m)
        found)

-- After a rebind the workspace's row names the new device and the new backend, and asks for a
-- registration. The next upsert of the workspace under that device and backend introduces it there: its
-- row stays with the new device and backend, its queue holds the registration alone, under the number
-- after its counter, onto which the counter moves, nothing of it is acknowledged, and the other
-- workspaces' events are all kept. No event of another workspace has the id of the registration.
pub rebind_reintroduces :
    (codec : Codec) (now : ℕ) (w : Workspace) (db mid : Db) (row : WorkspaceRow)
    → rebind_workspace w.id w.device_id w.backend_id db ≡ ok mid
    → find (is_workspace w.id) db.workspaces ≡ some row
    → any (is_event (registration_event_id codec w.project_id w.device_id w.id)) mid.event_queue
      ≡ false
    → (find (is_workspace w.id) mid.workspaces
        ≡ some (record row {
          shown = record row.shown { device_id = w.device_id; backend_id = w.backend_id };
          registration_enqueued = false;
        }))
      × (db' : Db) × (upsert_workspace codec now w mid ≡ ok db')
      × (find (is_workspace w.id) db'.workspaces
          ≡ some (record row {
            shown = record w { paused = row.paused; revision = row.revision };
            registration_enqueued = true;
            sequence = row.sequence + 1;
          }))
      × (select (event_of w.id) db'.event_queue
          ≡ registration codec now w (overwrite w (rebind_row w.device_id w.backend_id row)) ∷ [])
      × (any (cursor_of w.id) db'.cursors ≡ false)
      × ((j : String)
          → w.id ≢ j
          → select (event_of j) db'.event_queue ≡ select (event_of j) db.event_queue)
unfolding upsert_workspace register insert_event
rebind_reintroduces codec now w db mid row h found fresh = (
  rebind_row_found w.id w.device_id w.backend_id db mid row h found,
  record (written w mid) {
    event_queue = mid.event_queue ++ new ∷ [];
    workspaces =
        update (is_workspace w.id) (set_registered (row.sequence + 1)) (written w mid).workspaces;
  },
  ground (arith, written_row, event_queue-written w mid, clear),
  find-update_self (is_workspace w.id) (set_registered (row.sequence + 1))
      (written w mid).workspaces (overwrite w (rebind_row w.device_id w.backend_id row)) (λ x m. m)
      written_row,
  rw (shape.0) (select-event_of_new w.id new db.event_queue refl),
  rw (cursors-written w mid, shape.1) (any-delete_self (cursor_of w.id) db.cursors),
  λ j n. rw (shape.0) (select-other_new w.id j new db.event_queue refl n),
)
  where
    new : Event
    new = registration codec now w (overwrite w (rebind_row w.device_id w.backend_id row))

    shape :
        (mid.event_queue ≡ delete (event_of w.id) db.event_queue)
        × (mid.cursors ≡ delete (cursor_of w.id) db.cursors)
    shape = rebind_shape w.id w.device_id w.backend_id db mid h

    written_row :
        find (is_workspace w.id) (written w mid).workspaces
        ≡ some (overwrite w (rebind_row w.device_id w.backend_id row))
    written_row =
        registered_row w mid (rebind_row w.device_id w.backend_id row)
          (rebind_row_found w.id w.device_id w.backend_id db mid row h found)

    clear : any (clashes new) mid.event_queue ≡ false
    clear =
        rw (shape.0) (no_clash_after_delete w.id new db.event_queue refl (rw (shape.0) at fresh))
