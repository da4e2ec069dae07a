-- ===== src/Store/Examples/Workspaces.antt =====
-- Runs of the registration of workspaces in internal/store/store.go.
use overgent.Prelude.{true, some, ◌+◌, String, ◌≡◌, refl, ◌≢◌, false, [], ◌∷◌, ok, err, str_neq}
use overgent.Prelude.Tables.{find, select, any}
use overgent.Store.{Db, constraint, event_of, empty_db, Workspace, is_workspace}
use overgent.Store.Queue.{cursor_of}
use overgent.Store.Workspaces.{
  upsert_workspace, rebind_workspace, delete_workspace, registration_event_id, registration,
  overwrite, rebind_row,
}
use overgent.Store.Workspaces.Enrolment.{rebind_reintroduces}
use overgent.Store.Workspaces.Deletion.{trace, no_trace, delete_exact, reenrolment_refused}
use overgent.Store.Examples.{codec, shown, row, event, small, db_of}

-- The workspace under the device and the backend that it is rebound to.
abbrev moved : Workspace
moved = record shown { device_id = "d2"; backend_id = "bk2" }

rebind_reintroduces_example :
    (find (is_workspace "w1") (db_of (rebind_workspace "w1" "d2" "bk2" small)).workspaces
      ≡ some (record row {
        shown = record row.shown { device_id = "d2"; backend_id = "bk2" };
        registration_enqueued = false;
      }))
    × (db' : Db) × (upsert_workspace codec 5 moved (db_of (rebind_workspace "w1" "d2" "bk2" small))
        ≡ ok db')
    × (find (is_workspace "w1") db'.workspaces
        ≡ some (record row {
          shown = record moved { paused = row.paused; revision = row.revision };
          registration_enqueued = true;
          sequence = row.sequence + 1;
        }))
    × (select (event_of "w1") db'.event_queue
        ≡ registration codec 5 moved (overwrite moved (rebind_row "d2" "bk2" row)) ∷ [])
    × (any (cursor_of "w1") db'.cursors ≡ false)
    × ((j : String)
        → "w1" ≢ j
        → select (event_of j) db'.event_queue ≡ select (event_of j) small.event_queue)
unfolding rebind_workspace find any
rebind_reintroduces_example =
    rebind_reintroduces codec 5 moved small (db_of (rebind_workspace "w1" "d2" "bk2" small)) row
      refl refl refl

delete_exact_example :
    (db' : Db) × (delete_workspace "w1" small ≡ ok db')
    × (trace "w1" db' ≡ no_trace)
    × ((j : String) → "w1" ≢ j → trace j db' ≡ trace j small)
    × (db'.projects ≡ small.projects)
    × (db'.deliveries ≡ small.deliveries)
    × (db'.focus ≡ small.focus)
delete_exact_example = delete_exact "w1" small (str_neq "w1" "" refl)

-- The workspace's row is gone, its registration is queued.
abbrev displaced : Db
displaced = record empty_db {
  event_queue = event (registration_event_id codec "p1" "d1" "w1") 1 ∷ [];
}

reenrolment_refused_example : upsert_workspace codec 5 shown displaced ≡ err constraint
unfolding find any registration_event_id
reenrolment_refused_example = reenrolment_refused codec 5 shown displaced refl refl
