-- ===== src/Store/Examples/Queue.antt =====
-- Runs of the event queue of internal/store/store.go.
use overgent.Prelude.{max, String, ◌≡◌, refl, ◌≢◌, false, none, [], ◌∷◌, ◌++◌, ok, err}
use overgent.Prelude.Tables.{find, update, any}
use overgent.Store.{Db, is_event, is_workspace, empty_db, no_rows}
use overgent.Store.Payload.{null}
use overgent.Store.Queue.{ack, cursor, enqueue_event, queued, set_sequence}
use overgent.Store.Queue.Drain.{waits, acknowledged, ack_exact}
use overgent.Store.Workspaces.{upsert_workspace}
use overgent.Store.Sequences.{IsNumbered}
use overgent.Store.Sequences.Reachable.{
  Reach, AreOrderly, IsOrderly, here, next, upserted, enqueued, Reach-IsNumbered, enqueue_accepted,
}
use overgent.Store.Examples.{codec, shown, row, event, small, db_of}

ack_exact_example :
    (db' : Db) × (ack 5 "e2" small ≡ ok db')
    × (any (waits "e2") db'.event_queue ≡ false)
    × ((j : String)
        → "e2" ≢ j
        → find (is_event j) db'.event_queue ≡ find (is_event j) small.event_queue)
    × (cursor "w1" db' ≡ ok (max (acknowledged "w1" small) 2))
    × ((w : String) → "w1" ≢ w → cursor w db' ≡ cursor w small)
    × ((x : String) → find (is_event x) small.event_queue ≡ none → ack 5 x small ≡ err no_rows)
unfolding find
ack_exact_example = ack_exact 5 "e2" small (event "e2" 2) refl

abbrev batch_text : String
batch_text = "batch"

abbrev started : Db
started = db_of (upsert_workspace codec 0 shown empty_db)

abbrev noted : Db
noted = db_of (enqueue_event codec 1 "w1" "e1" "manual" "note" null started)

unfoldable noted_trace : Reach codec empty_db noted
unfolding any upsert_workspace enqueue_event
noted_trace =
    next (next here (upserted 0 shown refl)) (enqueued 1 "w1" "e1" "manual" "note" null refl)

noted_AreOrderly : AreOrderly codec noted_trace
unfolding AreOrderly IsOrderly noted_trace
noted_AreOrderly = ((tt, refl), tt)

Reach-IsNumbered_example : IsNumbered noted
Reach-IsNumbered_example = Reach-IsNumbered codec noted_trace noted_AreOrderly

enqueue_accepted_example :
    enqueue_event codec 2 "w1" "e2" "manual" "note" null noted
    ≡ ok (record noted {
      event_queue =
          noted.event_queue
          ++ queued codec (record row { sequence = 2 }) 2 "e2" 3 "manual" "note" null ∷ [];
      workspaces = update (is_workspace "w1") (set_sequence 3) noted.workspaces;
    })
unfolding find enqueue_event upsert_workspace
enqueue_accepted_example =
    enqueue_accepted codec 2 "w1" "e2" "manual" "note" null noted (record row { sequence = 2 })
      noted_trace noted_AreOrderly refl refl
