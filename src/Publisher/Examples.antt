-- ===== src/Publisher/Examples.antt =====
-- Flushes of a small queue by internal/app/app.go.
use overgent.Prelude.Tables.Rows.{distinct}
use overgent.Store.Queue.{pending}
use overgent.Prelude.{
  ℕ, ◌≤◌, String, ◌≡◌, refl, true, false, Option, none, some, List, [], ◌∷◌, map, str_eq,
  if◌then◌else◌, All,
}
use overgent.Prelude.Tables.{find, select, any}
use overgent.Config
use overgent.Config.{Config}
use overgent.Store.{Db, empty_db, event_of, Event}
use overgent.Store.Workspaces.{upsert_workspace, workspaces}
use overgent.Store.Sequences.Reachable.{Reach}
use overgent.Store.Examples.{codec, shown, event, small}
use overgent.Publisher.{Outside, Run, flush, to_send, workspace_by_id}
use overgent.Publisher.Failures.{Failure, retry_delay, permanent_rejection}
use overgent.Publisher.Stamps.{
  unstamped, flush_only_stamps, flush_reaches, AreAnswers, paused_untouched,
}
use overgent.Publisher.Acceptance.{IsDone}
use overgent.Publisher.Delivery.{IsBound, flush_delivers}
use overgent.Publisher.Outage.{outage_keeps_queue}
use overgent.Publisher.Delays.{retry_delay_bounds}

abbrev offline : Failure
offline = record { api = none; is_canceled = false; lowered = "connection refused" }

-- Backends whose every answer is the same.
abbrev answering : Option Failure → Outside ℕ
answering f = record {
  codec = codec;
  send = λ s w b. (s, f);
  has_factory = true;
  build = λ b. true;
  describe = λ e. offline;
}

abbrev acme : Config.Backend
acme = record { id = "bk"; api_base_url = "https://acme"; device_id = "d1"; kind = "team" }

abbrev registered : Config.Workspace
registered = record {
  id = "w1";
  project_id = "p1";
  workstream = "s1";
  root = "/r";
  baseline = "b";
  fingerprint = "f";
  member_id = "m1";
  session_id = "x1";
}

abbrev profile : Config
profile = record {
  version = 2;
  backends = acme ∷ [];
  projects = record { id = "p1"; backend_id = "bk" } ∷ [];
  workspaces =
      record {
        id = "w1";
        project_id = "p1";
        workstream = "s1";
        root = "/r";
        baseline = "b";
        fingerprint = "f";
        member_id = "m1";
        session_id = "x1";
      }
      ∷ [];
}

abbrev running : Db → Run ℕ
running db = record {
  service = record { db = db; config = profile; senders = []; publish_error = "" };
  server = 0;
}

flush_only_stamps_example :
    map unstamped (flush (answering none) 5 (running small)).0.service.db.event_queue
    ≡ map unstamped small.event_queue
flush_only_stamps_example = (flush_only_stamps (answering none) 5 (running small)).0

flush_reaches_example :
    (r : Reach codec small (flush (answering none) 5 (running small)).0.service.db) × AreAnswers
      (answering none)
      r
flush_reaches_example = flush_reaches (answering none) 5 (running small)

abbrev resting : Db
resting = record small {
  workspaces =
      record {
        shown = record shown { paused = true };
        registration_enqueued = true;
        sequence = 2;
        intent_revision = 0;
      }
      ∷ [];
}

paused_untouched_example :
    select (event_of "w1") (flush (answering none) 5 (running resting)).0.service.db.event_queue
    ≡ select (event_of "w1") resting.event_queue
unfolding overgent.Prelude.Tables.find overgent.Store.Workspaces.workspaces
    overgent.Prelude.Tables.Order.sort_by overgent.Prelude.Tables.Rows.distinct
    overgent.Prelude.Tables.any
paused_untouched_example = paused_untouched (answering none) 5 "w1" (running resting) refl refl

outage_keeps_queue_example :
    ((flush (answering (some offline)) 5 (running small)).0.service.db ≡ small)
    × ((flush (answering (some offline)) 5 (running small)).1 ≡ false)
unfolding overgent.Publisher.Failures.permanent_rejection select overgent.Store.Queue.pending
    overgent.Prelude.Tables.Order.sort_by overgent.Prelude.Tables.find
    overgent.Store.Workspaces.workspaces
outage_keeps_queue_example =
    outage_keeps_queue (answering (some offline)) 5 (running small) (event "e1" 1)
      (event "e2" 2 ∷ []) (λ s w b. (offline, refl, refl)) refl

retry_delay_bounds_example : 400000000 ≤ retry_delay 3 (some 7)
retry_delay_bounds_example = (retry_delay_bounds 3 9 7).0

w1-IsBound : IsBound profile "w1"
unfolding workspace_by_id Config.backend_for_workspace Config.bound_to
w1-IsBound = (registered, acme, refl, refl, refl)

flush_delivers_example :
    All
      (IsDone (flush (answering none) 5 (running small)).0.service.db)
      (select (to_send (workspaces small)) (pending small))
    × ((flush (answering none) 5 (running small)).1 ≡ true)
unfolding pending select overgent.Prelude.Tables.Order.sort_by find workspaces
flush_delivers_example =
    flush_delivers (answering none) 5 (running small) (λ s w b. refl) refl (λ b. refl) tt
      (w1-IsBound, (w1-IsBound, tt)) (refl, (refl, tt))

abbrev rejection : Failure
rejection = record {
  api = some (record { status = 422; retryable = false });
  is_canceled = false;
  lowered = "invalid";
}

abbrev verdict_of : String → Option Failure
verdict_of body = if str_eq body "bad" then some rejection else none

abbrev first_of_all : List String → String
first_of_all [] = ""
first_of_all (x ∷ xs) = x

-- A backend that refuses one payload for good.
abbrev picky : Outside ℕ
picky = record (answering none) {
  codec = record codec { marshal_batch = first_of_all };
  send = λ s w b. (s, verdict_of b);
}

abbrev poison : Event
poison = record (event "e2" 2) { payload = "bad" }

abbrev poisoned : Db
poisoned = record small { event_queue = event "e1" 1 ∷ poison ∷ [] }
