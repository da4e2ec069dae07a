-- ===== src/Publisher.antt =====
-- The publisher of internal/app/app.go: a flush sends each workspace's pending events to its
-- backend, in windows, and acknowledges or quarantines them. A backend is a state and an answer to
-- each batch. What a flush reads of the clock is one instant.
pub mod Failures
pub mod Keeps
pub mod Stamps
pub mod Outage
pub mod Acceptance
pub mod Poison
pub mod Coverage
pub mod Delivery
pub mod Delays
mod Examples
use Failures.{Failure, permanent_rejection, publish_failure_reason}
use overgent.Prelude.{
  ℕ, zero, suc, String, Bool, true, false, ◌||◌, not, Option, none, some, List, [], ◌∷◌, ◌++◌,
  str_eq, if◌then◌else◌, length, take, drop, ok, err,
}
use overgent.Prelude.Tables.{find, select, any}
use overgent.Config
use overgent.Config.{Config, backend_for_workspace}
use overgent.Store
use overgent.Store.{Db, Event, Codec}
use overgent.Store.Queue.{pending, batch, ack, quarantine}
use overgent.Store.Workspaces.{workspaces}

-- What `senderFor` remembers of a backend: whether a publisher could be built.
pub record Built : Type 0 where
  pub backend : String
  pub usable : Bool

-- The fields of a Service that publishing and briefs use; its map `midTurnFetch`, which they do not,
-- is in the Listener of Injection.antt.
pub record Service : Type 0 where
  pub db : Db
  pub config : Config
  pub senders : List Built
  -- `lastPublishError`
  pub publish_error : String

-- The backends and the standard library, as the publisher uses them.
pub record Outside (S : Type 0) : Type 0 where
  pub codec : Codec
  -- the answer to one batch of a workspace, `none` for success
  pub send : S → String → String → S × Option Failure
  -- whether there is a factory of publishers, and whether it builds one for a backend
  pub has_factory : Bool
  pub build : Config.Backend → Bool
  -- an error of the store as a Go error
  pub describe : Store.Error → Failure

pub record Run (S : Type 0) : Type 0 where
  pub service : Service
  pub server : S

abbrev pub with_db : Service → Db → Service
with_db s db = record s { db = db }

abbrev pub record_reason : String → Service → Service
record_reason reason s = record s { publish_error = reason }

abbrev pub record_error : Failure → Service → Service
record_error f = record_reason (publish_failure_reason (some f))

abbrev is_built : String → Built → Bool
is_built id b = str_eq b.backend id

unfoldable pub workspace_by_id : Config → String → Option Config.Workspace
unfolding find
workspace_by_id c id = find (λ (w : Config.Workspace). str_eq w.id id) c.workspaces

module _ {S : Type 0} (o : Outside S) where
  unfoldable pub sender_for : Config.Backend → Service → Service × Bool
  unfolding find
  sender_for backend s =
      if str_eq backend.id "" then (s, false) else elim (find (is_built backend.id) s.senders) [
        | some b ↦ (s, b.usable)
        | none ↦
            let made : Service = record s {
              senders = s.senders ++ record { backend = backend.id; usable = o.build backend } ∷ [];
            } in
            if o.has_factory then (made, o.build backend) else (s, false)
      ]

  unfoldable pub sender_for_workspace : Config.Workspace → Service → Service × Bool
  unfolding sender_for backend_for_workspace
  sender_for_workspace w s = elim (backend_for_workspace s.config w) [
    | none ↦ (s, false)
    | some backend ↦ sender_for backend s
  ]

  unfoldable pub sender_for_workspace_id : String → Service → Service × Bool
  unfolding workspace_by_id sender_for_workspace
  sender_for_workspace_id id s = elim (workspace_by_id s.config id) [
    | none ↦ (s, false)
    | some w ↦ sender_for_workspace w s
  ]

  -- `retryIndividually`; `none` is its success
  unfoldable pub retry_individually : ℕ → String → List Event → Run S → Run S × Option Failure
  unfolding batch ack quarantine permanent_rejection
  retry_individually now workspace [] run = (run, none)
  retry_individually now workspace (e ∷ es) run = elim (batch o.codec (e ∷ [])) [
    | err x ↦ (run, some (o.describe x))
    | ok body ↦
        let (server, answer) = o.send run.server workspace body in
        elim answer [
          | some f ↦
              let refused : Service =
                record_reason "rejected"
                  (with_db run.service (quarantine now e.id run.service.db)) in
              let rest =
                retry_individually now workspace es
                  (record { service = refused; server = server }) in
              if permanent_rejection f
              then rest
              else (record { service = run.service; server = server }, some f)
          | none ↦ elim (ack now e.id run.service.db) [
            | err x ↦ (record { service = run.service; server = server }, some (o.describe x))
            | ok db ↦
                retry_individually now workspace es
                  (record { service = with_db run.service db; server = server })
          ]
        ]
  ]

  unfoldable pub ack_window : ℕ → List Event → Service → Service × Option Failure
  unfolding ack
  ack_window now [] s = (s, none)
  ack_window now (e ∷ es) s = elim (ack now e.id s.db) [
    | err x ↦ (s, some (o.describe x))
    | ok db ↦ ack_window now es (with_db s db)
  ]

-- How the drain of one workspace ends: its events are all handled, its backend failed, or the whole
-- flush gives up.
pub data Outcome : Type 0 where
  drained failed aborted : Outcome

pub record Drain (S : Type 0) : Type 0 where
  pub run : Run S
  pub outcome : Outcome
  pub any_quarantined : Bool

abbrev pub window_size : ℕ
window_size = 100

module _ {S : Type 0} (o : Outside S) where
  abbrev pub stopped : Failure → Outcome → Bool → Run S → Drain S
  stopped f outcome any run = record {
    run = record run { service = record_error f run.service };
    outcome = outcome;
    any_quarantined = any;
  }

  -- The loop over the windows of one workspace, by rounds left.
  unfoldable pub drain : ℕ → ℕ → String → Bool → List Event → Run S → Drain S
  unfolding batch permanent_rejection retry_individually ack_window publish_failure_reason
  drain zero now workspace any events run = record {
    run = run;
    outcome = drained;
    any_quarantined = any;
  }
  drain (suc rounds) now workspace any [] run = record {
    run = run;
    outcome = drained;
    any_quarantined = any;
  }
  drain (suc rounds) now workspace any (e ∷ es) run =
      elim (batch o.codec (take window_size (e ∷ es))) [
        | err x ↦ stopped (o.describe x) aborted any run
        | ok body ↦
            let (server, answer) = o.send run.server workspace body in
            let sent : Run S = record { service = run.service; server = server } in
            elim answer [
              | some f ↦
                  let (retried, stuck) =
                    retry_individually o now workspace (take window_size (e ∷ es)) sent in
                  let rest = drain rounds now workspace true (drop window_size (e ∷ es)) retried in
                  if permanent_rejection f
                  then elim stuck [ some g ↦ stopped g failed any retried | none ↦ rest ]
                  else stopped f failed any sent
              | none ↦
                  let (acked, lost) = ack_window o now (take window_size (e ∷ es)) run.service in
                  elim lost [
                    | some g ↦ stopped g aborted any (record { service = acked; server = server })
                    | none ↦
                        drain rounds now workspace any (drop window_size (e ∷ es))
                          (record { service = acked; server = server })
                  ]
            ]
      ]

-- The maps `paused` and `backendOf` of `flush`: the zero value for a workspace with no row.
abbrev pub is_paused : List Store.Workspace → String → Bool
is_paused ws id = elim (find (λ (w : Store.Workspace). str_eq w.id id) ws) [
  | none ↦ false
  | some w ↦ w.paused
]

abbrev pub backend_of : List Store.Workspace → String → String
backend_of ws id = elim (find (λ (w : Store.Workspace). str_eq w.id id) ws) [
  | none ↦ ""
  | some w ↦ w.backend_id
]

unfoldable pub contains : String → List String → Bool
contains id [] = false
contains id (x ∷ xs) = str_eq x id || contains id xs

abbrev add_once : String → List String → List String
add_once id ids = if contains id ids then ids else ids ++ id ∷ []

abbrev pub to_send : List Store.Workspace → Event → Bool
to_send ws e = not (is_paused ws e.workspace_id)

-- `order`: the workspaces of the events, by first appearance
unfoldable pub order : List String → List Event → List String
unfolding contains
order seen [] = seen
order seen (e ∷ es) = order (add_once e.workspace_id seen) es

abbrev pub group : String → List Event → List Event
group id events = select (λ (e : Event). str_eq e.workspace_id id) events

pub record Flush (S : Type 0) : Type 0 where
  pub run : Run S
  pub healthy : Bool
  pub any_quarantined : Bool
  pub is_aborted : Bool

-- The end of `flush`: what it returns, and when the reported error is cleared.
abbrev pub conclude : {S : Type 0} → Flush S → Run S × Bool
conclude f =
    if f.is_aborted || not f.healthy
    then (f.run, false)
    else if f.any_quarantined
    then (f.run, true)
    else (record f.run { service = record_reason "" f.run.service }, true)

module _ {S : Type 0} (o : Outside S) where
  -- The loop over `order`; `broken` is `failedBackends`.
  unfoldable pub flush_loop :
      ℕ → List Store.Workspace → List Event → List String → List String → Flush S → Flush S
  unfolding sender_for_workspace_id drain contains
  flush_loop now ws events [] broken f = f
  flush_loop now ws events (id ∷ ids) broken f =
      let (service, usable) = sender_for_workspace_id o id f.run.service in
      let unbound : Flush S = record f {
        run = record f.run { service = record_reason "not_configured" service };
        healthy = false;
      } in
      let d =
        drain o (length (group id events)) now id f.any_quarantined (group id events)
          (record f.run { service = service }) in
      let skipped = flush_loop now ws events ids broken f in
      let no_sender = flush_loop now ws events ids (backend_of ws id ∷ broken) unbound in
      let next : Flush S = record f { run = d.run; any_quarantined = d.any_quarantined } in
      let after_drain = flush_loop now ws events ids broken next in
      let after_failure =
        flush_loop now ws events ids (backend_of ws id ∷ broken)
          (record next { healthy = false }) in
      if contains (backend_of ws id) broken
      then skipped
      else if usable
      then elim d.outcome [
        | drained ↦ after_drain
        | failed ↦ after_failure
        | aborted ↦ record next { is_aborted = true }
      ]
      else no_sender

  unfoldable pub flush : ℕ → Run S → Run S × Bool
  unfolding flush_loop order
  flush now run =
      let events = pending run.service.db in
      let ws = workspaces run.service.db in
      let sendable = select (to_send ws) events in
      elim events [
        | [] ↦ (record run { service = record_reason "" run.service }, true)
        | e ∷ es ↦ conclude (
            flush_loop now ws sendable (order [] sendable) []
              (record { run = run; healthy = true; any_quarantined = false; is_aborted = false }))
      ]
