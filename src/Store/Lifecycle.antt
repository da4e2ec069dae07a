-- ===== src/Store/Lifecycle.antt =====
-- `PublishLifecycle` of internal/store/store.go: events under an idempotency key, with the intent
-- revision as an optimistic lock.
pub mod Published
pub mod Idempotence
use Prim.Native.String.{◌++◌ as concat}
use overgent.Prelude.{
  ℕ, ◌+◌, String, Bool, true, false, ◌&&◌, ◌||◌, Option, none, some, List, [], ◌∷◌, ◌++◌, str_eq,
  ◌==◌, if◌then◌else◌, length, Result, ok, err,
}
use overgent.Prelude.Tables.{find, update, any}
use overgent.Store.Payload.{Json, fill_observed_at}
use overgent.Store.Queue.{queued}
use overgent.Store.{
  Db, Codec, WorkspaceRow, IdempotencyKey, LifecycleEvent, Error, no_rows, invalid,
  idempotency_reused, intent_conflict, is_workspace, insert_event, unix,
}

pub record Publication : Type 0 where
  pub workspace_id : String
  pub method : String
  pub idempotency_key : String
  pub source : String
  pub kind : String
  pub payload : Json
  pub additional : List LifecycleEvent
  pub expected_intent_revision : Option ℕ
  pub increment_intent_revision : Bool

abbrev pub events : Publication → List LifecycleEvent
events q = record { kind = q.kind; payload = q.payload } ∷ q.additional

abbrev pub has_no_kind : LifecycleEvent → Bool
has_no_kind e = str_eq e.kind ""

abbrev pub is_key : Publication → IdempotencyKey → Bool
is_key q k =
    str_eq k.workspace_id q.workspace_id
    && str_eq k.method q.method
    && str_eq k.key q.idempotency_key

abbrev pub is_refused : Publication → Bool
is_refused q =
    str_eq q.workspace_id ""
    || str_eq q.method ""
    || str_eq q.idempotency_key ""
    || str_eq q.kind ""

-- The compare-and-swap on the intent revision: the revision that is answered and stored.
unfoldable pub next_revision : Publication → ℕ → Result Error ℕ
next_revision q current =
    if q.increment_intent_revision
    then elim q.expected_intent_revision [
      | none ↦ ok (current + 1)
      | some expected ↦
          if expected == current then ok (current + 1) else err (intent_conflict current)
    ]
    else ok current

abbrev pub set_counters : ℕ → ℕ → WorkspaceRow → WorkspaceRow
set_counters sequence revision row = record row { sequence = sequence; intent_revision = revision }

module _ (codec : Codec) where
  unfoldable pub lifecycle_event_id : Publication → ℕ → String
  lifecycle_event_id q i = concat "evt_" (
      codec.digest16 (
        concat "overgent.lifecycle-event.v1\0" (
          concat q.workspace_id (
            concat "\0" (
              concat q.method
                (concat "\0" (concat q.idempotency_key (concat "\0" (codec.decimal i)))))))))

  -- The loop over the events from index `i` on.
  unfoldable pub insert_events :
      ℕ → Publication → WorkspaceRow → ℕ → List LifecycleEvent → Db → Result Error Db
  unfolding insert_event lifecycle_event_id
  insert_events now q row i [] db = ok db
  insert_events now q row i (e ∷ es) db =
      elim (insert_event
        (queued codec row now (lifecycle_event_id q i) (row.sequence + i + 1) q.source e.kind
          (fill_observed_at (codec.timestamp now) (codec.reencode e.payload)))
        db) [ err error ↦ err error | ok db' ↦ insert_events now q row (i + 1) es db' ]

  abbrev pub remember : ℕ → Publication → ℕ → IdempotencyKey
  remember now q revision = record {
    workspace_id = q.workspace_id;
    method = q.method;
    key = q.idempotency_key;
    request_hash = codec.request_hash (events q);
    response_revision = revision;
    created_at = unix now;
  }

  abbrev pub finish : ℕ → Publication → ℕ → ℕ → Result Error Db → Result Error (Db × ℕ × Bool)
  finish now q sequence revision (err e) = err e
  finish now q sequence revision (ok db) = ok (
    record db {
      workspaces =
          update (is_workspace q.workspace_id) (set_counters sequence revision) db.workspaces;
      idempotency_keys = db.idempotency_keys ++ remember now q revision ∷ [];
    },
    revision,
    false,
  )

  -- A publication whose key is new.
  unfoldable pub publish_new : ℕ → Publication → Db → Result Error (Db × ℕ × Bool)
  unfolding find next_revision insert_events update
  publish_new now q db = elim (find (is_workspace q.workspace_id) db.workspaces) [
    | none ↦ err no_rows
    | some row ↦ elim (next_revision q row.intent_revision) [
      | err e ↦ err e
      | ok revision ↦
          finish now q (row.sequence + length (events q)) revision
            (insert_events now q row 0 (events q) db)
    ]
  ]

  unfoldable pub publish_lifecycle : ℕ → Publication → Db → Result Error (Db × ℕ × Bool)
  unfolding publish_new any
  publish_lifecycle now q db =
      if is_refused q || any has_no_kind (events q)
      then err invalid
      else elim (find (is_key q) db.idempotency_keys) [
        | none ↦ publish_new now q db
        | some k ↦
            if str_eq k.request_hash (codec.request_hash (events q))
            then ok (db, k.response_revision, true)
            else err idempotency_reused
      ]
