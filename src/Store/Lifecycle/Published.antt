-- ===== src/Store/Lifecycle/Published.antt =====
-- What a publication under a new key writes.
use mathlib.Core.List.{append-nil, append_assoc}
use overgent.Prelude.{
  ℕ, ◌+◌, ◌≡◌, ap, ◌∙◌, inl, inr, Bool, true, false, some, List, [], ◌∷◌, ◌++◌, arith,
  if◌then◌else◌, length, ok, Result-cases,
}
use overgent.Prelude.Tables.{find, find-update_self}
use overgent.Store.{Db, Event, Codec, WorkspaceRow, LifecycleEvent, is_workspace, insert_event}
use overgent.Store.Payload.{fill_observed_at}
use overgent.Store.Queue.{queued}
use overgent.Store.Lifecycle.{
  Publication, events, insert_events, lifecycle_event_id, publish_new, next_revision, set_counters,
  remember,
}
use overgent.Store.Sequences.Inserts.{insert_event_lem}

-- The rows that a run of events becomes, from index `i` on.
abbrev pub lifecycle_rows :
    Codec → ℕ → Publication → WorkspaceRow → ℕ → List LifecycleEvent → List Event
lifecycle_rows codec now q row i [] = []
lifecycle_rows codec now q row i (e ∷ es) =
    queued codec row now (lifecycle_event_id codec q i) (row.sequence + i + 1) q.source e.kind
      (fill_observed_at (codec.timestamp now) (codec.reencode e.payload))
    ∷ lifecycle_rows codec now q row (i + 1) es

pub insert_events_lem :
    (codec : Codec) (now : ℕ) (q : Publication) (row : WorkspaceRow) (i : ℕ)
    (es : List LifecycleEvent) (db db' : Db)
    → insert_events codec now q row i es db ≡ ok db'
    → db' ≡ record db { event_queue = db.event_queue ++ lifecycle_rows codec now q row i es }
unfolding insert_events
insert_events_lem codec now q row i [] db db' h = ground (arith, append-nil db.event_queue)
insert_events_lem codec now q row i (e ∷ es) db db' h = elim (Result-cases (insert_event new db)) [
  | inr (x, p) ↦ absurd (ground arith)
  | inl (mid, p) ↦
      let shape = (insert_event_lem new db mid p).1 in
      insert_events_lem codec now q row (i + 1) es mid db' (ground arith)
      ∙ rw shape (
          ap (λ (r : List Event). record db { event_queue = r })
            (append_assoc db.event_queue (new ∷ []) (lifecycle_rows codec now q row (i + 1) es)))
]
  where
    new : Event
    new =
        queued codec row now (lifecycle_event_id codec q i) (row.sequence + i + 1) q.source e.kind
          (fill_observed_at (codec.timestamp now) (codec.reencode e.payload))

next_revision_lem :
    (q : Publication) (current r : ℕ)
    → next_revision q current ≡ ok r
    → r ≡ (if q.increment_intent_revision then current + 1 else current)
unfolding next_revision
next_revision_lem q current r h = ground arith

next_revision_guard :
    (q : Publication) (current r n : ℕ)
    → next_revision q current ≡ ok r
    → q.increment_intent_revision ≡ true
    → q.expected_intent_revision ≡ some n
    → n ≡ current
unfolding next_revision
next_revision_guard q current r n h inc ex = ground arith

-- A publication under a new key queues its events in order under the numbers after the counter,
-- moves the counter onto the last, stores the revision that it answers as the workspace's intent
-- revision, and remembers the key. The revision is the next one if an increment is asked for, which
-- happens only from the revision expected, and the current one otherwise.
pub published_exact :
    (codec : Codec) (now : ℕ) (q : Publication) (db db' : Db) (row : WorkspaceRow) (r : ℕ)
    (duplicate : Bool)
    → find (is_workspace q.workspace_id) db.workspaces ≡ some row
    → publish_new codec now q db ≡ ok (db', r, duplicate)
    → (duplicate ≡ false)
      × (r ≡ (if q.increment_intent_revision then row.intent_revision + 1 else row.intent_revision))
      × ((n : ℕ)
          → q.increment_intent_revision ≡ true
          → q.expected_intent_revision ≡ some n
          → n ≡ row.intent_revision)
      × (db'.event_queue ≡ db.event_queue ++ lifecycle_rows codec now q row 0 (events q))
      × (find (is_workspace q.workspace_id) db'.workspaces
          ≡ some (set_counters (row.sequence + length (events q)) r row))
      × (db'.idempotency_keys ≡ db.idempotency_keys ++ remember codec now q r ∷ [])
unfolding publish_new
published_exact codec now q db db' row r duplicate found h =
    elim (Result-cases (next_revision q row.intent_revision)) [
      | inr (x, p) ↦ absurd (ground arith)
      | inl (rev, p) ↦ elim (Result-cases (insert_events codec now q row 0 (events q) db)) [
        | inr (x, s) ↦ absurd (ground arith)
        | inl (mid, s) ↦
            let shape = insert_events_lem codec now q row 0 (events q) db mid s in
            let set = set_counters (row.sequence + length (events q)) r in
            let same : rev ≡ r = ground arith in
            (
              ground arith,
              revision rev same p,
              (λ n inc ex. guarded rev p n inc ex),
              ground (arith, shape),
              ground (
                arith,
                shape,
                find-update_self (is_workspace q.workspace_id) set db.workspaces row (λ x m. m)
                    found,
              ),
              ground (arith, shape),
            )
      ]
    ]
  where
    revision :
        (rev : ℕ)
        → rev ≡ r
        → next_revision q row.intent_revision ≡ ok rev
        → r ≡ (if q.increment_intent_revision then row.intent_revision + 1 else row.intent_revision)
    revision rev same p = next_revision_lem q row.intent_revision r (p ∙ ap ok same)

    guarded :
        (rev : ℕ)
        → next_revision q row.intent_revision ≡ ok rev
        → (n : ℕ) → q.increment_intent_revision ≡ true
        → q.expected_intent_revision ≡ some n
        → n ≡ row.intent_revision
    guarded rev p n inc ex = next_revision_guard q row.intent_revision rev n p inc ex
