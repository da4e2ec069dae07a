-- ===== src/Store/Sequences/Inserts.antt =====
-- The loops that insert a run of events keep the workspaces and number the events in range.
use overgent.Prelude.{
  ℕ, ◌+◌, ◌≤◌, ◌≡◌, refl, ap, ◌∙◌, inl, inr, false, List, [], ◌∷◌, ◌++◌, arith, length, All-append,
  ok, Result-cases,
}
use overgent.Prelude.Tables.{any}
use overgent.Store.{Db, Event, Codec, WorkspaceRow, clashes, insert_event, LifecycleEvent}
use overgent.Store.Payload.{fill_observed_at}
use overgent.Store.Queue.{queued}
use overgent.Store.Lifecycle
use overgent.Store.Lifecycle.{insert_events, lifecycle_event_id}
use overgent.Store.Manifests
use overgent.Store.Manifests.{insert_all}
use overgent.Store.Sequences.{Within, FitsAll}

-- An insertion that succeeds adds one row to the queue and changes nothing else.
pub insert_event_lem :
    (e : Event) (db db' : Db)
    → insert_event e db ≡ ok db'
    → (any (clashes e) db.event_queue ≡ false)
      × (db' ≡ record db { event_queue = db.event_queue ++ e ∷ [] })
unfolding insert_event
insert_event_lem e db db' h = ground arith

module _ (codec : Codec) (ws : List WorkspaceRow) (now n : ℕ) (row : WorkspaceRow)
    (fits_new : (e : Event) → e.workspace_id ≡ row.id → e.sequence ≤ n → FitsAll ws e) where
  pub insert_events-Within :
      (q : Lifecycle.Publication) (i : ℕ) (es : List LifecycleEvent) (db db' : Db)
      → row.sequence + i + length es ≤ n
      → insert_events codec now q row i es db ≡ ok db'
      → Within ws db.event_queue
      → Within ws db'.event_queue × (db'.workspaces ≡ db.workspaces)
  unfolding insert_events
  insert_events-Within q i [] db db' b h k = let e : db ≡ db' = ground arith in rw (← e) (k, refl)
  insert_events-Within q i (e ∷ es) db db' b h k = elim (Result-cases (insert_event new db)) [
    | inl (mid, p) ↦
        let (clear, shape) = insert_event_lem new db mid p in
        let (within, same) =
          insert_events-Within q (i + 1) es mid db' (omega arith) (ground arith) (
            rw shape (
              All-append (FitsAll ws) db.event_queue (new ∷ []) k
                (fits_new new refl (omega arith), tt))) in
        (within, same ∙ ap (λ (d : Db). d.workspaces) shape)
    | inr (x, p) ↦ absurd (ground arith)
  ]
    where
      new : Event
      new =
          queued codec row now (lifecycle_event_id codec q i) (row.sequence + i + 1) q.source e.kind
            (fill_observed_at (codec.timestamp now) (codec.reencode e.payload))

  pub insert_all-Within :
      (i : ℕ) (es : List Manifests.Queued) (db db' : Db)
      → row.sequence + i + length es ≤ n
      → insert_all codec now row i es db ≡ ok db'
      → Within ws db.event_queue
      → Within ws db'.event_queue × (db'.workspaces ≡ db.workspaces)
  unfolding insert_all
  insert_all-Within i [] db db' b h k = let e : db ≡ db' = ground arith in rw (← e) (k, refl)
  insert_all-Within i (e ∷ es) db db' b h k = elim (Result-cases (insert_event new db)) [
    | inl (mid, p) ↦
        let (clear, shape) = insert_event_lem new db mid p in
        let (within, same) = insert_all-Within (i + 1) es mid db' (omega arith) (ground arith) (
          rw shape (
            All-append (FitsAll ws) db.event_queue (new ∷ []) k
              (fits_new new refl (omega arith), tt))) in
        (within, same ∙ ap (λ (d : Db). d.workspaces) shape)
    | inr (x, p) ↦ absurd (ground arith)
  ]
    where
      new : Event
      new = queued codec row now e.id (row.sequence + i + 1) "git" e.kind e.payload
