-- ===== src/Store/Manifests/Published.antt =====
-- What `PublishManifest` writes.
use mathlib.Core.List.{append-nil, append_assoc}
use overgent.Prelude.{
  ℕ, suc, ◌+◌, String, ◌≡◌, refl, ap, ◌∙◌, ◌≢◌, inl, inr, false, some, List, [], ◌∷◌, ◌++◌, arith,
  eq_iff, eq_refl, length, length-append, ok, Result-cases,
}
use overgent.Prelude.Tables.{
  find, select, update, any, find-append, select-append, find-update_self,
}
use overgent.Store.{Db, Event, Codec, WorkspaceRow, Manifest, is_workspace, insert_event}
use overgent.Store.Payload.{Json}
use overgent.Store.Queue.{queued}
use overgent.Store.Manifests.{new_manifest}
use overgent.Store.Manifests.Rows.{manifest_rows, published_rows, manifest_rows-published}
use overgent.Store.Manifests.{
  Publication, Queued, chunk_count, publish_manifest, replace_manifest, insert_all, manifest_events,
  set_revision, active_manifest, is_active_of, of_workspace, deactivate, chunk_events, chunks,
}
use overgent.Store.Manifests.Chunks.{length-chunks}
use overgent.Store.Sequences.Inserts.{insert_event_lem}

insert_all_lem :
    (codec : Codec) (now : ℕ) (row : WorkspaceRow) (i : ℕ) (es : List Queued) (db db' : Db)
    → insert_all codec now row i es db ≡ ok db'
    → db' ≡ record db { event_queue = db.event_queue ++ manifest_rows codec now row i es }
unfolding insert_all
insert_all_lem codec now row i [] db db' h = ground (arith, append-nil db.event_queue)
insert_all_lem codec now row i (e ∷ es) db db' h = elim (Result-cases (insert_event new db)) [
  | inr (x, p) ↦ absurd (ground arith)
  | inl (mid, p) ↦
      let shape = (insert_event_lem new db mid p).1 in
      insert_all_lem codec now row (i + 1) es mid db' (ground arith)
      ∙ rw shape (
          ap (λ (r : List Event). record db { event_queue = r })
            (append_assoc db.event_queue (new ∷ []) (manifest_rows codec now row (i + 1) es)))
]
  where
    new : Event
    new = queued codec row now e.id (row.sequence + i + 1) "git" e.kind e.payload

length-chunk_events :
    (codec : Codec) (q : Publication) (i : ℕ) (cs : List (List Json))
    → length (chunk_events codec q i cs) ≡ length cs
unfolding chunk_events
length-chunk_events codec q i [] = refl
length-chunk_events codec q i (c ∷ cs) = ap suc (length-chunk_events codec q (i + 1) cs)

length-manifest_events :
    (codec : Codec) (row : WorkspaceRow) (q : Publication)
    → length (manifest_events codec row q) ≡ chunk_count q.entries + 2
unfolding manifest_events
length-manifest_events codec row q = omega (
  arith,
  length-append (chunk_events codec q 0 (chunks (chunk_count q.entries) q.entries)) (_ ∷ []),
  length-chunk_events codec q 0 (chunks (chunk_count q.entries) q.entries),
  length-chunks (chunk_count q.entries) q.entries,
)

none_active :
    (id : String) (ms : List Manifest)
    → (select (is_active_of id) (update (of_workspace id) deactivate ms) ≡ [])
      × (any (is_active_of id) (update (of_workspace id) deactivate ms) ≡ false)
unfolding select update any
none_active id [] = (refl, refl)
none_active id (m ∷ ms) = ground (arith, none_active id ms)

active_after :
    (row : WorkspaceRow) (q : Publication) (ms : List Manifest)
    → find
        (is_active_of q.workspace_id)
        (update (of_workspace q.workspace_id) deactivate ms ++ new_manifest row q ∷ [])
      ≡ some (new_manifest row q)
unfolding find
active_after row q ms = ground (
  arith,
  find-append (is_active_of q.workspace_id) (update (of_workspace q.workspace_id) deactivate ms)
      (new_manifest row q ∷ []),
  none_active q.workspace_id ms,
  eq_refl q.workspace_id,
)

select_after :
    (row : WorkspaceRow) (q : Publication) (ms : List Manifest)
    → select
        (is_active_of q.workspace_id)
        (update (of_workspace q.workspace_id) deactivate ms ++ new_manifest row q ∷ [])
      ≡ new_manifest row q ∷ []
unfolding select
select_after row q ms =
    rw (select-append, (none_active q.workspace_id ms).0) (ground (arith, eq_refl q.workspace_id))

others_active :
    (row : WorkspaceRow) (q : Publication) (j : String) (ms : List Manifest)
    → q.workspace_id ≢ j
    → find
        (is_active_of j)
        (update (of_workspace q.workspace_id) deactivate ms ++ new_manifest row q ∷ [])
      ≡ find (is_active_of j) ms
unfolding find update
others_active row q j [] n = ground (arith, eq_iff q.workspace_id j)
others_active row q j (m ∷ ms) n = ground (
  arith,
  others_active row q j ms n,
  eq_iff m.workspace_id j,
  eq_iff m.workspace_id q.workspace_id,
)

replaced :
    (row : WorkspaceRow) (q : Publication) (db db' : Db)
    → replace_manifest row q db ≡ ok db'
    → db' ≡ record db {
      manifests =
          update (of_workspace q.workspace_id) deactivate db.manifests ++ new_manifest row q ∷ [];
    }
unfolding replace_manifest
replaced row q db db' h = ground arith

-- A manifest that is published becomes the one active manifest of its workspace, under the next
-- revision, and leaves the other workspaces' active manifests alone. Its announcement, its chunks in
-- order and its completion are queued in that order, under the numbers that follow the counter one by
-- one, and the counter moves onto the last of these `chunk_count + 2` events.
pub publish_manifest_exact :
    (codec : Codec) (now : ℕ) (q : Publication) (db db' : Db) (row : WorkspaceRow) (r : ℕ)
    → find (is_workspace q.workspace_id) db.workspaces ≡ some row
    → publish_manifest codec now q db ≡ ok (db', r)
    → (r ≡ row.revision + 1)
      × (active_manifest q.workspace_id db' ≡ ok (r, q.hash, q.entries))
      × (length (select (is_active_of q.workspace_id) db'.manifests) ≡ 1)
      × ((j : String) → q.workspace_id ≢ j → active_manifest j db' ≡ active_manifest j db)
      × (db'.event_queue ≡ db.event_queue ++ published_rows codec now row q)
      × (find (is_workspace q.workspace_id) db'.workspaces
          ≡ some (set_revision r (row.sequence + chunk_count q.entries + 2) row))
unfolding publish_manifest active_manifest
publish_manifest_exact codec now q db db' row r found h =
    elim (Result-cases (replace_manifest row q db)) [
      | inr (x, p) ↦ absurd (ground arith)
      | inl (start, p) ↦
          elim (Result-cases (insert_all codec now row 0 (manifest_events codec row q) start)) [
            | inr (x, s) ↦ absurd (ground arith)
            | inl (mid, s) ↦
                let began = replaced row q db start p in
                let shape =
                  insert_all_lem codec now row 0 (manifest_events codec row q) start mid s in
                let n : ℕ = row.sequence + length (manifest_events codec row q) in
                let same : db' ≡ record mid {
                  workspaces =
                      update (is_workspace q.workspace_id) (set_revision (row.revision + 1) n)
                        mid.workspaces;
                } =
                  ground arith in
                let ms : db'.manifests
                    ≡ update (of_workspace q.workspace_id) deactivate db.manifests
                      ++ new_manifest row q ∷ [] =
                  ground (arith, began, shape) in
                let up : r ≡ row.revision + 1 = ground arith in
                let total : n ≡ row.sequence + chunk_count q.entries + 2 =
                  omega (arith, length-manifest_events codec row q) in
                (
                  up,
                  ground (arith, ms, active_after row q db.manifests),
                  rw (ms, select_after row q db.manifests) refl,
                  λ j d. ground (arith, ms, others_active row q j db.manifests d),
                  rw (← manifest_rows-published codec now row q) (ground (arith, began, shape)),
                  rw (← total, up)
                      (ground (
                        arith,
                        began,
                        shape,
                        find-update_self (is_workspace q.workspace_id)
                            (set_revision (row.revision + 1) n) db.workspaces row (λ x m. m) found,
                      )),
                )
          ]
    ]
