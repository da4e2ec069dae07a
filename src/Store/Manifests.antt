-- ===== src/Store/Manifests.antt =====
-- `PublishManifest` and `ActiveManifest` of internal/store/store.go, and the chunks of
-- internal/manifest/manifest.go.
pub mod Chunks
pub mod Rows
pub mod Published
use Prim.Native.String.{◌++◌ as concat}
use overgent.Prelude.{
  ℕ, zero, suc, ◌+◌, ◌-◌, ◌/◌, String, Bool, true, false, ◌&&◌, none, some, List, [], ◌∷◌, ◌++◌,
  str_eq, ltb, ◌==◌, if◌then◌else◌, length, take, drop, Result, ok, err,
}
use overgent.Prelude.Tables.{find, update, any}
use overgent.Store.Payload.{Json, Items, nil, cons, object, field, end, text, number, array}
use overgent.Store.Queue.{queued}
use overgent.Store.{
  Db, Codec, Manifest, WorkspaceRow, Error, no_rows, constraint, manifest_too_large, is_workspace,
  insert_event,
}

pub record Publication : Type 0 where
  pub workspace_id : String
  pub manifest_id : String
  pub baseline : String
  pub head : String
  pub hash : String
  pub event_id : String
  pub entries : List Json

abbrev pub chunk_size : ℕ
chunk_size = 100

abbrev pub max_paths : ℕ
max_paths = 100000

pub record Queued : Type 0 where
  pub id : String
  pub kind : String
  pub payload : Json

unfoldable pub to_items : List Json → Items
to_items [] = nil
to_items (x ∷ xs) = cons x (to_items xs)

abbrev pub of_workspace : String → Manifest → Bool
of_workspace id m = str_eq m.workspace_id id

abbrev pub deactivate : Manifest → Manifest
deactivate m = record m { active = false }

abbrev same_revision : String → ℕ → Manifest → Bool
same_revision id revision m = str_eq m.workspace_id id && m.revision == revision

abbrev pub new_manifest : WorkspaceRow → Publication → Manifest
new_manifest row q = record {
  workspace_id = q.workspace_id;
  revision = row.revision + 1;
  manifest_id = q.manifest_id;
  workstream_id = row.workstream_id;
  baseline_ref = q.baseline;
  head_ref = q.head;
  content_hash = q.hash;
  path_count = length q.entries;
  entries = q.entries;
  active = true;
}

-- UPDATE manifests SET active=0, then INSERT; the primary key is (workspace_id, revision).
unfoldable pub replace_manifest : WorkspaceRow → Publication → Db → Result Error Db
unfolding update any
replace_manifest row q db =
    let older = update (of_workspace q.workspace_id) deactivate db.manifests in
    if any (same_revision q.workspace_id (row.revision + 1)) older
    then err constraint
    else ok (record db { manifests = older ++ new_manifest row q ∷ [] })

-- The entries from `100 * i` on, in `n` chunks: `all[i*chunkSize : min((i+1)*chunkSize, count)]`.
unfoldable pub chunks : ℕ → List Json → List (List Json)
chunks zero all = []
chunks (suc n) all = take chunk_size all ∷ chunks n (drop chunk_size all)

abbrev pub chunk_count : List Json → ℕ
chunk_count all = (length all + chunk_size - 1) / chunk_size

abbrev pub set_revision : ℕ → ℕ → WorkspaceRow → WorkspaceRow
set_revision revision sequence row = record row {
  shown = record row.shown { revision = revision };
  sequence = sequence;
}

module _ (codec : Codec) where
  abbrev pub started : WorkspaceRow → Publication → Queued
  started row q = record {
    id = concat q.event_id "_started";
    kind = "workspace.manifest_started";
    payload = object (
        field "manifestId" (text q.manifest_id) (
          field "workstreamId" (text row.workstream_id) (
            field "revision" (number (codec.decimal (row.revision + 1))) (
              field "baselineRef" (text q.baseline) (
                field "headRef" (text q.head)
                  (field "chunkCount" (number (codec.decimal (chunk_count q.entries))) end))))));
  }

  abbrev pub chunk_event : Publication → ℕ → List Json → Queued
  chunk_event q i entries = record {
    id = concat q.event_id (concat "_chunk_" (codec.decimal4 i));
    kind = "workspace.manifest_chunk";
    payload = object (
        field "manifestId" (text q.manifest_id) (
          field "chunkIndex" (number (codec.decimal i))
            (field "entries" (array (to_items entries)) end)));
  }

  abbrev pub completed : WorkspaceRow → Publication → Queued
  completed row q = record {
    id = q.event_id;
    kind = "workspace.manifest_completed";
    payload = object (
        field "manifestId" (text q.manifest_id) (
          field "revision" (number (codec.decimal (row.revision + 1)))
            (field "contentHash" (text q.hash) end)));
  }

  unfoldable pub chunk_events : Publication → ℕ → List (List Json) → List Queued
  unfolding to_items
  chunk_events q i [] = []
  chunk_events q i (c ∷ cs) = chunk_event q i c ∷ chunk_events q (i + 1) cs

  unfoldable pub manifest_events : WorkspaceRow → Publication → List Queued
  unfolding chunk_events chunks
  manifest_events row q =
      started row q
      ∷ (chunk_events q 0 (chunks (chunk_count q.entries) q.entries) ++ completed row q ∷ [])

  unfoldable pub insert_all : ℕ → WorkspaceRow → ℕ → List Queued → Db → Result Error Db
  unfolding insert_event
  insert_all now row i [] db = ok db
  insert_all now row i (e ∷ es) db =
      elim (insert_event (queued codec row now e.id (row.sequence + i + 1) "git" e.kind e.payload)
        db) [ err error ↦ err error | ok db' ↦ insert_all now row (i + 1) es db' ]

  abbrev pub settle : Publication → ℕ → ℕ → Result Error Db → Result Error (Db × ℕ)
  settle q revision sequence (err e) = err e
  settle q revision sequence (ok db) = ok (
    record db {
      workspaces =
          update (is_workspace q.workspace_id) (set_revision revision sequence) db.workspaces;
    },
    revision,
  )

  abbrev pub queue_manifest : ℕ → WorkspaceRow → Publication → Result Error Db → Result Error Db
  queue_manifest now row q (err e) = err e
  queue_manifest now row q (ok db) = insert_all now row 0 (manifest_events row q) db

  unfoldable pub publish_manifest : ℕ → Publication → Db → Result Error (Db × ℕ)
  unfolding find update replace_manifest manifest_events insert_all
  publish_manifest now q db =
      if ltb max_paths (length q.entries)
      then err manifest_too_large
      else elim (find (is_workspace q.workspace_id) db.workspaces) [
        | none ↦ err no_rows
        | some row ↦
            settle q (row.revision + 1) (row.sequence + length (manifest_events row q))
              (queue_manifest now row q (replace_manifest row q db))
      ]

abbrev pub is_active_of : String → Manifest → Bool
is_active_of id m = str_eq m.workspace_id id && m.active

unfoldable pub active_manifest : String → Db → Result Error (ℕ × String × List Json)
unfolding find
active_manifest id db = elim (find (is_active_of id) db.manifests) [
  | none ↦ err no_rows
  | some m ↦ ok (m.revision, m.content_hash, m.entries)
]
