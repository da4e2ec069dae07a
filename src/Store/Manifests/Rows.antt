-- ===== src/Store/Manifests/Rows.antt =====
-- The rows that `PublishManifest` queues: an announcement, the chunks and a completion.
use overgent.Prelude.{ℕ, ◌+◌, ◌≡◌, ap, List, [], ◌∷◌, ◌++◌, arith, length}
use overgent.Store.{Event, Codec, WorkspaceRow}
use overgent.Store.Payload.{Json}
use overgent.Store.Queue.{queued}
use overgent.Store.Manifests.Chunks.{length-chunks}
use overgent.Store.Manifests.{
  Publication, Queued, chunk_count, manifest_events, chunk_events, chunks, started, chunk_event,
  completed,
}

module _ (codec : Codec) (now : ℕ) (row : WorkspaceRow) where
  abbrev pub row_of : ℕ → Queued → Event
  row_of n e = queued codec row now e.id (row.sequence + n) "git" e.kind e.payload

  abbrev pub manifest_rows : ℕ → List Queued → List Event
  manifest_rows i [] = []
  manifest_rows i (e ∷ es) =
      queued codec row now e.id (row.sequence + i + 1) "git" e.kind e.payload
      ∷ manifest_rows (i + 1) es

  -- The row of each chunk from the `i`th one on: the number after the announcement's goes to the first.
  abbrev pub chunk_rows : Publication → ℕ → List (List Json) → List Event
  chunk_rows q i [] = []
  chunk_rows q i (c ∷ cs) = row_of (i + 2) (chunk_event codec q i c) ∷ chunk_rows q (i + 1) cs

  -- The announcement, the chunks in order and the completion, numbered one after the other.
  abbrev pub published_rows : Publication → List Event
  published_rows q =
      row_of 1 (started codec row q)
      ∷ (chunk_rows q 0 (chunks (chunk_count q.entries) q.entries)
          ++ row_of (chunk_count q.entries + 2) (completed codec row q) ∷ [])

  numbered :
      (i j : ℕ) (e : Queued)
      → i + 1 ≡ j
      → queued codec row now e.id (row.sequence + i + 1) "git" e.kind e.payload ≡ row_of j e
  numbered i j e h =
      let n : row.sequence + i + 1 ≡ row.sequence + j = omega (arith, h) in
      ap (λ k. queued codec row now e.id k "git" e.kind e.payload) n

  manifest_rows-chunks :
      (q : Publication) (i n : ℕ) (cs : List (List Json))
      → n ≡ i + length cs + 2
      → manifest_rows (i + 1) (chunk_events codec q i cs ++ completed codec row q ∷ [])
        ≡ chunk_rows q i cs ++ row_of n (completed codec row q) ∷ []
  unfolding chunk_events
  manifest_rows-chunks q i n [] h =
      ap (λ r. r ∷ []) (numbered (i + 1) n (completed codec row q) (omega (arith, h)))
  manifest_rows-chunks q i n (c ∷ cs) h = cc (
    numbered (i + 1) (i + 2) (chunk_event codec q i c) (omega arith),
    manifest_rows-chunks q (i + 1) n cs (omega (arith, h)),
  )

  pub manifest_rows-published :
      (q : Publication) → manifest_rows 0 (manifest_events codec row q) ≡ published_rows q
  unfolding manifest_events
  manifest_rows-published q = cc (
    numbered 0 1 (started codec row q) (omega arith),
    manifest_rows-chunks q 0 (chunk_count q.entries + 2) (chunks (chunk_count q.entries) q.entries)
        (omega (arith, length-chunks (chunk_count q.entries) q.entries)),
  )
