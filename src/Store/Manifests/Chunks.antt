-- ===== src/Store/Manifests/Chunks.antt =====
-- A manifest is cut into chunks that lose nothing and stay within the contract's size.
use overgent.Prelude.{
  ℕ, zero, suc, ◌+◌, ◌*◌, ◌≤◌, ◌<◌, ◌≡◌, refl, ap, List, [], ◌∷◌, ◌++◌, arith, length, drop,
  take-append-drop, length-take, length-drop, All,
}
use overgent.Store.Payload.{Json}
use overgent.Store.Manifests.{chunks, chunk_size, chunk_count}

abbrev pub concat : List (List Json) → List Json
concat [] = []
concat (c ∷ cs) = c ++ concat cs

concat-chunks : (n : ℕ) (all : List Json) → length all ≤ 100 * n → concat (chunks n all) ≡ all
unfolding chunks
concat-chunks zero [] h = refl
concat-chunks zero (x ∷ all) h = absurd (omega arith)
concat-chunks (suc n) all h =
    rw (concat-chunks n (drop chunk_size all) (omega (arith, length-drop chunk_size all)))
      (take-append-drop chunk_size all)

pub length-chunks : (n : ℕ) (all : List Json) → length (chunks n all) ≡ n
unfolding chunks
length-chunks zero all = refl
length-chunks (suc n) all = ap suc (length-chunks n (drop chunk_size all))

-- Between 1 and 100 entries.
abbrev pub IsChunk : List Json → Type 0
IsChunk c = (0 < length c) × (length c ≤ 100)

chunks-IsChunk : (n : ℕ) (all : List Json) → 100 * n < length all + 100 → All IsChunk (chunks n all)
unfolding chunks
chunks-IsChunk zero all h = tt
chunks-IsChunk (suc n) all h = (
  (omega (arith, length-take chunk_size all), omega (arith, length-take chunk_size all)),
  chunks-IsChunk n (drop chunk_size all) (omega (arith, length-drop chunk_size all)),
)

-- The chunks of a manifest put together are its entries in order; there are as many as announced;
-- and none is empty or holds more than 100 entries.
pub chunks_exact :
    (all : List Json)
    → (concat (chunks (chunk_count all) all) ≡ all)
      × (length (chunks (chunk_count all) all) ≡ chunk_count all)
      × All IsChunk (chunks (chunk_count all) all)
chunks_exact all = (
  concat-chunks (chunk_count all) all (omega arith),
  length-chunks (chunk_count all) all,
  chunks-IsChunk (chunk_count all) all (omega arith),
)
