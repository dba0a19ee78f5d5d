-- ===== src/Db/Reindex/Correct.antt =====
-- The diff of the chunks leaves the rows of the new chunks.
use md_manager.Base.{
  ℕ, suc, true, false, ◌&&◌, ◌||◌, some, List, [], ◌∷◌, any, All, ◌==◌, ==_iff, nat_eq, bytes_eq,
  ◌≡◌, refl, ◌∙◌, arith, Bool-cases, inl, inr,
}
use md_manager.Fault.{ok, Result-cases}
use md_manager.Text.{Text}
use md_manager.Chunk.{Chunk}
use md_manager.Crypto.{Hashes, content_hash}
use md_manager.Model.{AuthContext}
use md_manager.Db.Access.{member_of}
use md_manager.Db.Tables.{ChunkRow}
use md_manager.Db.Reindex.{
  existing_hash, unchanged, kept_indices, to_insert, chunk_row, delete_changed, insert_chunk,
  insert_chunks, reindexed,
}
use md_manager.Db.Reindex.Leftovers.{
  leftover, others, insert_chunk_lem, insert_chunks-others, others-delete_changed,
  leftover-delete_changed, listed_lem, to_insert-All, kept_indices-member_of,
}

module _ (h : Hashes) (ctx : AuthContext) (doc_id : ℕ) where
  -- The row of a chunk is in place.
  abbrev pub Indexed : List ChunkRow → Chunk → Type 0
  Indexed rows c = existing_hash ctx.org_id doc_id c.index rows ≡ some (content_hash h c.content)

  -- A row that is found would clash with a chunk of its index.
  existing_hash-any :
      (row_id i : ℕ) (hash : Text) (rows : List ChunkRow)
      → existing_hash ctx.org_id doc_id i rows ≡ some hash
      → any (λ r. r.id == row_id || (r.document_id == doc_id && r.chunk_index == i)) rows ≡ true
  unfolding existing_hash
  existing_hash-any row_id i hash [] e = ground arith
  existing_hash-any row_id i hash (r ∷ rows) e =
      ground (arith, existing_hash-any row_id i hash rows)

  existing_hash-∷ :
      (row_id i : ℕ) (hash : Text) (c : Chunk) (rows : List ChunkRow)
      → any (λ r. r.id == row_id || (r.document_id == doc_id && r.chunk_index == c.index)) rows
        ≡ false
      → existing_hash ctx.org_id doc_id i rows ≡ some hash
      → existing_hash ctx.org_id doc_id i (chunk_row h ctx doc_id row_id c ∷ rows) ≡ some hash
  unfolding existing_hash chunk_row
  existing_hash-∷ row_id i hash c rows free e = elim (Bool-cases (c.index == i)) [
    | inl same ↦
        let clash = existing_hash-any row_id i hash rows e in
        let equal = (==_iff c.index i).0 same in absurd (ground arith)
    | inr other ↦ ground arith
  ]

  chunk_row-Indexed :
      (row_id : ℕ) (c : Chunk) (rows : List ChunkRow)
      → Indexed (chunk_row h ctx doc_id row_id c ∷ rows) c
  unfolding existing_hash chunk_row
  chunk_row-Indexed row_id c rows = ground arith

  insert_chunks_keeps :
      (ids : ℕ → ℕ) (k i : ℕ) (hash : Text) (cs : List Chunk) (rows more : List ChunkRow)
      → insert_chunks h ctx doc_id ids k cs rows ≡ ok more
      → existing_hash ctx.org_id doc_id i rows ≡ some hash
      → existing_hash ctx.org_id doc_id i more ≡ some hash
  unfolding insert_chunks
  insert_chunks_keeps ids k i hash [] rows more e f = ground arith
  insert_chunks_keeps ids k i hash (c ∷ cs) rows more e f =
      elim (Result-cases (insert_chunk h ctx doc_id (ids k) c rows)) [
        | inr (x, g) ↦ absurd (ground arith)
        | inl (mid, g) ↦
            let (free, p) = insert_chunk_lem h ctx doc_id (ids k) c rows mid g in
            insert_chunks_keeps ids (suc k) i hash cs mid more (ground arith)
              (rw p (existing_hash-∷ (ids k) i hash c rows free f))
      ]

  insert_chunks-Indexed :
      (ids : ℕ → ℕ) (k : ℕ) (cs : List Chunk) (rows more : List ChunkRow)
      → insert_chunks h ctx doc_id ids k cs rows ≡ ok more
      → All (Indexed more) cs
  unfolding insert_chunks
  insert_chunks-Indexed ids k [] rows more e = tt
  insert_chunks-Indexed ids k (c ∷ cs) rows more e =
      elim (Result-cases (insert_chunk h ctx doc_id (ids k) c rows)) [
        | inr (x, g) ↦ absurd (ground arith)
        | inl (mid, g) ↦
            let (free, p) = insert_chunk_lem h ctx doc_id (ids k) c rows mid g in
            let rest : insert_chunks h ctx doc_id ids (suc k) cs mid ≡ ok more = ground arith in
            (
              insert_chunks_keeps ids (suc k) c.index _ cs mid more rest
                  (rw p (chunk_row-Indexed (ids k) c rows)),
              insert_chunks-Indexed ids (suc k) cs mid more rest,
            )
      ]

  -- The deletion keeps the rows of the indices to keep.
  existing_hash-delete_changed :
      (i : ℕ) (keep : List ℕ) (rows : List ChunkRow)
      → member_of i keep ≡ true
      → existing_hash ctx.org_id doc_id i (delete_changed h ctx doc_id keep rows)
        ≡ existing_hash ctx.org_id doc_id i rows
  unfolding existing_hash delete_changed
  existing_hash-delete_changed i keep [] m = refl
  existing_hash-delete_changed i keep (r ∷ rows) m =
      let rest = existing_hash-delete_changed i keep rows m in
      elim (Bool-cases (r.chunk_index == i)) [
        | inl same ↦ (let equal = (==_iff r.chunk_index i).0 same in ground arith)
        | inr other ↦ ground arith
      ]

  unchanged_lem :
      (c : Chunk) (rows : List ChunkRow)
      → unchanged h ctx.org_id doc_id rows c ≡ true
      → Indexed rows c
  unfolding unchanged
  unchanged_lem c rows e = ground arith

  -- A chunk is unchanged, and its index is kept, or it is to be inserted.
  kept_or_inserted :
      (P : Chunk → Type 0) (rows : List ChunkRow) (keep : List ℕ) (cs : List Chunk)
      → ((c : Chunk)
          → unchanged h ctx.org_id doc_id rows c ≡ true
          → member_of c.index keep ≡ true
          → P c)
      → ((i : ℕ)
          → member_of i (kept_indices h ctx.org_id doc_id rows cs) ≡ true
          → member_of i keep ≡ true)
      → All P (to_insert h ctx.org_id doc_id rows cs)
      → All P cs
  unfolding kept_indices to_insert
  kept_or_inserted P rows keep [] same sub ins = tt
  kept_or_inserted P rows keep (c ∷ cs) same sub ins =
      elim (Bool-cases (unchanged h ctx.org_id doc_id rows c)) [
        | inl e ↦
            let sub' = rw e at sub in
            (
              same c e (sub' c.index (ground arith)),
              kept_or_inserted P rows keep cs same (λ i m. sub' i (ground arith)) (rw e at ins),
            )
        | inr e ↦
            let (first, rest) = rw e at ins in
            (first, kept_or_inserted P rows keep cs same (rw e at sub) rest)
      ]

  -- When the diff succeeds, whatever rows there were before: the document has a row for each chunk
  -- of its new content, under the chunk's index and with the hash of the chunk's content; it has no
  -- row under another index; and the rows of other documents are as before.
  pub reindexed-Indexed :
      (ids : ℕ → ℕ) (cs : List Chunk) (rows more : List ChunkRow)
      → reindexed h ctx doc_id ids cs rows ≡ ok more
      → All (Indexed more) cs
        × (any (leftover h ctx doc_id cs) more ≡ false)
        × (others h ctx doc_id more ≡ others h ctx doc_id rows)
  unfolding reindexed
  reindexed-Indexed ids cs rows more e =
      let keep = kept_indices h ctx.org_id doc_id rows cs in
      let inserted = to_insert h ctx.org_id doc_id rows cs in
      let (same_others, same_leftover) =
        insert_chunks-others h ctx doc_id ids 0 cs inserted _ more
          (to_insert-All h ctx doc_id _ rows cs (listed_lem h ctx doc_id cs cs (λ i m. m))) e in
      (
        kept_or_inserted (Indexed more) rows keep cs
            (λ c same kept.
              insert_chunks_keeps ids 0 c.index _ inserted _ more e
                (existing_hash-delete_changed c.index keep rows kept ∙ unchanged_lem c rows same))
            (λ i m. m) (insert_chunks-Indexed ids 0 inserted _ more e),
        same_leftover
            ∙ leftover-delete_changed h ctx doc_id cs keep rows
                (kept_indices-member_of h ctx doc_id rows cs),
        same_others ∙ others-delete_changed h ctx doc_id keep rows,
      )
