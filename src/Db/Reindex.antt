-- ===== src/Db/Reindex.antt =====
-- crates/db/src/document.rs, `reindex_chunks`: the chunks of a document are replaced as a diff, and
-- one whose index and content hash are unchanged is left in place with its embedding.
pub mod Leftovers
pub mod Correct
use md_manager.Base.{
  ℕ, suc, Bool, false, not, ◌&&◌, ◌||◌, Option, none, some, List, [], ◌∷◌, find, ◌==◌, nat_eq,
  bytes_eq, if◌then◌else◌,
}
use md_manager.Fault.{Result, ok, err}
use md_manager.Text.{Text}
use md_manager.Chunk.{Chunk, chunk_markdown}
use md_manager.Crypto.{Hashes, content_hash}
use md_manager.Model.{AuthContext}
use md_manager.Db.Access.{in_org, member_of}
use md_manager.Db.Rows.{insert_row, delete_rows}
use md_manager.Db.Tables.{ChunkRow}
use md_manager.Db.Tx.{Tx, write}

-- `WHERE document_id = $1`
abbrev pub of_document : ℕ → ℕ → ChunkRow → Bool
of_document org_id doc_id c = in_org org_id c.org_id && c.document_id == doc_id

-- `existing.get(&chunk.index)`. A document has one row for an index, so the map's entry is its hash.
unfoldable pub existing_hash : ℕ → ℕ → ℕ → List ChunkRow → Option Text
existing_hash org_id doc_id index rows =
    elim (find (λ c. of_document org_id doc_id c && c.chunk_index == index) rows) [
      | none ↦ none
      | some c ↦ some c.content_hash
    ]

-- `existing.get(&chunk.index) == Some(&hash)`
abbrev pub same_hash : Option Text → Text → Bool
same_hash none hash = false
same_hash (some old) hash = old == hash

module _ (h : Hashes) (org_id doc_id : ℕ) (rows : List ChunkRow) where
  unfoldable pub unchanged : Chunk → Bool
  unfolding existing_hash
  unchanged chunk =
      same_hash (existing_hash org_id doc_id chunk.index rows) (content_hash h chunk.content)

  -- The first loop, as its two results: the indices to keep and the chunks to insert.
  unfoldable pub kept_indices : List Chunk → List ℕ
  unfolding unchanged
  kept_indices [] = []
  kept_indices (c ∷ cs) = let rest = kept_indices cs in if unchanged c then c.index ∷ rest else rest

  unfoldable pub to_insert : List Chunk → List Chunk
  unfolding unchanged
  to_insert [] = []
  to_insert (c ∷ cs) = let rest = to_insert cs in if unchanged c then rest else c ∷ rest

module _ (h : Hashes) (ctx : AuthContext) (doc_id : ℕ) where
  unfoldable pub chunk_row : ℕ → Chunk → ChunkRow
  chunk_row row_id chunk = record {
    id = row_id;
    org_id = ctx.org_id;
    document_id = doc_id;
    chunk_index = chunk.index;
    heading_path = chunk.heading_path;
    content = chunk.content;
    content_hash = content_hash h chunk.content;
    embedding = none;
  }

  -- `DELETE FROM doc_chunks WHERE document_id = $1 AND chunk_index <> ALL($2)`
  unfoldable pub delete_changed : List ℕ → List ChunkRow → List ChunkRow
  delete_changed keep =
      delete_rows (λ c. of_document ctx.org_id doc_id c && not (member_of c.chunk_index keep))

  unfoldable pub insert_chunk : ℕ → Chunk → List ChunkRow → Result (List ChunkRow)
  unfolding insert_row chunk_row
  insert_chunk row_id chunk =
      insert_row "doc_chunks_document_id_chunk_index_key"
        (λ c. c.id == row_id || (c.document_id == doc_id && c.chunk_index == chunk.index))
        (chunk_row row_id chunk)

  -- The second loop; `ids k` is the `Uuid::now_v7()` of its `k`-th round.
  unfoldable pub insert_chunks : (ℕ → ℕ) → ℕ → List Chunk → List ChunkRow → Result (List ChunkRow)
  unfolding insert_chunk
  insert_chunks ids k [] rows = ok rows
  insert_chunks ids k (c ∷ cs) rows = elim (insert_chunk (ids k) c rows) [
    | ok more ↦ insert_chunks ids (suc k) cs more
    | err e ↦ err e
  ]

  unfoldable pub reindexed : (ℕ → ℕ) → List Chunk → List ChunkRow → Result (List ChunkRow)
  unfolding kept_indices to_insert delete_changed insert_chunks
  reindexed ids chunks rows =
      insert_chunks ids 0 (to_insert h ctx.org_id doc_id rows chunks)
        (delete_changed (kept_indices h ctx.org_id doc_id rows chunks) rows)

  unfoldable pub reindex_chunks : (ℕ → ℕ) → Text → Tx (Unit {0})
  unfolding reindexed
  reindex_chunks ids content = write λ s. elim (reindexed ids (chunk_markdown content) s.chunks) [
    | ok rows ↦ ok (record s { chunks = rows })
    | err e ↦ err e
  ]
