-- ===== src/Db/Reindex/Leftovers.antt =====
-- What the diff of the chunks leaves alone, and that it leaves no row of an old index.
use md_manager.Base.{
  ℕ, suc, Bool, true, false, not, ◌&&◌, ◌||◌, List, [], ◌∷◌, filter, any, map, All, ◌==◌, nat_eq,
  bytes_eq, ◌≡◌, refl, ◌∙◌, arith, Bool-cases, inl, inr,
}
use md_manager.Fault.{ok, Result-cases}
use md_manager.Chunk.{Chunk}
use md_manager.Crypto.{Hashes}
use md_manager.Model.{AuthContext}
use md_manager.Db.Access.{member_of}
use md_manager.Db.Statements.Laws.{insert_row_lem}
use md_manager.Db.Tables.{ChunkRow}
use md_manager.Db.Reindex.{
  of_document, unchanged, kept_indices, to_insert, chunk_row, delete_changed, insert_chunk,
  insert_chunks,
}

module _ (h : Hashes) (ctx : AuthContext) (doc_id : ℕ) where
  pub insert_chunk_lem :
      (row_id : ℕ) (c : Chunk) (rows more : List ChunkRow)
      → insert_chunk h ctx doc_id row_id c rows ≡ ok more
      → (any (λ r. r.id == row_id || (r.document_id == doc_id && r.chunk_index == c.index)) rows
          ≡ false)
        × (more ≡ chunk_row h ctx doc_id row_id c ∷ rows)
  unfolding insert_chunk
  insert_chunk_lem row_id c rows more e = insert_row_lem _ _ _ rows e

  abbrev pub others : List ChunkRow → List ChunkRow
  others = filter (λ r. not (of_document ctx.org_id doc_id r))

  -- A row of the document whose index no chunk has.
  abbrev pub leftover : List Chunk → ChunkRow → Bool
  leftover cs r =
      of_document ctx.org_id doc_id r && not (member_of r.chunk_index (map (λ c. c.index) cs))

  pub others-delete_changed :
      (keep : List ℕ) (rows : List ChunkRow)
      → others (delete_changed h ctx doc_id keep rows) ≡ others rows
  unfolding delete_changed
  others-delete_changed keep [] = refl
  others-delete_changed keep (r ∷ rows) = ground (arith, others-delete_changed keep rows)

  pub leftover-delete_changed :
      (cs : List Chunk) (keep : List ℕ) (rows : List ChunkRow)
      → ((i : ℕ) → member_of i keep ≡ true → member_of i (map (λ c. c.index) cs) ≡ true)
      → any (leftover cs) (delete_changed h ctx doc_id keep rows) ≡ false
  unfolding delete_changed
  leftover-delete_changed cs keep [] sub = refl
  leftover-delete_changed cs keep (r ∷ rows) sub =
      let rest = leftover-delete_changed cs keep rows sub in
      let here = sub r.chunk_index in ground arith

  inserted_others :
      (row_id : ℕ) (c : Chunk) (cs : List Chunk) (rows : List ChunkRow)
      → member_of c.index (map (λ d. d.index) cs) ≡ true
      → (others (chunk_row h ctx doc_id row_id c ∷ rows) ≡ others rows)
        × (any (leftover cs) (chunk_row h ctx doc_id row_id c ∷ rows) ≡ any (leftover cs) rows)
  unfolding chunk_row
  inserted_others row_id c cs rows m = (ground arith, ground arith)

  pub insert_chunks-others :
      (ids : ℕ → ℕ) (k : ℕ) (all_chunks cs : List Chunk) (rows more : List ChunkRow)
      → All (λ c. member_of c.index (map (λ d. d.index) all_chunks) ≡ true) cs
      → insert_chunks h ctx doc_id ids k cs rows ≡ ok more
      → (others more ≡ others rows)
        × (any (leftover all_chunks) more ≡ any (leftover all_chunks) rows)
  unfolding insert_chunks
  insert_chunks-others ids k all_chunks [] rows more m e = (ground arith, ground arith)
  insert_chunks-others ids k all_chunks (c ∷ cs) rows more (m, ms) e =
      elim (Result-cases (insert_chunk h ctx doc_id (ids k) c rows)) [
        | inr (x, g) ↦ absurd (ground arith)
        | inl (mid, g) ↦
            let (free, p) = insert_chunk_lem (ids k) c rows mid g in
            let rest : insert_chunks h ctx doc_id ids (suc k) cs mid ≡ ok more = ground arith in
            let (a, b) = insert_chunks-others ids (suc k) all_chunks cs mid more ms rest in
            let (a2, b2) = inserted_others (ids k) c all_chunks rows m in (a ∙ rw p a2, b ∙ rw p b2)
      ]

  pub listed_lem :
      (all_chunks cs : List Chunk)
      → ((i : ℕ)
          → member_of i (map (λ d. d.index) cs) ≡ true
          → member_of i (map (λ d. d.index) all_chunks) ≡ true)
      → All (λ c. member_of c.index (map (λ d. d.index) all_chunks) ≡ true) cs
  listed_lem all_chunks [] sub = tt
  listed_lem all_chunks (c ∷ cs) sub =
      (sub c.index (ground arith), listed_lem all_chunks cs (λ i m. sub i (ground arith)))

  pub to_insert-All :
      (P : Chunk → Type 0) (rows : List ChunkRow) (cs : List Chunk)
      → All P cs
      → All P (to_insert h ctx.org_id doc_id rows cs)
  unfolding to_insert
  to_insert-All P rows [] ps = tt
  to_insert-All P rows (c ∷ cs) (p, ps) =
      let rest = to_insert-All P rows cs ps in
      elim (Bool-cases (unchanged h ctx.org_id doc_id rows c)) [
        | inl e ↦ rw e rest
        | inr e ↦ rw e (p, rest)
      ]

  pub kept_indices-member_of :
      (rows : List ChunkRow) (cs : List Chunk) (i : ℕ)
      → member_of i (kept_indices h ctx.org_id doc_id rows cs) ≡ true
      → member_of i (map (λ d. d.index) cs) ≡ true
  unfolding kept_indices
  kept_indices-member_of rows [] i m = m
  kept_indices-member_of rows (c ∷ cs) i m = ground (arith, kept_indices-member_of rows cs i)
