-- ===== src/Db/Document/Creation.antt =====
-- Creation: the quota of a project, and what a new document leaves in the store.
use md_manager.Base.{ℕ, ◌+◌, none, some, List, [], ◌∷◌, ◌≡◌, sym, ap, ◌∙◌, nat_eq, arith, find}
use md_manager.Fault.{Error, ok, guard}
use md_manager.Text.{Text}
use md_manager.Crypto.{content_hash}
use md_manager.Model.{AuthContext, VersionKind}
use md_manager.Db.{Inputs, Db}
use md_manager.Db.Statements.{live_at_id, version_row, audit}
use md_manager.Db.Tables.{Store, DocumentRow, VersionRow, uuid}
use md_manager.Db.Tx.{pure, ◌>>◌, bind_elim, query-eq-ok, pure-eq-ok}
use md_manager.Db.Versions.{snapshot}
use md_manager.Db.Document.{create_document}
use md_manager.Db.Tables.{text}
use md_manager.Base.{◌<◌, ltb}
use md_manager.Db.Access.{authorize_project}
use md_manager.Db.Versions.{count_live, insert_document}
use md_manager.Db.Versions.Laws.{document_rows_lem}
use md_manager.Db.Document.Saves.{snapshot_new}
use md_manager.Db.Reindex.{reindex_chunks}
use md_manager.Db.Statements.{insert_version}
use md_manager.Db.Statements.Laws.{
  insert_row_lem, insert_version_lem, audit_lem, reindex_chunks_lem, write-eq-ok, put-eq-ok,
}

insert_document_lem :
    (db : Db) (io : Inputs) (ctx : AuthContext) (project_id : ℕ) (d : DocumentRow) (s : Store)
    {t : Store} {u : Unit {0}}
    → insert_document db io ctx project_id d s ≡ ok (u, t)
    → t ≡ record s { documents = d ∷ s.documents }
unfolding insert_document
insert_document_lem db io ctx project_id d s h =
    let (rows, e, p) = put-eq-ok _ _ (write-eq-ok _ s h) in
    let (_, q) =
      insert_row_lem _ _ d s.documents
        (document_rows_lem db io ctx project_id d s.documents rows e) in
    p ∙ ap (λ x. record s { documents = x }) q

-- One more live row raises the count by one.
count_live-∷ :
    (org_id project_id : ℕ) (d : DocumentRow) (rows : List DocumentRow)
    → d.org_id ≡ org_id
    → d.project_id ≡ project_id
    → d.deleted_at ≡ none
    → count_live org_id project_id (d ∷ rows) ≡ count_live org_id project_id rows + 1
unfolding count_live
count_live-∷ org_id project_id d rows e1 e2 e3 = ground arith

room_lem : (n m : ℕ) (e : Error) {u : Unit {0}} → guard (ltb n m) e ≡ ok u → n < m
room_lem n m e h = ground arith

module _ (db : Db) (io : Inputs) (ctx : AuthContext) (project_id : ℕ) where
  first_snapshot :
      (content : Text) (rows : List VersionRow)
      → snapshot ctx.org_id (io.new_id 0) 1 (
          version_row io ctx
            (io.new_id 1)
            (io.new_id 0)
            1
            content
            (content_hash db.hashes content)
            VersionKind.checkpoint
          ∷ rows)
        ≡ some content
  first_snapshot content rows =
      let e = snapshot_new db io ctx (io.new_id 0) content 1 1 VersionKind.checkpoint rows in
      ground arith

  -- What the statements after the checks write.
  rows_written :
      (path content : Text) (d0 d : DocumentRow) (s t : Store)
      → (do
        insert_document db io ctx project_id d0
        insert_version io ctx
            (io.new_id 1)
            (io.new_id 0)
            1
            content
            (content_hash db.hashes content)
            VersionKind.checkpoint
        reindex_chunks db.hashes ctx (io.new_id 0) (λ k. io.new_id (k + 3)) content
        audit io ctx
            (io.new_id 2)
            "doc.create"
            (some (uuid (io.new_id 0)))
            (("path", text path) ∷ [])
        pure d0)
          s
        ≡ ok (d, t)
      → (d ≡ d0)
        × (t.documents ≡ d0 ∷ s.documents)
        × (snapshot ctx.org_id (io.new_id 0) 1 t.versions ≡ some content)
  rows_written path content d0 d s t h = bind_elim _ _ _ h λ _ s1 e1 h1.
      bind_elim _ _ _ h1 λ _ s2 e2 h2. bind_elim _ _ _ h2 λ _ s3 e3 h3.
        bind_elim _ _ _ h3 λ _ s4 e4 h4.
          let p1 = insert_document_lem db io ctx project_id _ s e1 in
          let (_, p2) =
            insert_version_lem ctx s1 io (io.new_id 1) (io.new_id 0) 1 content
              (content_hash db.hashes content) VersionKind.checkpoint e2 in
          let (_, p3) = reindex_chunks_lem ctx s2 db.hashes (io.new_id 0) _ content e3 in
          let p4 = audit_lem ctx s3 io (io.new_id 2) _ _ _ e4 in
          let (p5, p6) = pure-eq-ok _ _ s4 t h4 in
          let rows = first_snapshot content s1.versions in
          let versions : t.versions ≡ s2.versions = ground arith in
          (ground arith, ground arith, rw (versions, p2) rows)

  -- A creation that succeeds was made below the project's quota. The document is then the live one
  -- of its id,
  -- with the path and content given and version 1, which is its one snapshot under that number, and
  -- the project has one live document more, so the quota still holds.
  pub create_document-quota :
      (path title content : Text) (s t : Store) (d : DocumentRow)
      → create_document db io ctx project_id path title content s ≡ ok (d, t)
      → (count_live ctx.org_id project_id s.documents < db.max_docs_per_project)
        × (count_live ctx.org_id project_id t.documents
            ≡ count_live ctx.org_id project_id s.documents + 1)
        × (find (live_at_id ctx.org_id d.id) t.documents ≡ some d)
        × ((d.path ≡ path)
            × (d.content ≡ content)
            × (d.project_id ≡ project_id)
            × (d.current_version ≡ 1))
        × (snapshot ctx.org_id d.id 1 t.versions ≡ some content)
  unfolding create_document authorize_project
  create_document-quota path title content s t d h = bind_elim _ _ _ h λ _ s1 e1 h1.
      bind_elim _ _ _ h1 λ _ s2 e2 h2. bind_elim _ _ _ h2 λ _ s3 e3 h3.
        bind_elim _ _ _ h3 λ _ s4 e4 h4. bind_elim _ _ _ h4 λ _ s5 e5 h5.
          bind_elim _ _ _ h5 λ _ s6 e6 h6.
            let (_, p1) = query-eq-ok _ s e1 in
            let (_, p2) = query-eq-ok _ s1 e2 in
            let (_, p3) = query-eq-ok _ s2 e3 in
            let (_, p4) = query-eq-ok _ s3 e4 in
            let (_, p5) = query-eq-ok _ s4 e5 in
            let (room, p6) = query-eq-ok _ s5 e6 in
            let same : s5 ≡ s = p5 ∙ p4 ∙ p3 ∙ p2 ∙ p1 in
            let (is_new, rows, saved) = rows_written path content _ d s6 t h6 in
            let docs : t.documents ≡ d ∷ s.documents = ground arith in
            let one_more =
              count_live-∷ ctx.org_id project_id d s.documents (ground arith) (ground arith)
                (ground arith) in
            (
              rw (sym same) (room_lem _ _ _ room),
              rw docs one_more,
              rw docs (ground arith),
              (ground arith, ground arith, ground arith, ground arith),
              rw is_new saved,
            )
