-- ===== src/Db/Statements/Laws.antt =====
-- What each statement has done once it has succeeded.
use md_manager.Base.{
  ℕ, Bool, false, Option, some, List, ◌∷◌, ◌≡◌, refl, sym, ap, ◌∙◌, arith, Bool-cases, inl, inr,
  find, any, leb, String, ◌||◌, ◌&&◌, ◌==◌, nat_eq,
}
use md_manager.Fault.{Result, ok, err}
use md_manager.Text.{Text, len}
use md_manager.Chunk.{chunk_markdown}
use md_manager.Crypto.{Hashes}
use md_manager.Model.{AuthContext, VersionKind}
use md_manager.Db.{Inputs}
use md_manager.Db.Rows.{update_rows, insert_row}
use md_manager.Db.Reindex.{reindex_chunks, reindexed}
use md_manager.Db.Statements.{
  set_content, returning, insert_version, audit, at_id, version_row, content_ceiling,
}
use md_manager.Db.Tables.{Store, DocumentRow, Scalar}
use md_manager.Db.Tx.{write, query-eq-ok}

pub write-eq-ok :
    (f : Store → Result Store) (s : Store) {t : Store} {u : Unit {0}}
    → write f s ≡ ok (u, t)
    → f s ≡ ok t
unfolding write
write-eq-ok f s {t} h = go (f s) h
  where
    go :
        (r : Result Store)
        → ◌≡◌ {A = Result (Unit {0} × Store)}
            (elim r [ ok x ↦ ok (tt, x) | err e ↦ err e ])
            (ok (tt, t))
        → r ≡ ok t
    go (ok x) e = cc
    go (err e) k = absurd (ground arith)

pub set_content_lem :
    (org_id doc_id : ℕ) (content : Text) (f : DocumentRow → DocumentRow) (s : Store) {t : Store}
    {u : Unit {0}}
    → set_content org_id doc_id content f s ≡ ok (u, t)
    → t ≡ record s { documents = update_rows (at_id org_id doc_id) f s.documents }
unfolding set_content
set_content_lem org_id doc_id content f s h =
    elim (Bool-cases (leb (len content) content_ceiling)) [
      | inl fits ↦ (let w = rw fits at (write-eq-ok _ s h) in cc w)
      | inr big ↦ (let w = rw big at (write-eq-ok _ s h) in cc w)
    ]

pub returning_lem :
    (org_id doc_id : ℕ) (s : Store) {t : Store} {d : DocumentRow}
    → returning org_id doc_id s ≡ ok (d, t)
    → (t ≡ s) × (find (at_id org_id doc_id) s.documents ≡ some d)
unfolding returning
returning_lem org_id doc_id s h = let q = query-eq-ok _ s h in (q.1, ground (arith, q.0))

pub put-eq-ok :
    {A : Type 0} (r : Result A) (put : A → Store) {t : Store}
    → ◌≡◌ {A = Result Store} (elim r [ ok a ↦ ok (put a) | err e ↦ err e ]) (ok t)
    → (a : A) × (r ≡ ok a) × (t ≡ put a)
put-eq-ok (ok a) put h = (a, refl, cc)
put-eq-ok (err e) put h = absurd (ground arith)

pub insert_row_lem :
    {R : Type 0} (constraint : String) (clash : R → Bool) (r : R) (rows : List R) {more : List R}
    → insert_row constraint clash r rows ≡ ok more
    → (any clash rows ≡ false) × (more ≡ r ∷ rows)
unfolding insert_row
insert_row_lem constraint clash r rows h = ground arith

module _ (ctx : AuthContext) (s : Store) {t : Store} {u : Unit {0}} where
  pub insert_version_lem :
      (io : Inputs) (row_id doc_id version : ℕ) (content hash : Text) (kind : VersionKind)
      → insert_version io ctx row_id doc_id version content hash kind s ≡ ok (u, t)
      → (any (λ v. v.id == row_id || (v.document_id == doc_id && v.version == version)) s.versions
          ≡ false)
        × (t ≡ record s {
          versions = version_row io ctx row_id doc_id version content hash kind ∷ s.versions;
        })
  unfolding insert_version
  insert_version_lem io row_id doc_id version content hash kind h =
      let (rows, e, p) = put-eq-ok _ _ (write-eq-ok _ s h) in
      let (free, q) = insert_row_lem _ _ _ s.versions e in
      (free, rw p (ap (λ x. record s { versions = x }) q))

  pub audit_lem :
      (io : Inputs) (row_id : ℕ) (action : String) (target : Option Scalar)
      (metadata : List (String × Scalar))
      → audit io ctx row_id action target metadata s ≡ ok (u, t)
      → t ≡ record s { audit_log = t.audit_log }
  unfolding audit
  audit_lem io row_id action target metadata h =
      let (rows, e, p) = put-eq-ok _ _ (write-eq-ok _ s h) in
      p ∙ ap (λ x. record s { audit_log = x.audit_log }) (sym p)

  pub reindex_chunks_lem :
      (h : Hashes) (doc_id : ℕ) (ids : ℕ → ℕ) (content : Text)
      → reindex_chunks h ctx doc_id ids content s ≡ ok (u, t)
      → (reindexed h ctx doc_id ids (chunk_markdown content) s.chunks ≡ ok t.chunks)
        × (t ≡ record s { chunks = t.chunks })
  unfolding reindex_chunks
  reindex_chunks_lem h doc_id ids content e =
      let (rows, r, p) = put-eq-ok _ _ (write-eq-ok _ s e) in
      (r ∙ ap (λ x. ok x.chunks) (sym p), p ∙ ap (λ x. record s { chunks = x.chunks }) (sym p))
