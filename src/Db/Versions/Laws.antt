-- ===== src/Db/Versions/Laws.antt =====
-- The store after a successful new version, a coalesced autosave, and the end of an operation.
use md_manager.Base.{
  ℕ, ◌+◌, true, false, Option, none, some, List, ◌∷◌, ◌≡◌, if◌then◌else◌, arith, Bool-cases, inl,
  inr, ◌⊎◌, find, any, String, ◌||◌, ◌&&◌, ◌==◌, nat_eq,
}
use md_manager.Fault.{ok}
use md_manager.Text.{Text}
use md_manager.Chunk.{chunk_markdown}
use md_manager.Crypto.{content_hash}
use md_manager.Model.{AuthContext, VersionKind}
use md_manager.Db.{Inputs, Db}
use md_manager.Db.Access.{in_org}
use md_manager.Db.Rows.{update_rows}
use md_manager.Db.Reindex.{reindexed}
use md_manager.Db.Statements.{at_id, version_row}
use md_manager.Db.Statements.Laws.{
  write-eq-ok, set_content_lem, returning_lem, insert_version_lem, audit_lem, reindex_chunks_lem,
}
use md_manager.Db.Tables.{Store, DocumentRow, VersionRow, Scalar}
use md_manager.Db.Tx.{bind_elim, pure-eq-ok, query-eq-ok}
use md_manager.Base.{leb}
use md_manager.Text.{len}
use md_manager.Db.Rows.{insert_row}
use md_manager.Db.Statements.{same_path, content_ceiling}
use md_manager.Db.Versions.{
  document_rows, save_version, overwrite_latest, overwrite_version, coalesce_or_save, coalesces,
  latest_version, finish, bumped, rewritten,
}

-- A new document passes the table's check, and clashes with no row.
pub document_rows_lem :
    (db : Db) (io : Inputs) (ctx : AuthContext) (project_id : ℕ) (d : DocumentRow)
    (rows more : List DocumentRow)
    → document_rows db io ctx project_id d rows ≡ ok more
    → insert_row "documents_project_path_uniq"
        (λ e. e.id == d.id || same_path project_id d.path e)
        d
        rows
      ≡ ok more
unfolding document_rows
document_rows_lem db io ctx project_id d rows more h =
    elim (Bool-cases (leb (len d.content) content_ceiling)) [
      | inl fits ↦ rw fits at h
      | inr big ↦ absurd (ground arith)
    ]

module _ (db : Db) (io : Inputs) (ctx : AuthContext) (doc_id : ℕ) where
  module _ (content : Text) where
    abbrev hashed : Text
    hashed = content_hash db.hashes content

    -- The store after a new version.
    abbrev pub with_version : ℕ → VersionKind → Store → Store
    with_version version kind s = record s {
      documents =
          update_rows (at_id ctx.org_id doc_id) (bumped db io ctx content hashed version)
            s.documents;
      versions = version_row io ctx (io.new_id 1) doc_id version content hashed kind ∷ s.versions;
    }

    -- The store after a coalesced autosave into the version row `row_id`.
    abbrev pub with_overwrite : ℕ → Store → Store
    with_overwrite row_id s = record s {
      documents =
          update_rows (at_id ctx.org_id doc_id) (rewritten db io ctx content hashed) s.documents;
      versions =
          update_rows (λ v. in_org ctx.org_id v.org_id && v.id == row_id)
            (λ v. record v { content = content; content_hash = hashed; created_at = io.db_now })
            s.versions;
    }

    -- What `coalesce_or_save` has done: the latest version row overwritten, or a new version.
    abbrev pub CoalescedOrSaved : Store → Store → DocumentRow → ℕ → VersionKind → Type 0
    CoalescedOrSaved s t d current kind =
        (((v : VersionRow) × (latest_version ctx.org_id doc_id s.versions ≡ some v)
            × (coalesces db io ctx kind (some v) ≡ true)
            × (t ≡ with_overwrite v.id s))
          ⊎ ((coalesces db io ctx kind (latest_version ctx.org_id doc_id s.versions) ≡ false)
              × (t ≡ with_version (current + 1) kind s)
              × (any
                    (λ v.
                      v.id == io.new_id 1 || (v.document_id == doc_id && v.version == current + 1))
                    s.versions
                  ≡ false)))
        × (find (at_id ctx.org_id doc_id) t.documents ≡ some d)

    module _ (s : Store) {t : Store} {d : DocumentRow} where
      pub save_version_lem :
          (version : ℕ) (kind : VersionKind)
          → save_version db io ctx doc_id version content kind s ≡ ok (d, t)
          → (t ≡ with_version version kind s)
            × (find (at_id ctx.org_id doc_id) t.documents ≡ some d)
            × (any
                  (λ v. v.id == io.new_id 1 || (v.document_id == doc_id && v.version == version))
                  s.versions
                ≡ false)
      unfolding save_version
      save_version_lem version kind h = bind_elim _ _ _ h λ _ s1 e1 h1.
          bind_elim _ _ _ h1 λ d' s2 e2 h2. bind_elim _ _ _ h2 λ _ s3 e3 h3.
            let p1 = set_content_lem ctx.org_id doc_id content _ s e1 in
            let (p2, found) = returning_lem ctx.org_id doc_id s1 e2 in
            let (free, p3) =
              insert_version_lem ctx s2 io (io.new_id 1) doc_id version content
                (content_hash db.hashes content) kind e3 in
            let (p4, p5) = pure-eq-ok d' d s3 t h3 in ground arith

      pub overwrite_latest_lem :
          (latest : VersionRow)
          → overwrite_latest db io ctx doc_id content (some latest) s ≡ ok (d, t)
          → (t ≡ with_overwrite latest.id s) × (find (at_id ctx.org_id doc_id) t.documents ≡ some d)
      unfolding overwrite_latest overwrite_version
      overwrite_latest_lem latest h = bind_elim _ _ _ h λ _ s1 e1 h1.
          bind_elim _ _ _ h1 λ _ s2 e2 h2.
            let p1 = write-eq-ok _ s e1 in
            let p2 = set_content_lem ctx.org_id doc_id content _ s1 e2 in
            let (p3, found) = returning_lem ctx.org_id doc_id s2 h2 in ground arith

      by_latest :
          (current : ℕ) (kind : VersionKind) (latest : Option VersionRow)
          → latest_version ctx.org_id doc_id s.versions ≡ latest
          → (if coalesces db io ctx kind latest
                then overwrite_latest db io ctx doc_id content latest
                else save_version db io ctx doc_id (current + 1) content kind)
              s
            ≡ ok (d, t)
          → CoalescedOrSaved s t d current kind
      by_latest current kind none e h = elim (Bool-cases (coalesces db io ctx kind none)) [
        | inl c ↦ absurd (unfold coalesces in ground arith)
        | inr c ↦
            let (p, found, free) = save_version_lem (current + 1) kind (rw c at h) in
            (inr (rw e c, p, free), found)
      ]
      by_latest current kind (some v) e h = elim (Bool-cases (coalesces db io ctx kind (some v))) [
        | inl c ↦ let (p, found) = overwrite_latest_lem v (rw c at h) in (inl (v, e, c, p), found)
        | inr c ↦
            let (p, found, free) = save_version_lem (current + 1) kind (rw c at h) in
            (inr (rw e c, p, free), found)
      ]

      pub coalesce_or_save_lem :
          (current : ℕ) (kind : VersionKind)
          → coalesce_or_save db io ctx doc_id current content kind s ≡ ok (d, t)
          → CoalescedOrSaved s t d current kind
      unfolding coalesce_or_save
      coalesce_or_save_lem current kind h = bind_elim _ _ _ h λ latest s1 e1 h1.
          let (p, same) = query-eq-ok _ s e1 in by_latest current kind latest (cc p) (rw same at h1)

  pub finish_lem :
      (action : String) (content : Text) (metadata : List (String × Scalar)) (s : Store) {t : Store}
      {u : Unit {0}}
      → finish db io ctx action doc_id content metadata s ≡ ok (u, t)
      → (reindexed db.hashes ctx doc_id (λ k. io.new_id (k + 3)) (chunk_markdown content) s.chunks
          ≡ ok t.chunks)
        × (t ≡ record s { chunks = t.chunks; audit_log = t.audit_log })
  unfolding finish
  finish_lem action content metadata s h = bind_elim _ _ _ h λ _ s1 e1 h1.
      let (r, p) = reindex_chunks_lem ctx s db.hashes doc_id _ content e1 in
      let q = audit_lem ctx s1 io (io.new_id 2) action _ metadata h1 in ground arith
