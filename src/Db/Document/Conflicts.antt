-- ===== src/Db/Document/Conflicts.antt =====
-- Two updates from the same version: the second one is refused, with what a merge needs.
use md_manager.Base.{ℕ, ◌+◌, some, ◌≡◌, refl, ap, ◌∙◌, nat_eq, arith, inl, inr, find}
use md_manager.Fault.{ok}
use md_manager.Text.{Text}
use md_manager.Crypto.{content_hash}
use md_manager.Validate.{validate_content_size}
use md_manager.Model.{Role, AuthContext, VersionKind}
use md_manager.Db.{Inputs, Db}
use md_manager.Db.Access.{may_doc}
use md_manager.Db.Access.Laws.{may_doc_after}
use md_manager.Db.Statements.{live_at_id}
use md_manager.Db.Tables.{Store, DocumentRow}
use md_manager.Db.Versions.{bumped, latest_version, snapshot, text_or_empty}
use md_manager.Db.Document.{updated, stale, update_document}
use md_manager.Db.Document.Updates.{
  update_document_stale, update_document-IsUpdated, IsMerged, live_after, coalesces-IsMerged,
}
use md_manager.Db.Document.Saves.{snapshot_new}

module _ (db : Db) (io io' : Inputs) (ctx ctx' : AuthContext) (doc_id : ℕ) (s t : Store)
    (cur : DocumentRow) where
  -- No update is lost: when two callers of an organization start from the same version of a live
  -- document and the first update succeeds as a new version, the second, by a caller who could edit
  -- the document before and with a content of legal size, writes nothing. It returns the number and
  -- the content of the first one's version, and as the base of a merge the snapshot that both
  -- started from.
  pub update-update_document_stale :
      (content content' : Text) (expected : ℕ) (kind kind' : VersionKind) (d : DocumentRow)
      → find (live_at_id ctx.org_id doc_id) s.documents ≡ some cur
      → update_document db io ctx doc_id content expected kind s ≡ ok (updated d, t)
      → (IsMerged db io ctx kind (latest_version ctx.org_id doc_id s.versions) → ⊥)
      → ctx'.org_id ≡ ctx.org_id
      → may_doc ctx' doc_id cur.project_id Role.editor s ≡ ok tt
      → validate_content_size content' db.max_doc_bytes ≡ ok tt
      → update_document db io' ctx' doc_id content' expected kind' t
        ≡ ok (
          stale
              (expected + 1)
              content
              (text_or_empty (snapshot ctx.org_id doc_id expected s.versions)),
          t,
        )
  unfolding bumped
  update-update_document_stale content content' expected kind kind' d found h apart same_org allowed
        fits =
      let x = update_document-IsUpdated db io ctx doc_id content expected kind s t cur d found h in
      let rest = x.rest in
      elim x.done.0 [
        | inl (v, e, c, p) ↦ absurd (apart (coalesces-IsMerged db io ctx kind _ v e c).0)
        | inr (c, p, _) ↦
            let n = cur.current_version + 1 in
            let row = bumped db io ctx content (content_hash db.hashes content) n cur in
            let live : find (live_at_id ctx'.org_id doc_id) t.documents ≡ some row =
              rw (same_org, rest, p)
                (live_after db io ctx doc_id
                  (bumped db io ctx content (content_hash db.hashes content) n) s.documents cur
                  (λ d. refl) found) in
            let may =
              may_doc_after ctx' doc_id cur.project_id Role.editor Role.editor s t (omega arith)
                (ground arith) (ground arith) (ground arith) allowed in
            let refused =
              update_document_stale db io' ctx' doc_id t {cur = row} content' expected kind' fits
                live may (λ e. let f = x.fresh in omega arith) in
            let new = snapshot_new db io ctx doc_id content n expected kind s.versions in
            let f = x.fresh in
            let old : snapshot ctx'.org_id doc_id expected t.versions
                ≡ snapshot ctx.org_id doc_id expected s.versions =
              rw (same_org, rest, p) (new ∙ ground arith) in
            refused
            ∙ ap (λ b. ok (stale n content (text_or_empty b), t)) old
            ∙ ap
                (λ m. ok (
                  stale (m + 1) content
                      (text_or_empty (snapshot ctx.org_id doc_id expected s.versions)),
                  t,
                ))
                f
      ]
