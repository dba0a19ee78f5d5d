-- ===== src/Db/Document/Refusals.antt =====
-- What a deletion makes of the operations on the document.
use md_manager.Base.{ℕ, false, none, some, ◌≡◌, nat_eq, arith, find, any}
use md_manager.Fault.{ok, err, not_found}
use md_manager.Text.{Text}
use md_manager.Validate.{validate_content_size, validate_path}
use md_manager.Model.{AuthContext, VersionKind}
use md_manager.Db.{Inputs, Db}
use md_manager.Db.Access.{authorize_doc}
use md_manager.Db.Statements.{live_at_id}
use md_manager.Db.Tables.{Store}
use md_manager.Db.Tx.{◌>>=◌, bind_elim}
use md_manager.Db.Versions.{find_live, lock_document, drop_document}
use md_manager.Db.Document.{
  update_document, get_document, append_to_document, restore_version, move_document,
  delete_document, get_version,
}
use md_manager.Db.Rows.Laws.{find-update_rows_none, any-delete_rows}
use md_manager.Db.Statements.Laws.{write-eq-ok, audit_lem}
use md_manager.Db.Reindex.{of_document}

module _ (db : Db) (io : Inputs) (ctx : AuthContext) (doc_id : ℕ) where
  -- To a caller, a document is absent when the operations that read, write, move, restore and delete
  -- it by its identifier fail with `not_found`, once the checks on their arguments pass.
  abbrev pub Absent : Inputs → AuthContext → Store → Type 0
  Absent io' ctx' t =
      (get_document db io' ctx' doc_id t ≡ err not_found)
      × ((content : Text) (version : ℕ) (kind : VersionKind)
          → validate_content_size content db.max_doc_bytes ≡ ok tt
          → update_document db io' ctx' doc_id content version kind t ≡ err not_found)
      × ((addition : Text) → append_to_document db io' ctx' doc_id addition t ≡ err not_found)
      × ((version : ℕ) → restore_version db io' ctx' doc_id version t ≡ err not_found)
      × ((path : Text)
          → validate_path path ≡ ok tt
          → move_document db io' ctx' doc_id path t ≡ err not_found)
      × (delete_document db io' ctx' doc_id t ≡ err not_found)
      × ((version : ℕ) → get_version db io' ctx' doc_id version t ≡ err not_found)

  find-Absent :
      (io' : Inputs) (ctx' : AuthContext) (t : Store)
      → find (live_at_id ctx'.org_id doc_id) t.documents ≡ none
      → Absent io' ctx' t
  unfolding get_document update_document append_to_document restore_version move_document
      delete_document get_version lock_document find_live authorize_doc ◌>>=◌
  find-Absent io' ctx' t h = (
    ground arith,
    λ content version kind fits. ground arith,
    λ addition. ground arith,
    λ version. ground arith,
    λ path valid. ground arith,
    ground arith,
    λ version. ground arith,
  )

  -- After a deletion that succeeds, to every caller of the organization, get_document, get_version,
  -- update_document, append_to_document, restore_version, move_document and delete_document fail with
  -- `not_found` on the document, once the checks on their arguments pass, and no chunk of it is left
  -- for the search.
  pub delete_document-not_found :
      (io' : Inputs) (ctx' : AuthContext) (s t : Store)
      → delete_document db io ctx doc_id s ≡ ok (tt, t)
      → ctx'.org_id ≡ ctx.org_id
      → Absent io' ctx' t × (any (of_document ctx.org_id doc_id) t.chunks ≡ false)
  unfolding delete_document drop_document lock_document find_live authorize_doc
  delete_document-not_found io' ctx' s t h same_org = bind_elim _ _ _ h λ cur s1 e1 h1.
      bind_elim _ _ _ h1 λ _ s2 e2 h2. bind_elim _ _ _ h2 λ _ s3 e3 h3.
        let p3 = write-eq-ok _ s2 e3 in
        let p4 = audit_lem ctx s3 io (io.new_id 2) _ _ _ h3 in
        let gone =
          find-update_rows_none (live_at_id ctx.org_id doc_id) (live_at_id ctx.org_id doc_id)
            (λ d. record d { deleted_at = some io.db_now }) s2.documents (λ d. ground arith) in
        let clean = any-delete_rows (of_document ctx.org_id doc_id) s2.chunks in
        (find-Absent io' ctx' t (ground arith), ground arith)
