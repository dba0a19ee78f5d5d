-- ===== src/Db/Document.antt =====
-- crates/db/src/document.rs: documents, full-snapshot versions, optimistic concurrency.
-- `io.new_id` gives, in this order, the id of a new document, of its version row and of the audit
-- entry, and from 3 on those of the chunk rows. A returned `Document` is the row itself.
pub mod Updates
pub mod Saves
pub mod Conflicts
pub mod Creation
pub mod Refusals
use md_manager.Base.{
  ℕ, suc, ◌+◌, ◌*◌, ◌≤◌, ◌<◌, String, Bool, true, false, not, ◌&&◌, ◌||◌, Option, none, some, List,
  [], ◌∷◌, ◌++◌, find, filter, any, length, ltb, leb, ◌==◌, nat_eq, bytes_eq, string_eq,
  if◌then◌else◌, ◌<>◌,
}
use md_manager.Fault.{
  Result, ok, err, not_found, already_exists, invalid, too_many_requests, Result, ok, err, ok_or,
  guard,
}
use md_manager.Text.{Text, is_empty, ends_with_char}
use md_manager.Validate.{validate_path, validate_title, validate_content_size, decimal}
use md_manager.Crypto.{content_hash}
use md_manager.Model.{
  ActorType, version_kind_from_db, actor_type_from_db, Role, AuthContext, VersionKind,
  version_kind_as_str, actor_type_as_str,
}
use md_manager.Db.{Db, Inputs, seconds}
use md_manager.Db.Access.{in_org, authorize_doc, authorize_project}
use md_manager.Db.Rows.{update_rows, insert_row, delete_rows}
use md_manager.Db.Statements.{
  is_live, at_id, live_at_id, deleted_at_id, same_path, content_ceiling, set_content, returning,
  insert_version, audit,
}
use md_manager.Db.Reindex.{of_document, reindex_chunks}
use md_manager.Db.Tables.{Store, DocumentRow, VersionRow, ProjectRow, Scalar, uuid, num, text}
use md_manager.Db.Tx.{Tx, pure, fail, query, write, lift, ◌>>=◌, ◌>>◌}
use md_manager.Db.Versions.{
  text_or_empty, version_at, snapshot, latest_version, appended, project_exists, count_live,
  insert_document, find_live, lock_document, coalesces, overwrite_version, rewritten, bumped,
  save_version, overwrite_latest, coalesce_or_save, finish, set_path, drop_document, revive,
}

pub data UpdateOutcome : Type 0 where
  updated : DocumentRow → UpdateOutcome
  stale : ℕ → Text → Text → UpdateOutcome

pub record DocumentVersion : Type 0 where
  pub id : ℕ
  pub document_id : ℕ
  pub version : ℕ
  pub content : Text
  pub content_hash : Text
  pub version_kind : VersionKind
  pub actor_type : ActorType
  pub actor_id : ℕ
  pub created_at : ℕ

-- `VersionRow::into_core`, in its two fallible steps.
abbrev with_actor : VersionRow → VersionKind → Result ActorType → Result DocumentVersion
with_actor r kind (err e) = err e
with_actor r kind (ok actor) = ok (record {
  id = r.id;
  document_id = r.document_id;
  version = r.version;
  content = r.content;
  content_hash = r.content_hash;
  version_kind = kind;
  actor_type = actor;
  actor_id = r.actor_id;
  created_at = r.created_at;
})

unfoldable pub version_core : VersionRow → Result DocumentVersion
unfolding version_kind_from_db actor_type_from_db
version_core r = elim (version_kind_from_db r.version_kind) [
  | ok kind ↦ with_actor r kind (actor_type_from_db r.actor_type)
  | err e ↦ err e
]

module _ (db : Db) (io : Inputs) (ctx : AuthContext) where
  unfoldable pub create_document : ℕ → Text → Text → Text → Tx DocumentRow
  create_document project_id path title content = do
    lift (validate_path path)
    lift (validate_title title)
    lift (validate_content_size content db.max_doc_bytes)
    query (λ s.
        guard (project_exists ctx.org_id project_id s.projects)
          (invalid "project not found in this organization"))
    authorize_project ctx project_id Role.editor
    query (λ s. guard (ltb (count_live ctx.org_id project_id s.documents) db.max_docs_per_project) (
        too_many_requests
          ("project document limit reached (" <> decimal db.max_docs_per_project <> ")")))
    let doc_id = io.new_id 0
    let hash = content_hash db.hashes content
    let doc : DocumentRow = record {
      id = doc_id;
      org_id = ctx.org_id;
      project_id = project_id;
      path = path;
      title = title;
      content = content;
      content_hash = hash;
      current_version = 1;
      created_by = ctx.user_id;
      updated_by = ctx.user_id;
      created_at = io.db_now;
      updated_at = io.db_now;
      deleted_at = none;
    }
    insert_document db io ctx project_id doc
    insert_version io ctx (io.new_id 1) doc_id 1 content hash VersionKind.checkpoint
    reindex_chunks db.hashes ctx doc_id (λ k. io.new_id (k + 3)) content
    audit io ctx (io.new_id 2) "doc.create" (some (uuid doc_id)) (("path", text path) ∷ [])
    pure doc

  unfoldable pub get_document : ℕ → Tx DocumentRow
  get_document doc_id = do
    row ← find_live db io ctx doc_id
    authorize_doc ctx doc_id row.project_id Role.viewer
    pure row

  unfoldable pub get_document_by_path : ℕ → Text → Tx DocumentRow
  get_document_by_path project_id path = do
    row ← query λ s.
        ok_or (find (λ d. in_org ctx.org_id d.org_id && same_path project_id path d) s.documents)
          not_found
    authorize_doc ctx row.id row.project_id Role.viewer
    pure row

  unfoldable pub update_document : ℕ → Text → ℕ → VersionKind → Tx UpdateOutcome
  update_document doc_id content expected_version kind = do
    lift (validate_content_size content db.max_doc_bytes)
    cur ← lock_document db io ctx doc_id
    authorize_doc ctx doc_id cur.project_id Role.editor
    if not (cur.current_version == expected_version)
        then (do
          base ← query (λ s. ok (snapshot ctx.org_id doc_id expected_version s.versions))
          pure (stale cur.current_version cur.content (text_or_empty base)))
        else (do
          doc ← coalesce_or_save db io ctx doc_id cur.current_version content kind
          finish db io ctx "doc.update" doc_id content (("version", num doc.current_version) ∷ [])
          pure (updated doc))

  unfoldable pub append_to_document : ℕ → Text → Tx DocumentRow
  append_to_document doc_id addition = do
    cur ← lock_document db io ctx doc_id
    authorize_doc ctx doc_id cur.project_id Role.editor
    let new_content = appended cur.content addition
    lift (validate_content_size new_content db.max_doc_bytes)
    let new_version = cur.current_version + 1
    doc ← save_version db io ctx doc_id new_version new_content VersionKind.autosave
    finish db io ctx "doc.append" doc_id new_content (("version", num new_version) ∷ [])
    pure doc

  unfoldable pub restore_version : ℕ → ℕ → Tx DocumentRow
  restore_version doc_id version = do
    cur ← lock_document db io ctx doc_id
    authorize_doc ctx doc_id cur.project_id Role.editor
    content ← query (λ s. ok_or (snapshot ctx.org_id doc_id version s.versions) not_found)
    let new_version = cur.current_version + 1
    doc ← save_version db io ctx doc_id new_version content VersionKind.checkpoint
    finish db io ctx "doc.restore" doc_id content
        (("restored_from", num version) ∷ ("new_version", num new_version) ∷ [])
    pure doc

  unfoldable pub move_document : ℕ → Text → Tx DocumentRow
  move_document doc_id new_path = do
    lift (validate_path new_path)
    cur ← lock_document db io ctx doc_id
    authorize_doc ctx doc_id cur.project_id Role.editor
    set_path db io ctx doc_id cur.project_id new_path
    doc ← find_live db io ctx doc_id
    audit io ctx (io.new_id 2) "doc.move" (some (uuid doc_id)) (("path", text new_path) ∷ [])
    pure doc

  unfoldable pub delete_document : ℕ → Tx (Unit {0})
  delete_document doc_id = do
    cur ← lock_document db io ctx doc_id
    authorize_doc ctx doc_id cur.project_id Role.editor
    drop_document db io ctx doc_id
    audit io ctx (io.new_id 2) "doc.delete" (some (uuid doc_id)) []

  unfoldable pub undelete_document : ℕ → Tx DocumentRow
  undelete_document doc_id = do
    old ← query λ s. ok_or (find (deleted_at_id ctx.org_id doc_id) s.documents) not_found
    authorize_doc ctx doc_id old.project_id Role.editor
    revive db io ctx doc_id old
    doc ← find_live db io ctx doc_id
    finish db io ctx "doc.undelete" doc_id doc.content []
    pure doc

  unfoldable pub get_version : ℕ → ℕ → Tx DocumentVersion
  get_version doc_id version = do
    cur ← find_live db io ctx doc_id
    authorize_doc ctx doc_id cur.project_id Role.viewer
    row ← query λ s. ok_or (find (version_at ctx.org_id doc_id version) s.versions) not_found
    lift (version_core row)
