-- ===== src/Db/Versions.antt =====
-- crates/db/src/document.rs: the statements that the document operations share, among them the
-- version snapshots and the coalescing of autosaves.
pub mod Laws
pub mod Newest
use md_manager.Base.{
  ℕ, suc, ◌+◌, ◌*◌, ◌≤◌, ◌<◌, String, Bool, true, false, not, ◌&&◌, ◌||◌, Option, none, some, List,
  [], ◌∷◌, ◌++◌, find, filter, any, length, ltb, leb, ◌==◌, nat_eq, bytes_eq, string_eq,
  if◌then◌else◌, ◌<>◌,
}
use md_manager.Fault.{
  internal, not_found, already_exists, invalid, too_many_requests, Result, ok, err, ok_or, guard,
}
use md_manager.Text.{Text, len, is_empty, ends_with_char}
use md_manager.Validate.{validate_path, validate_title, validate_content_size, decimal}
use md_manager.Crypto.{content_hash}
use md_manager.Model.{Role, AuthContext, VersionKind, version_kind_as_str, actor_type_as_str}
use md_manager.Db.{Db, Inputs, seconds}
use md_manager.Db.Access.{in_org, authorize_doc, authorize_project}
use md_manager.Db.Rows.{update_rows, insert_row, delete_rows}
use md_manager.Db.Statements.{
  is_live, at_id, live_at_id, deleted_at_id, same_path, content_ceiling, set_content, returning,
  insert_version, audit,
}
use md_manager.Db.Reindex.{of_document, reindex_chunks}
use md_manager.Db.Tables.{Store, DocumentRow, VersionRow, ProjectRow, Scalar, uuid, num, text}
use md_manager.Db.Tx.{Tx, pure, fail, query, write, lift, ◌>>=◌, ◌>>◌}

-- `unwrap_or_default`
abbrev pub text_or_empty : Option Text → Text
text_or_empty none = []
text_or_empty (some t) = t

-- A version row of a document, as an organization sees it.
abbrev pub version_at : ℕ → ℕ → ℕ → VersionRow → Bool
version_at org_id doc_id version v =
    in_org org_id v.org_id && (v.document_id == doc_id && v.version == version)

-- `SELECT content FROM document_versions WHERE document_id = $1 AND version = $2`
unfoldable pub snapshot : ℕ → ℕ → ℕ → List VersionRow → Option Text
snapshot org_id doc_id version rows = elim (find (version_at org_id doc_id version) rows) [
  | none ↦ none
  | some v ↦ some v.content
]

abbrev newer : VersionRow → Option VersionRow → VersionRow
newer v none = v
newer v (some w) = if ltb v.version w.version then w else v

-- `SELECT … WHERE document_id = $1 ORDER BY version DESC LIMIT 1`
unfoldable pub latest_version : ℕ → ℕ → List VersionRow → Option VersionRow
latest_version org_id doc_id [] = none
latest_version org_id doc_id (v ∷ vs) =
    let rest = latest_version org_id doc_id vs in
    if in_org org_id v.org_id && v.document_id == doc_id then some (newer v rest) else rest

-- `append_to_document`'s new content
unfoldable pub appended : Text → Text → Text
appended content addition =
    let base =
      if not (is_empty content) && not (ends_with_char content b'\n')
      then content ++ b'\n' ∷ []
      else content in
    base ++ addition

-- `project_exists`
unfoldable pub project_exists : ℕ → ℕ → List ProjectRow → Bool
project_exists org_id project_id =
    any (λ p. in_org org_id p.org_id && (p.id == project_id && is_live p.deleted_at))

-- `SELECT count(*) FROM documents WHERE project_id = $1 AND deleted_at IS NULL`
unfoldable pub count_live : ℕ → ℕ → List DocumentRow → ℕ
count_live org_id project_id rows = length (
    filter (λ d. in_org org_id d.org_id && (d.project_id == project_id && is_live d.deleted_at))
      rows)

module _ (db : Db) (io : Inputs) (ctx : AuthContext) where
  -- The table's check on the content, its primary key and its unique index.
  unfoldable pub document_rows : ℕ → DocumentRow → List DocumentRow → Result (List DocumentRow)
  unfolding insert_row
  document_rows project_id d rows =
      if leb (len d.content) content_ceiling
      then insert_row "documents_project_path_uniq"
          (λ e. e.id == d.id || same_path project_id d.path e) d rows
      else err (internal "documents_content_check")

  -- `INSERT INTO documents …`
  unfoldable pub insert_document : ℕ → DocumentRow → Tx (Unit {0})
  unfolding document_rows
  insert_document project_id d = write λ s. elim (document_rows project_id d s.documents) [
    | ok rows ↦ ok (record s { documents = rows })
    | err e ↦ err e
  ]

  -- The row that `get_document`, `lock_document` and `authorize_doc_read` look up.
  unfoldable pub find_live : ℕ → Tx DocumentRow
  find_live doc_id = query λ s. ok_or (find (live_at_id ctx.org_id doc_id) s.documents) not_found

  -- `SELECT … FOR UPDATE`: transactions on one document run one after another.
  unfoldable pub lock_document : ℕ → Tx DocumentRow
  unfolding find_live
  lock_document doc_id = find_live doc_id

  -- The test of `try_coalesce`: a recent autosave of the same actor.
  unfoldable pub coalesces : VersionKind → Option VersionRow → Bool
  coalesces kind none = false
  coalesces kind (some latest) =
      (version_kind_as_str kind == "autosave" && latest.version_kind == "autosave")
      && ((latest.actor_id == ctx.user_id && latest.actor_type == actor_type_as_str ctx.actor_type)
          && ltb io.now_utc (latest.created_at + seconds db.autosave_debounce_secs))

  -- `UPDATE document_versions SET … WHERE id = $3`
  unfoldable pub overwrite_version : ℕ → Text → Text → Tx (Unit {0})
  overwrite_version row_id content hash = write λ s. ok (record s {
    versions =
        update_rows (λ v. in_org ctx.org_id v.org_id && v.id == row_id)
          (λ v. record v { content = content; content_hash = hash; created_at = io.db_now })
          s.versions;
  })

  -- The two forms of `UPDATE documents SET content = …`.
  unfoldable pub rewritten : Text → Text → DocumentRow → DocumentRow
  rewritten content hash d = record d {
    content = content;
    content_hash = hash;
    updated_by = ctx.user_id;
    updated_at = io.db_now;
  }

  unfoldable pub bumped : Text → Text → ℕ → DocumentRow → DocumentRow
  bumped content hash version d = record d {
    content = content;
    content_hash = hash;
    current_version = version;
    updated_by = ctx.user_id;
    updated_at = io.db_now;
  }

  -- A new version of a document: the statements that update, append and restore share.
  unfoldable pub save_version : ℕ → ℕ → Text → VersionKind → Tx DocumentRow
  save_version doc_id new_version content kind = do
    let hash = content_hash db.hashes content
    set_content ctx.org_id doc_id content (bumped content hash new_version)
    doc ← returning ctx.org_id doc_id
    insert_version io ctx (io.new_id 1) doc_id new_version content hash kind
    pure doc

  unfoldable pub overwrite_latest : ℕ → Text → Option VersionRow → Tx DocumentRow
  overwrite_latest doc_id content none = fail not_found
  overwrite_latest doc_id content (some latest) = do
    let hash = content_hash db.hashes content
    overwrite_version latest.id content hash
    set_content ctx.org_id doc_id content (rewritten content hash)
    returning ctx.org_id doc_id

  -- `try_coalesce`, and the branch on its result.
  unfoldable pub coalesce_or_save : ℕ → ℕ → Text → VersionKind → Tx DocumentRow
  coalesce_or_save doc_id current content kind = do
    latest ← query (λ s. ok (latest_version ctx.org_id doc_id s.versions))
    if coalesces kind latest
        then overwrite_latest doc_id content latest
        else save_version doc_id (current + 1) content kind

  -- `reindex_chunks` and the audit entry, which end each operation that writes a content.
  unfoldable pub finish : String → ℕ → Text → List (String × Scalar) → Tx (Unit {0})
  finish action doc_id content metadata = do
    reindex_chunks db.hashes ctx doc_id (λ k. io.new_id (k + 3)) content
    audit io ctx (io.new_id 2) action (some (uuid doc_id)) metadata

  -- `UPDATE documents SET path = …`, refused where a live document of the project has the path.
  unfoldable pub set_path : ℕ → ℕ → Text → Tx (Unit {0})
  set_path doc_id project_id new_path = write λ s.
      if any (λ d. not (d.id == doc_id) && same_path project_id new_path d) s.documents
      then err (already_exists "documents_project_path_uniq")
      else ok (record s {
        documents =
            update_rows (live_at_id ctx.org_id doc_id)
              (λ d. record d { path = new_path; updated_by = ctx.user_id; updated_at = io.db_now })
              s.documents;
      })

  -- `UPDATE documents SET deleted_at = now() …` and `DELETE FROM doc_chunks …`
  unfoldable pub drop_document : ℕ → Tx (Unit {0})
  drop_document doc_id = write λ s. ok (record s {
    documents =
        update_rows (live_at_id ctx.org_id doc_id) (λ d. record d { deleted_at = some io.db_now })
          s.documents;
    chunks = delete_rows (of_document ctx.org_id doc_id) s.chunks;
  })

  -- `UPDATE documents SET deleted_at = NULL …`, which may clash with a live document at its path.
  unfoldable pub revive : ℕ → DocumentRow → Tx (Unit {0})
  revive doc_id old = write λ s.
      if any (λ d. not (d.id == doc_id) && same_path old.project_id old.path d) s.documents
      then err (already_exists "documents_project_path_uniq")
      else ok (record s {
        documents =
            update_rows (deleted_at_id ctx.org_id doc_id)
              (λ d. record d { deleted_at = none; updated_at = io.db_now }) s.documents;
      })
