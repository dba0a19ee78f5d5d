-- ===== src/Db/Statements.antt =====
-- The SQL statements on documents, versions and the audit log, under row-level security: a row of
-- another organization is neither seen nor changed, and a new row carries the caller's organization.
pub mod Laws
use md_manager.Base.{
  ℕ, suc, ◌≤◌, String, Bool, true, false, not, ◌&&◌, ◌||◌, Option, none, some, List, [], ◌∷◌, find,
  filter, any, ltb, leb, ◌==◌, nat_eq, bytes_eq, string_eq, if◌then◌else◌,
}
use md_manager.Fault.{not_found, already_exists, internal, Result, ok, err, ok_or}
use md_manager.Text.{Text, len}
use md_manager.Model.{AuthContext, VersionKind, version_kind_as_str, actor_type_as_str}
use md_manager.Db.{Inputs}
use md_manager.Db.Access.{in_org}
use md_manager.Db.Rows.{update_rows, insert_row}
use md_manager.Db.Tables.{Store, DocumentRow, VersionRow, AuditRow, Scalar}
use md_manager.Db.Tx.{Tx, pure, query, write, ◌>>=◌, ◌>>◌}

abbrev pub is_live : Option ℕ → Bool
is_live none = true
is_live (some t) = false

-- The row of a document, as an organization sees it: `id = $1 [AND deleted_at IS NULL]`.
abbrev pub at_id : ℕ → ℕ → DocumentRow → Bool
at_id org_id doc_id d = in_org org_id d.org_id && d.id == doc_id

abbrev pub live_at_id : ℕ → ℕ → DocumentRow → Bool
live_at_id org_id doc_id d = at_id org_id doc_id d && is_live d.deleted_at

abbrev pub deleted_at_id : ℕ → ℕ → DocumentRow → Bool
deleted_at_id org_id doc_id d = at_id org_id doc_id d && not (is_live d.deleted_at)

-- The unique index on (project_id, path) among live documents, and the primary key.
abbrev pub same_path : ℕ → Text → DocumentRow → Bool
same_path project_id path d = is_live d.deleted_at && (d.project_id == project_id && d.path == path)

-- `CHECK (octet_length(content) <= 10485760)`
abbrev pub content_ceiling : ℕ
content_ceiling = 10485760

-- `UPDATE documents SET … WHERE …`, refused by the check on the content.
unfoldable pub set_content : ℕ → ℕ → Text → (DocumentRow → DocumentRow) → Tx (Unit {0})
unfolding update_rows
set_content org_id doc_id content change = write λ s.
    if leb (len content) content_ceiling
    then ok (record s { documents = update_rows (at_id org_id doc_id) change s.documents })
    else err (internal "documents_content_check")

-- `RETURNING …` of a statement that wrote the document: `fetch_one`.
unfoldable pub returning : ℕ → ℕ → Tx DocumentRow
returning org_id doc_id = query λ s. ok_or (find (at_id org_id doc_id) s.documents) not_found

module _ (io : Inputs) (ctx : AuthContext) where
  -- `insert_version`; `row_id` is its `Uuid::now_v7()`.
  unfoldable pub version_row : ℕ → ℕ → ℕ → Text → Text → VersionKind → VersionRow
  version_row row_id doc_id version content hash kind = record {
    id = row_id;
    org_id = ctx.org_id;
    document_id = doc_id;
    version = version;
    content = content;
    content_hash = hash;
    version_kind = version_kind_as_str kind;
    actor_type = actor_type_as_str ctx.actor_type;
    actor_id = ctx.user_id;
    created_at = io.db_now;
  }

  unfoldable pub insert_version : ℕ → ℕ → ℕ → Text → Text → VersionKind → Tx (Unit {0})
  unfolding version_row insert_row
  insert_version row_id doc_id version content hash kind = write λ s.
      elim (insert_row "document_versions_document_id_version_key"
        (λ v. v.id == row_id || (v.document_id == doc_id && v.version == version))
        (version_row row_id doc_id version content hash kind) s.versions) [
          | ok rows ↦ ok (record s { versions = rows })
          | err e ↦ err e
        ]

  -- `audit`; `row_id` is its `Uuid::now_v7()`.
  unfoldable pub audit : ℕ → String → Option Scalar → List (String × Scalar) → Tx (Unit {0})
  unfolding insert_row
  audit row_id action target metadata = write λ s.
      elim (insert_row "audit_log_pkey" (λ a. a.id == row_id)
        (record {
          id = row_id;
          org_id = ctx.org_id;
          actor_type = actor_type_as_str ctx.actor_type;
          actor_id = ctx.user_id;
          action = action;
          target = target;
          metadata = metadata;
        })
        s.audit_log) [ ok rows ↦ ok (record s { audit_log = rows }) | err e ↦ err e ]
