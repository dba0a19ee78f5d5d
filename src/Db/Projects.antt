-- ===== src/Db/Projects.antt =====
-- crates/db/src/org.rs: the current organization and its projects.
pub mod Laws
use md_manager.Base.{
  ℕ, Bool, true, false, ◌&&◌, ◌||◌, Option, none, some, List, [], ◌∷◌, find, any, ◌==◌, nat_eq,
  bytes_eq, if◌then◌else◌,
}
use md_manager.Fault.{not_found, Result, ok, err, ok_or}
use md_manager.Text.{Text}
use md_manager.Model.{AuthContext}
use md_manager.Rbac.{require_admin, require_read}
use md_manager.Validate.{validate_slug}
use md_manager.Db.{Inputs}
use md_manager.Db.Access.{in_org}
use md_manager.Db.Organizations.{Organization, into_organization}
use md_manager.Db.Rows.{insert_row}
use md_manager.Db.Statements.{is_live, audit}
use md_manager.Db.Tables.{Store, ProjectRow, uuid, text}
use md_manager.Db.Tx.{Tx, pure, query, write, lift, ◌>>=◌, ◌>>◌}

pub record Project : Type 0 where
  pub id : ℕ
  pub org_id : ℕ
  pub slug : Text
  pub name : Text
  pub created_at : ℕ

-- `ProjectRow`'s conversion
unfoldable pub into_project : ProjectRow → Project
into_project p = record {
  id = p.id;
  org_id = p.org_id;
  slug = p.slug;
  name = p.name;
  created_at = p.created_at;
}

-- The primary key, and the index on `(org_id, slug)` of the projects that are not deleted.
unfoldable pub insert_project : ProjectRow → Tx (Unit {0})
insert_project row = write λ s.
    elim (insert_row "projects_org_slug_uniq"
      (λ p.
        p.id == row.id || p.org_id == row.org_id && (p.slug == row.slug && is_live p.deleted_at))
      row s.projects) [ ok rows ↦ ok (record s { projects = rows }) | err e ↦ err e ]

-- `WHERE slug = $1 AND deleted_at IS NULL`, within the caller's organization
abbrev pub has_slug : ℕ → Text → ProjectRow → Bool
has_slug org_id slug p = in_org org_id p.org_id && (p.slug == slug && is_live p.deleted_at)

module _ (io : Inputs) (ctx : AuthContext) where
  unfoldable pub project_row : Text → Text → ProjectRow
  project_row slug name = record {
    id = io.new_id 0;
    org_id = ctx.org_id;
    slug = slug;
    name = name;
    created_at = io.db_now;
    deleted_at = none;
  }

  unfoldable pub create_project : Text → Text → Tx Project
  create_project slug name = do
    lift (require_admin ctx)
    lift (validate_slug slug)
    let row = project_row slug name
    insert_project row
    audit io ctx (io.new_id 2) "project.create" (some (uuid row.id)) (("slug", text slug) ∷ [])
    pure (into_project row)

module _ (ctx : AuthContext) where
  unfoldable pub get_project_by_slug : Text → Tx Project
  get_project_by_slug slug = do
    lift (require_read ctx)
    row ← query (λ s. ok_or (find (has_slug ctx.org_id slug) s.projects) not_found)
    pure (into_project row)

  unfoldable pub get_current_org : Tx Organization
  get_current_org = do
    row ← query (λ s.
        ok_or (find (λ o. o.id == ctx.org_id && is_live o.deleted_at) s.accounts.organizations)
          not_found)
    pure (into_organization row)
