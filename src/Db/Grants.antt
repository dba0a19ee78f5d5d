-- ===== src/Db/Grants.antt =====
-- crates/db/src/access.rs: the administration of teams and grants.
pub mod Denials
pub mod Refusals
use md_manager.Base.{
  ℕ, String, Bool, true, false, not, ◌&&◌, ◌||◌, Option, none, some, List, [], ◌∷◌, any, ◌==◌,
  nat_eq, bytes_eq, string_eq, if◌then◌else◌,
}
use md_manager.Fault.{not_found, already_exists, invalid, internal, Result, ok, err, guard}
use md_manager.Text.{Text}
use md_manager.Model.{Role, AuthContext, role_as_str}
use md_manager.Rbac.{require_admin}
use md_manager.Validate.{validate_slug, validate_title}
use md_manager.Db.{Inputs}
use md_manager.Db.Access.{in_org}
use md_manager.Db.Rows.{update_rows, insert_row}
use md_manager.Db.Statements.{audit}
use md_manager.Db.Tables.{Store, TeamRow, GrantRow, TeamMemberRow, Scalar, uuid, text, word}
use md_manager.Db.Tx.{Tx, pure, query, write, lift, ◌>>=◌, ◌>>◌}

unfoldable pub validate_subject_type : String → Result (Unit {0})
validate_subject_type s =
    guard (s == "user" || s == "team") (invalid "subject_type must be 'user' or 'team'")

-- The grant of a subject on a target, as the unique index sees it.
abbrev pub same_grant : ℕ → String → ℕ → GrantRow → Bool
same_grant target_id subject_type subject_id g =
    g.target_id == target_id && (g.subject_type == subject_type && g.subject_id == subject_id)

-- `INSERT … ON CONFLICT (…) DO UPDATE SET role = EXCLUDED.role`. A conflict with a row of another
-- organization, which row-level security hides, is an error.
unfoldable pub upsert_grant : GrantRow → List GrantRow → Result (List GrantRow)
unfolding update_rows insert_row
upsert_grant g rows =
    let clash = same_grant g.target_id g.subject_type g.subject_id in
    if any (λ r. clash r && not (in_org g.org_id r.org_id)) rows
    then err (internal "row-level security")
    else if any clash rows
    then ok (update_rows clash (λ r. record r { role = g.role }) rows)
    else insert_row "grants_pkey" (λ r. r.id == g.id) g rows

module _ (io : Inputs) (ctx : AuthContext) where
  unfoldable pub create_team : Text → Text → Tx TeamRow
  create_team slug name = do
    lift (require_admin ctx)
    lift (validate_slug slug)
    lift (validate_title name)
    let row : TeamRow = record {
      id = io.new_id 0;
      org_id = ctx.org_id;
      slug = slug;
      name = name;
      created_at = io.db_now;
    }
    write λ s.
        elim (insert_row "teams_org_slug_uniq"
          (λ t. t.id == row.id || (t.org_id == ctx.org_id && t.slug == slug)) row s.teams) [
            | ok rows ↦ ok (record s { teams = rows })
            | err e ↦ err e
          ]
    audit io ctx (io.new_id 2) "team.create" (some (uuid row.id)) (("slug", text slug) ∷ [])
    pure row

  -- `INSERT INTO team_members … ON CONFLICT DO NOTHING`
  unfoldable pub join_team : ℕ → ℕ → Tx (Unit {0})
  join_team team_id user_id = write λ s.
      if any (λ m. m.team_id == team_id && m.user_id == user_id) s.team_members
      then ok s
      else ok (record s {
        team_members =
            record { org_id = ctx.org_id; team_id = team_id; user_id = user_id } ∷ s.team_members;
      })

  unfoldable pub add_team_member : ℕ → ℕ → Tx (Unit {0})
  add_team_member team_id user_id = do
    lift (require_admin ctx)
    query (λ s. guard (any (λ t. in_org ctx.org_id t.org_id && t.id == team_id) s.teams) not_found)
    query (λ s.
        guard (any (λ m. m.org_id == ctx.org_id && m.user_id == user_id) s.members)
          (invalid "user is not a member of this organization"))
    join_team team_id user_id
    audit io ctx (io.new_id 2) "team.add_member" (some (uuid team_id))
        (("user_id", uuid user_id) ∷ [])

  -- The row of a new grant.
  abbrev pub grant_row : ℕ → String → ℕ → Role → GrantRow
  grant_row target_id subject_type subject_id role = record {
    id = io.new_id 0;
    org_id = ctx.org_id;
    target_id = target_id;
    subject_type = subject_type;
    subject_id = subject_id;
    role = role_as_str role;
  }

  abbrev grant_metadata : String → ℕ → Role → List (String × Scalar)
  grant_metadata subject_type subject_id role =
      ("subject_type", word subject_type)
      ∷ ("subject_id", uuid subject_id)
      ∷ ("role", word (role_as_str role))
      ∷ []

  abbrev is_none : Role → Bool
  is_none Role.none = true
  is_none _ = false

  unfoldable pub grant_project : ℕ → String → ℕ → Role → Tx (Unit {0})
  grant_project project_id subject_type subject_id role = do
    lift (require_admin ctx)
    lift (validate_subject_type subject_type)
    lift (guard (not (is_none role)) (invalid "project grants cannot be a deny (role 'none')"))
    write λ s.
        elim (upsert_grant (grant_row project_id subject_type subject_id role) s.project_grants) [
          | ok rows ↦ ok (record s { project_grants = rows })
          | err e ↦ err e
        ]
    audit io ctx (io.new_id 2) "grant.project" (some (uuid project_id))
        (grant_metadata subject_type subject_id role)

  unfoldable pub grant_document : ℕ → String → ℕ → Role → Tx (Unit {0})
  grant_document doc_id subject_type subject_id role = do
    lift (require_admin ctx)
    lift (validate_subject_type subject_type)
    write λ s.
        elim (upsert_grant (grant_row doc_id subject_type subject_id role) s.document_grants) [
          | ok rows ↦ ok (record s { document_grants = rows })
          | err e ↦ err e
        ]
    audit io ctx (io.new_id 2) "grant.document" (some (uuid doc_id))
        (grant_metadata subject_type subject_id role)
