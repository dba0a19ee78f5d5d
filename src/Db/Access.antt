-- ===== src/Db/Access.antt =====
-- crates/db/src/access.rs: the effective role on a document or project, teams, and grants.
-- Every statement runs in a transaction that is scoped to one organization: row-level security
-- shows it the rows of that organization only (`in_org`).
pub mod Laws
use md_manager.Base.{
  ℕ, String, Bool, true, false, not, ◌&&◌, ◌||◌, Option, none, some, List, [], ◌∷◌, ◌++◌, map,
  filter, any, find, ◌==◌, nat_eq, string_eq, if◌then◌else◌,
}
use md_manager.Fault.{Error, forbidden, not_found, invalid, internal, Result, ok, err, ok_or, guard}
use md_manager.Model.{Role, OrgRole, AuthContext, role_from_db, role_as_str, at_least}
use md_manager.Rbac.{DocAccess, resolve_doc_role, require_admin}
use md_manager.Db.Tables.{Store, GrantRow, TeamMemberRow, ProjectRow}
use md_manager.Db.Tx.{Tx, pure, query, write, lift, ◌>>=◌, ◌>>◌}

abbrev pub in_org : ℕ → ℕ → Bool
in_org org_id row_org_id = row_org_id == org_id

abbrev pub member_of : ℕ → List ℕ → Bool
member_of a = any (λ b. b == a)

-- `SELECT team_id FROM team_members WHERE user_id = $1`
unfoldable pub team_ids : ℕ → ℕ → List TeamMemberRow → List ℕ
team_ids org_id user_id rows =
    map (λ r. r.team_id) (filter (λ r. in_org org_id r.org_id && r.user_id == user_id) rows)

-- `subject_type='user' AND subject_id = $2 OR subject_type='team' AND subject_id = ANY($3)`
unfoldable pub grant_applies : ℕ → List ℕ → GrantRow → Bool
grant_applies user_id teams g =
    (g.subject_type == "user" && g.subject_id == user_id)
    || (g.subject_type == "team" && member_of g.subject_id teams)

-- `SELECT role FROM … WHERE … AND role <> 'none' AND …`
unfoldable pub granted_roles : ℕ → ℕ → ℕ → List ℕ → List GrantRow → List String
unfolding grant_applies
granted_roles org_id target_id user_id teams rows =
    map (λ g. g.role)
      (filter
        (λ g.
          in_org org_id g.org_id
          && (g.target_id == target_id
              && (not (g.role == "none") && grant_applies user_id teams g)))
        rows)

-- `SELECT EXISTS(… role = 'none' …)`
unfoldable pub has_deny : ℕ → ℕ → ℕ → List ℕ → List GrantRow → Bool
unfolding grant_applies
has_deny org_id target_id user_id teams rows =
    any
      (λ g.
        in_org org_id g.org_id
        && (g.target_id == target_id && (g.role == "none" && grant_applies user_id teams g)))
      rows

abbrev push_role : Role → Result (List Role) → Result (List Role)
push_role r (ok rs) = ok (r ∷ rs)
push_role r (err e) = err e

-- `for s in role_strs { grant_roles.push(Role::from_db(&s)?); }`
unfoldable pub parse_roles : List String → Result (List Role)
unfolding role_from_db
parse_roles [] = ok []
parse_roles (s ∷ rest) = elim (role_from_db s) [
  | ok r ↦ push_role r (parse_roles rest)
  | err e ↦ err e
]

abbrev resolve_with : OrgRole → Bool → Result (List Role) → Result Role
resolve_with org_role denied (ok grant_roles) =
    ok (
      resolve_doc_role (record { org_role = org_role; grant_roles = grant_roles; denied = denied }))
resolve_with org_role denied (err e) = err e

unfoldable pub effective_doc_role : AuthContext → ℕ → ℕ → Store → Result Role
unfolding parse_roles team_ids granted_roles has_deny resolve_doc_role
effective_doc_role ctx doc_id project_id s =
    let teams = team_ids ctx.org_id ctx.user_id s.team_members in
    let role_strs =
      granted_roles ctx.org_id project_id ctx.user_id teams s.project_grants
      ++ granted_roles ctx.org_id doc_id ctx.user_id teams s.document_grants in
    let denied = has_deny ctx.org_id doc_id ctx.user_id teams s.document_grants in
    resolve_with ctx.org_role denied (parse_roles role_strs)

unfoldable pub effective_project_role : AuthContext → ℕ → Store → Result Role
unfolding parse_roles team_ids granted_roles resolve_doc_role
effective_project_role ctx project_id s =
    let teams = team_ids ctx.org_id ctx.user_id s.team_members in
    resolve_with ctx.org_role false
      (parse_roles (granted_roles ctx.org_id project_id ctx.user_id teams s.project_grants))

abbrev pub reaches : Role → Result Role → Result (Unit {0})
reaches need (ok have) = guard (at_least have need) forbidden
reaches need (err e) = err e

unfoldable pub may_doc : AuthContext → ℕ → ℕ → Role → Store → Result (Unit {0})
may_doc ctx doc_id project_id need s = reaches need (effective_doc_role ctx doc_id project_id s)

unfoldable pub authorize_doc : AuthContext → ℕ → ℕ → Role → Tx (Unit {0})
authorize_doc ctx doc_id project_id need = query (may_doc ctx doc_id project_id need)

unfoldable pub authorize_project : AuthContext → ℕ → Role → Tx (Unit {0})
authorize_project ctx project_id need =
    query (λ s. reaches need (effective_project_role ctx project_id s))
