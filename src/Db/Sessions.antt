-- ===== src/Db/Sessions.antt =====
-- crates/db/src/social.rs: the organizations of a user, web sessions, and new organizations.
pub mod Laws
use md_manager.Base.{
  ℕ, String, Bool, true, false, not, ◌&&◌, ◌||◌, Option, none, some, List, [], ◌∷◌, filter, find,
  any, ltb, leb, ◌==◌, nat_eq, bytes_eq, if◌then◌else◌,
}
use md_manager.Fault.{
  forbidden, invalid, already_exists, Result, ok, err, ok_or, guard, ◌>>=◌, ◌>>◌,
}
use md_manager.Text.{Text, trim, is_empty}
use md_manager.Model.{OrgRole, ActorType, AuthContext, org_role_from_db}
use md_manager.Db.Authentication.{member_role}
use md_manager.Db.Statements.{is_live}
use md_manager.Db.Tables.{Store, MemberRow}
use md_manager.Db.Tables.Accounts.{OrganizationRow}

-- `UserOrg`
pub record UserOrg : Type 0 where
  pub id : ℕ
  pub slug : Text
  pub name : Text
  pub role : OrgRole

-- `ORDER BY o.created_at`
unfoldable pub insert_by_time : OrganizationRow → List OrganizationRow → List OrganizationRow
insert_by_time o [] = o ∷ []
insert_by_time o (p ∷ rest) =
    let later = insert_by_time o rest in
    if leb o.created_at p.created_at then o ∷ p ∷ rest else p ∷ later

unfoldable pub sort_by_time : List OrganizationRow → List OrganizationRow
unfolding insert_by_time
sort_by_time [] = []
sort_by_time (o ∷ rest) = insert_by_time o (sort_by_time rest)

-- The join with the user's memberships; its primary key allows one row for each organization.
unfoldable pub joined : ℕ → List MemberRow → List OrganizationRow → List (OrganizationRow × String)
unfolding member_role
joined user_id members [] = []
joined user_id members (o ∷ rest) =
    let others = joined user_id members rest in
    elim (if is_live o.deleted_at then member_role o.id user_id members else none) [
      | none ↦ others
      | some role ↦ (o, role) ∷ others
    ]

abbrev push_org : UserOrg → Result (List UserOrg) → Result (List UserOrg)
push_org o (ok rest) = ok (o ∷ rest)
push_org o (err e) = err e

-- `rows.into_iter().map(…).collect()`
unfoldable pub collect_orgs : List (OrganizationRow × String) → Result (List UserOrg)
unfolding org_role_from_db
collect_orgs [] = ok []
collect_orgs ((o, role) ∷ rest) =
    let others = collect_orgs rest in
    elim (org_role_from_db role) [
      | ok r ↦ push_org (record { id = o.id; slug = o.slug; name = o.name; role = r }) others
      | err e ↦ err e
    ]

unfoldable pub list_user_orgs : ℕ → Store → Result (List UserOrg)
unfolding sort_by_time joined collect_orgs
list_user_orgs user_id s =
    collect_orgs (joined user_id s.members (sort_by_time s.accounts.organizations))

abbrev pub first_org : List UserOrg → Option UserOrg
first_org [] = none
first_org (o ∷ rest) = some o

-- The organization that a session acts in.
unfoldable pub chosen_org : Option ℕ → List UserOrg → Option UserOrg
chosen_org none orgs = first_org orgs
chosen_org (some org_id) orgs = find (λ o. o.id == org_id) orgs

unfoldable pub authenticate_session : ℕ → Option ℕ → Store → Result AuthContext
unfolding list_user_orgs chosen_org
authenticate_session user_id org_override s = do
  orgs ← list_user_orgs user_id s
  target ← ok_or (chosen_org org_override orgs) forbidden
  ok (record {
    org_id = target.id;
    user_id = user_id;
    actor_type = ActorType.user;
    org_role = target.role;
  })

-- crates/db/src/oauth.rs: the context of a connector that spans the user's organizations. The
-- text of an identifier (crate uuid) is a parameter.
unfoldable pub authenticate_oauth_user_in_org : (ℕ → Text) → ℕ → Text → Store → Result AuthContext
unfolding list_user_orgs
authenticate_oauth_user_in_org uuid_text user_id org_ref s = do
  orgs ← list_user_orgs user_id s
  org ← ok_or (find (λ o. o.slug == org_ref || uuid_text o.id == org_ref) orgs) forbidden
  ok (record {
    org_id = org.id;
    user_id = user_id;
    actor_type = ActorType.agent;
    org_role = org.role;
  })
