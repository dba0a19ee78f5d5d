-- ===== src/Db/Members.antt =====
-- crates/db/src/social.rs: the members of an organization, their roles, and their removal.
pub mod Laws
pub mod Owners
pub mod History
pub mod Roster
pub mod Removal
use md_manager.Base.{
  ℕ, String, Bool, true, false, not, ◌&&◌, ◌||◌, Option, none, some, List, [], ◌∷◌, length, filter,
  find, leb, ◌==◌, nat_eq, string_eq, if◌then◌else◌,
}
use md_manager.Fault.{forbidden, not_found, invalid, Result, ok, err, guard}
use md_manager.Model.{OrgRole, AuthContext, rank, org_role_as_str, org_role_from_db}
use md_manager.Rbac.{require_admin}
use md_manager.Db.{Inputs}
use md_manager.Db.Authentication.{member_role}
use md_manager.Db.Rows.{update_rows, delete_rows}
use md_manager.Db.Statements.{audit}
use md_manager.Db.Tables.{Store, MemberRow, Scalar, uuid, word}
use md_manager.Db.Tx.{Tx, pure, query, write, lift, ◌>>=◌, ◌>>◌}

-- `matches!(role, OrgRole::Owner)`
abbrev pub is_owner : OrgRole → Bool
is_owner OrgRole.owner = true
is_owner OrgRole.admin = false
is_owner OrgRole.member = false
is_owner OrgRole.viewer = false

-- `WHERE org_id = $1 AND user_id = $2`
abbrev pub is_membership : ℕ → ℕ → MemberRow → Bool
is_membership org_id user_id m = m.org_id == org_id && m.user_id == user_id

-- `WHERE org_id = $1 AND role = 'owner'`
abbrev pub owner_row : ℕ → MemberRow → Bool
owner_row org_id m = m.org_id == org_id && m.role == "owner"

-- `member_role`
unfoldable pub current_role : ℕ → ℕ → Store → Result OrgRole
unfolding member_role org_role_from_db
current_role org_id user_id s = elim (member_role org_id user_id s.members) [
  | none ↦ err not_found
  | some w ↦ org_role_from_db w
]

-- `SELECT count(*) …`
abbrev pub count_owners : ℕ → List MemberRow → ℕ
count_owners org_id rows = length (filter (owner_row org_id) rows)

unfoldable pub assert_not_last_owner : ℕ → Store → Result (Unit {0})
assert_not_last_owner org_id s =
    if leb (count_owners org_id s.members) 1
    then err (invalid "the organization must keep at least one owner")
    else ok tt

-- `if … { self.assert_not_last_owner(…)?; }`
unfoldable pub keeps_owner : Bool → ℕ → Store → Result (Unit {0})
unfolding assert_not_last_owner
keeps_owner loses_owner org_id s = if loses_owner then assert_not_last_owner org_id s else ok tt

-- `UPDATE organization_members SET role = $1 WHERE …`
unfoldable pub set_role : ℕ → ℕ → OrgRole → Tx (Unit {0})
unfolding update_rows org_role_as_str
set_role org_id user_id role = write λ s. ok (record s {
  members =
      update_rows (is_membership org_id user_id) (λ m. record m { role = org_role_as_str role })
        s.members;
})

-- `DELETE FROM organization_members WHERE …`
unfoldable pub delete_member : ℕ → ℕ → Tx (Unit {0})
delete_member org_id user_id =
    write λ s. ok (record s { members = delete_rows (is_membership org_id user_id) s.members })

module _ (io : Inputs) (ctx : AuthContext) where
  -- The write of `update_member_role`, left out where the role is the same.
  unfoldable pub change_role : ℕ → OrgRole → OrgRole → Tx (Unit {0})
  unfolding rank
  change_role target current new_role = if rank current == rank new_role then pure tt else do
    set_role ctx.org_id target new_role
    audit io ctx (io.new_id 0) "member.role" (some (uuid target))
        (("role", word (org_role_as_str new_role)) ∷ [])

  unfoldable pub update_member_role : ℕ → OrgRole → Tx (Unit {0})
  update_member_role target new_role = do
    lift (require_admin ctx)
    current ← query (current_role ctx.org_id target)
    lift (
        guard (not ((is_owner current || is_owner new_role) && not (is_owner ctx.org_role)))
          forbidden)
    query (keeps_owner (is_owner current && not (is_owner new_role)) ctx.org_id)
    change_role target current new_role

  unfoldable pub remove_member : ℕ → Tx (Unit {0})
  remove_member target = do
    lift (require_admin ctx)
    current ← query (current_role ctx.org_id target)
    lift (guard (not (is_owner current && not (is_owner ctx.org_role))) forbidden)
    query (keeps_owner (is_owner current) ctx.org_id)
    delete_member ctx.org_id target
    audit io ctx (io.new_id 0) "member.remove" (some (uuid target)) []
