-- ===== src/Db/Organizations.antt =====
-- crates/db/src/social.rs: new organizations and their first owner.
use md_manager.Base.{ℕ, Bool, not, ◌||◌, none, any, ◌==◌, nat_eq, bytes_eq, if◌then◌else◌}
use md_manager.Fault.{invalid, ok, err, guard}
use md_manager.Text.{Text, trim, is_empty}
use md_manager.Model.{AuthContext}
use md_manager.Validate.{validate_slug}
use md_manager.Db.{Inputs}
use md_manager.Db.Members.{is_membership}
use md_manager.Db.Rows.{insert_row}
use md_manager.Db.Tables.{Store}
use md_manager.Db.Tables.Accounts.{OrganizationRow}
use md_manager.Db.Tx.{Tx, pure, write, lift, ◌>>◌}

pub record Organization : Type 0 where
  pub id : ℕ
  pub slug : Text
  pub name : Text
  pub created_at : ℕ

-- `OrgRow`'s conversion
unfoldable pub into_organization : OrganizationRow → Organization
into_organization o = record { id = o.id; slug = o.slug; name = o.name; created_at = o.created_at }

unfoldable pub insert_organization : OrganizationRow → Tx (Unit {0})
insert_organization row = write λ s.
    elim (insert_row "organizations_slug_key" (λ o. o.id == row.id || o.slug == row.slug) row
      s.accounts.organizations) [
        | ok rows ↦ ok (record s { accounts = record s.accounts { organizations = rows } })
        | err e ↦ err e
      ]

abbrev pub is_user : ℕ → Store → Bool
is_user user_id s = any (λ u. u.id == user_id) s.accounts.users

-- The user is a foreign key, and the pair is the primary key.
unfoldable pub insert_owner : ℕ → ℕ → Tx (Unit {0})
insert_owner org_id user_id = write λ s.
    if not (is_user user_id s)
    then err (invalid "referenced resource does not exist")
    else elim (insert_row "organization_members_pkey" (is_membership org_id user_id)
        (record { org_id = org_id; user_id = user_id; role = "owner" }) s.members) [
          | ok rows ↦ ok (record s { members = rows })
          | err e ↦ err e
        ]

module _ (io : Inputs) where
  unfoldable pub create_org_for : ℕ → Text → Text → Tx Organization
  create_org_for user_id slug name = do
    lift (validate_slug slug)
    lift (guard (not (is_empty (trim name))) (invalid "organization name is required"))
    let row : OrganizationRow = record {
      id = io.new_id 0;
      slug = slug;
      name = trim name;
      created_at = io.db_now;
      deleted_at = none;
    }
    insert_organization row
    insert_owner row.id user_id
    pure (into_organization row)

  unfoldable pub create_org : AuthContext → Text → Text → Tx Organization
  unfolding create_org_for
  create_org ctx slug name = create_org_for ctx.user_id slug name
