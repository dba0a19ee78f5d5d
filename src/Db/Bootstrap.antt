-- ===== src/Db/Bootstrap.antt =====
-- crates/db/src/auth.rs, `bootstrap`: a tenant with its owner and an initial API key.
pub mod Laws
use md_manager.Base.{
  ℕ, Bool, true, false, not, ◌||◌, Option, none, some, List, [], ◌∷◌, find, any, ◌==◌, nat_eq,
  bytes_eq, if◌then◌else◌,
}
use md_manager.Fault.{invalid, Result, ok, err, guard}
use md_manager.Text.{Text, trim, is_empty}
use md_manager.Crypto.{generate_api_key, hash_api_key}
use md_manager.Model.{OrgRole, ActorType, AuthContext, org_role_from_db}
use md_manager.Validate.{validate_slug}
use md_manager.Db.{Db, Inputs}
use md_manager.Db.Keys.{ApiKeyCreated, insert_key, key_info}
use md_manager.Db.Organizations.{Organization, into_organization, insert_organization, insert_owner}
use md_manager.Db.Rows.{update_rows, insert_row}
use md_manager.Db.Tables.{Store, ApiKeyRow}
use md_manager.Db.Tables.Accounts.{UserRow, OrganizationRow}
use md_manager.Db.Tx.{Tx, pure, query, write, lift, ◌>>=◌, ◌>>◌}

pub record User : Type 0 where
  pub id : ℕ
  pub email : Text
  pub display_name : Text

-- `UserRow`'s conversion
abbrev into_user : UserRow → User
into_user u = record { id = u.id; email = u.email; display_name = u.display_name }

-- `INSERT INTO users … ON CONFLICT (email) DO UPDATE SET display_name = EXCLUDED.display_name
-- RETURNING id, email, display_name`
unfoldable pub upsert_user : UserRow → Tx User
upsert_user row s =
    let put : List UserRow → Store =
      λ rows. record s { accounts = record s.accounts { users = rows } } in
    elim (find (λ u. u.email == row.email) s.accounts.users) [
      | some u ↦ ok (
        into_user (record u { display_name = row.display_name }),
        put (
            update_rows (λ v. v.email == row.email)
              (λ v. record v { display_name = row.display_name }) s.accounts.users),
      )
      | none ↦ elim (insert_row "users_pkey" (λ u. u.id == row.id) row s.accounts.users) [
        | ok rows ↦ ok (into_user row, put rows)
        | err e ↦ err e
      ]
    ]

module _ (db : Db) (io : Inputs) where
  -- The scope of the transaction, set before the user is known.
  abbrev pub scope : AuthContext
  scope = record {
    org_id = io.new_id 1;
    user_id = io.new_id 0;
    actor_type = ActorType.user;
    org_role = OrgRole.owner;
  }

  -- The row of the initial key.
  unfoldable pub first_key : ℕ → Text → Text → Text → ApiKeyRow
  first_key user_id name prefix hash = record {
    id = io.new_id 2;
    org_id = io.new_id 1;
    name = name;
    key_prefix = prefix;
    key_hash = hash;
    role = "admin";
    created_by = user_id;
    created_at = io.db_now;
    last_used_at = none;
    revoked_at = none;
    expires_at = none;
  }

  abbrev pub first_org : Text → Text → OrganizationRow
  first_org slug name = record {
    id = io.new_id 1;
    slug = slug;
    name = name;
    created_at = io.db_now;
    deleted_at = none;
  }

  abbrev pub first_user : Text → Text → UserRow
  first_user email display_name = record {
    id = io.new_id 0;
    email = email;
    display_name = display_name;
    google_sub = none;
    logto_sub = none;
  }

  -- The conversion of the key comes after the commit in the source; it cannot fail.
  unfoldable pub bootstrap :
      Text → Text → Text → Text → Text → Tx (Organization × User × ApiKeyCreated)
  bootstrap email display_name org_slug org_name key_name = do
    lift (validate_slug org_slug)
    lift (guard (not (is_empty (trim email))) (invalid "email is required"))
    key ← lift (generate_api_key (io.random_hex 0))
    user ← upsert_user (first_user email display_name)
    insert_organization (first_org org_slug org_name)
    insert_owner (io.new_id 1) user.id
    let row = first_key user.id key_name key.prefix (hash_api_key db.hashes db.pepper key.secret)
    insert_key db io scope row
    info ← lift (key_info row)
    pure (
      into_organization (first_org org_slug org_name),
      user,
      record { info = info; secret = key.secret },
    )
