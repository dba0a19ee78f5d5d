-- ===== src/Db/Keys.antt =====
-- crates/db/src/apikey.rs: minting and revoking API keys.
pub mod Laws
use md_manager.Base.{
  ℕ, String, Bool, true, false, not, ◌&&◌, ◌||◌, Option, none, some, List, [], ◌∷◌, find, filter,
  any, leb, ◌==◌, nat_eq, bytes_eq, if◌then◌else◌,
}
use md_manager.Fault.{not_found, unauthorized, already_exists, Result, ok, err}
use md_manager.Text.{Text}
use md_manager.Crypto.{key_prefix, verify_api_key, hash_api_key, generate_api_key}
use md_manager.Model.{OrgRole, ActorType, AuthContext, min_role, org_role_as_str, org_role_from_db}
use md_manager.Rbac.{require_admin}
use md_manager.Db.{Db, Inputs}
use md_manager.Db.Rows.{update_rows, insert_row}
use md_manager.Db.Statements.{is_live, audit}
use md_manager.Db.Tables.{Store, ApiKeyRow, MemberRow, Scalar, uuid, text}
use md_manager.Db.Tx.{Tx, pure, query, write, lift, ◌>>=◌, ◌>>◌}

pub record ApiKeyInfo : Type 0 where
  pub id : ℕ
  pub name : Text
  pub key_prefix : Text
  pub role : OrgRole
  pub created_at : ℕ
  pub last_used_at : Option ℕ
  pub revoked_at : Option ℕ

pub record ApiKeyCreated : Type 0 where
  pub info : ApiKeyInfo
  pub secret : Text

-- `ApiKeyInfoRow::into_core`
unfoldable pub key_info : ApiKeyRow → Result ApiKeyInfo
unfolding org_role_from_db
key_info k = elim (org_role_from_db k.role) [
  | ok role ↦ ok (record {
    id = k.id;
    name = k.name;
    key_prefix = k.key_prefix;
    role = role;
    created_at = k.created_at;
    last_used_at = k.last_used_at;
    revoked_at = k.revoked_at;
  })
  | err e ↦ err e
]

module _ (db : Db) (io : Inputs) (ctx : AuthContext) where
  -- The row that `create_api_key` inserts.
  unfoldable pub key_row : Text → OrgRole → Text → Text → ApiKeyRow
  key_row name role prefix hash = record {
    id = io.new_id 0;
    org_id = ctx.org_id;
    name = name;
    key_prefix = prefix;
    key_hash = hash;
    role = org_role_as_str role;
    created_by = ctx.user_id;
    created_at = io.db_now;
    last_used_at = none;
    revoked_at = none;
    expires_at = none;
  }

  unfoldable pub insert_key : ApiKeyRow → Tx (Unit {0})
  insert_key row = write λ s.
      elim (insert_row "api_keys_pkey" (λ k. k.id == row.id) row s.api_keys) [
        | ok rows ↦ ok (record s { api_keys = rows })
        | err e ↦ err e
      ]

  -- The last step of the source comes after the commit; it cannot fail, since the role that it
  -- reads was written by `org_role_as_str`.
  unfoldable pub create_api_key : Text → OrgRole → Tx ApiKeyCreated
  create_api_key name wanted = do
    lift (require_admin ctx)
    key ← lift (generate_api_key (io.random_hex 0))
    let row =
        key_row name (min_role wanted ctx.org_role) key.prefix
          (hash_api_key db.hashes db.pepper key.secret)
    insert_key row
    audit io ctx (io.new_id 2) "apikey.create" (some (uuid row.id)) (("name", text name) ∷ [])
    info ← lift (key_info row)
    pure (record { info = info; secret = key.secret })

  -- `WHERE id = $1 AND org_id = $2 AND revoked_at IS NULL`
  abbrev pub revocable : ℕ → ApiKeyRow → Bool
  revocable key_id k = k.id == key_id && (k.org_id == ctx.org_id && is_live k.revoked_at)

  -- `UPDATE api_keys SET revoked_at = now() …`, with the number of rows affected.
  unfoldable pub mark_revoked : ℕ → Tx (Unit {0})
  mark_revoked key_id = write λ s.
      if not (any (revocable key_id) s.api_keys)
      then err not_found
      else ok (record s {
        api_keys =
            update_rows (revocable key_id) (λ k. record k { revoked_at = some io.db_now })
              s.api_keys;
      })

  unfoldable pub revoke_api_key : ℕ → Tx (Unit {0})
  revoke_api_key key_id = do
    lift (require_admin ctx)
    mark_revoked key_id
    audit io ctx (io.new_id 2) "apikey.revoke" (some (uuid key_id)) []
