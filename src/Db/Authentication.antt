-- ===== src/Db/Authentication.antt =====
-- crates/db/src/auth.rs, `authenticate_api_key`: the request context of a presented API key. The
-- table `api_keys` has no row-level security.
pub mod Laws
use md_manager.Base.{
  ℕ, String, Bool, false, not, ◌&&◌, Option, none, some, List, find, filter, leb, ◌==◌, nat_eq,
  bytes_eq, if◌then◌else◌,
}
use md_manager.Fault.{unauthorized, Result, ok, err, ok_or, guard, ◌>>=◌, ◌>>◌}
use md_manager.Text.{Text}
use md_manager.Crypto.{key_prefix, verify_api_key}
use md_manager.Model.{OrgRole, ActorType, AuthContext, min_role, org_role_from_db}
use md_manager.Db.{Db, Inputs}
use md_manager.Db.Rows.{update_rows}
use md_manager.Db.Statements.{is_live}
use md_manager.Db.Tables.{Store, ApiKeyRow, MemberRow}

-- `SELECT role FROM organization_members WHERE org_id = $1 AND user_id = $2`
unfoldable pub member_role : ℕ → ℕ → List MemberRow → Option String
member_role org_id user_id rows =
    elim (find (λ m. m.org_id == org_id && m.user_id == user_id) rows) [
      | none ↦ none
      | some m ↦ some m.role
    ]

module _ (db : Db) (io : Inputs) where
  abbrev pub is_expired : Option ℕ → Bool
  is_expired none = false
  is_expired (some exp) = leb exp io.now_utc

  -- The candidates have the prefix, and the key among them has the hash.
  unfoldable pub candidate : Text → Text → List ApiKeyRow → Option ApiKeyRow
  candidate secret prefix rows =
      find (λ k. verify_api_key db.hashes db.pepper secret k.key_hash)
        (filter (λ k. k.key_prefix == prefix) rows)

  unfoldable pub find_key : Text → List ApiKeyRow → Result ApiKeyRow
  unfolding candidate
  find_key secret rows = do
    found ← key_prefix secret
    prefix ← ok_or found unauthorized
    key ← ok_or (candidate secret prefix rows) unauthorized
    guard (is_live key.revoked_at) unauthorized
    guard (not (is_expired key.expires_at)) unauthorized
    ok key

  -- The key, and its role as the database keeps it.
  unfoldable pub presented_key : Text → List ApiKeyRow → Result (ApiKeyRow × OrgRole)
  unfolding find_key org_role_from_db
  presented_key secret rows = do
    key ← find_key secret rows
    role ← org_role_from_db key.role
    ok (key, role)

  -- `UPDATE api_keys SET last_used_at = now() WHERE id = $1`
  unfoldable pub touch_key : ApiKeyRow → Store → Store
  touch_key key s = record s {
    api_keys =
        update_rows (λ k. k.id == key.id) (λ k. record k { last_used_at = some io.db_now })
          s.api_keys;
  }

  -- The context of a key, from its role and its creator's current role.
  unfoldable pub key_context : ApiKeyRow → OrgRole → List MemberRow → Result AuthContext
  unfolding member_role
  key_context key key_role members = do
    word ← ok_or (member_role key.org_id key.created_by members) unauthorized
    creator_role ← org_role_from_db word
    ok (record {
      org_id = key.org_id;
      user_id = key.created_by;
      actor_type = ActorType.agent;
      org_role = min_role key_role creator_role;
    })

  -- The store that is left and the result: a key whose creator has left the organization is
  -- touched before it is refused, since the source commits in between.
  unfoldable pub authenticate_api_key : Text → Store → Store × Result AuthContext
  unfolding presented_key key_context touch_key
  authenticate_api_key secret s = elim (presented_key secret s.api_keys) [
    | ok (key, role) ↦ (touch_key key s, key_context key role s.members)
    | err e ↦ (s, err e)
  ]
