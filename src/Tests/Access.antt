-- ===== src/Tests/Access.antt =====
-- API keys and grants on concrete inputs.
use md_manager.Base.{none, some, [], ◌≡◌, ◌≢◌, refl, arith, ℕ_discrete, bytes_eq, string_eq}
use md_manager.Fault.{Result, ok, err, unauthorized}
use md_manager.Model.{
  OrgRole, Role, ActorType, AuthContext, min_role, capability, rank, org_role_as_str,
  org_role_from_db, role_as_str, actor_type_as_str,
}
use md_manager.Rbac.{require_admin, require, effective_role}
use md_manager.Text.{lit, len, len_utf8, starts_with}
use md_manager.Crypto.{
  generate_api_key, generate_token, slice_to, hash_api_key, hash_token, hmac_hex, key_prefix,
  token_prefix, verify_api_key, verify_token,
}
use md_manager.Db.Tables.{Store}
use md_manager.Db.Rows.{update_rows, insert_row}
use md_manager.Db.Tx.{◌>>=◌}
use md_manager.Db.Access.{may_doc}
use md_manager.Db.Statements.{audit}
use md_manager.Db.Authentication.{
  authenticate_api_key, presented_key, find_key, candidate, key_context, touch_key, member_role,
}
use md_manager.Db.Authentication.Laws.{IsBacked, authenticate_api_key-IsBacked}
use md_manager.Db.Keys.{
  ApiKeyCreated, create_api_key, revoke_api_key, key_row, insert_key, key_info, mark_revoked,
}
use md_manager.Db.Keys.Laws.{create_api_key-authenticate, revoke_api_key-unauthorized}
use md_manager.Db.Grants.{grant_document, upsert_grant, validate_subject_type}
use md_manager.Db.Grants.Denials.{grant_document-denied}
use md_manager.Db.Grants.Refusals.{ShutOut, grant_document-ShutOut}
use md_manager.Tests.Data.{db, io, io_later, alice, carol, store, leaked}

-- What a run leaves.
abbrev left {ℓ} : {A : Type ℓ} → Result (A × Store) → Store
left (ok (a, t)) = t
left (err e) = store

abbrev created_of : Result (ApiKeyCreated × Store) → ApiKeyCreated
created_of (ok (k, t)) = k
created_of (err e) = record {
  info = record {
    id = 0;
    name = [];
    key_prefix = [];
    role = OrgRole.viewer;
    created_at = 0;
    last_used_at = none;
    revoked_at = none;
  };
  secret = [];
}

abbrev agent_of_carol : AuthContext
agent_of_carol = record {
  org_id = 1;
  user_id = 12;
  actor_type = ActorType.agent;
  org_role = OrgRole.member;
}

key_example : IsBacked db io (lit "mk_89abcdef01") store agent_of_carol
unfolding authenticate_api_key presented_key find_key candidate key_context touch_key member_role
    generate_api_key generate_token slice_to hash_api_key hash_token hmac_hex key_prefix
    token_prefix verify_api_key verify_token require_admin require effective_role capability
    min_role rank org_role_as_str org_role_from_db role_as_str update_rows insert_row audit ◌>>=◌
    len len_utf8 starts_with ℕ_discrete bytes_eq string_eq actor_type_as_str
key_example =
    authenticate_api_key-IsBacked db io (lit "mk_89abcdef01") store
      (authenticate_api_key db io (lit "mk_89abcdef01") store).0 agent_of_carol refl

abbrev minting : Result (ApiKeyCreated × Store)
minting = create_api_key db io carol (lit "bot") OrgRole.owner store

minted_example :
    (authenticate_api_key db io_later (created_of minting).secret (left minting)).1
    ≡ ok (record {
      org_id = 1;
      user_id = 12;
      actor_type = ActorType.agent;
      org_role = min_role (min_role OrgRole.owner OrgRole.admin) OrgRole.member;
    })
unfolding create_api_key key_row insert_key key_info member_role generate_api_key generate_token
    slice_to hash_api_key hash_token hmac_hex key_prefix token_prefix verify_api_key verify_token
    require_admin require effective_role capability min_role rank org_role_as_str org_role_from_db
    role_as_str update_rows insert_row audit ◌>>=◌ len len_utf8 starts_with ℕ_discrete bytes_eq
    string_eq actor_type_as_str
minted_example =
    create_api_key-authenticate db io carol io_later (lit "01234567") (lit "89ab") (lit "bot")
      OrgRole.owner OrgRole.member "member" store (left minting) (created_of minting) refl refl refl
      refl refl

abbrev revocation : Result (Unit {0} × Store)
revocation = revoke_api_key db io carol 70 store

revoked_example :
    authenticate_api_key db io_later (lit "mk_89abcdef01") (left revocation)
    ≡ (left revocation, err unauthorized)
unfolding revoke_api_key mark_revoked candidate generate_api_key generate_token slice_to
    hash_api_key hash_token hmac_hex key_prefix token_prefix verify_api_key verify_token
    require_admin require effective_role capability min_role rank org_role_as_str org_role_from_db
    role_as_str update_rows insert_row audit ◌>>=◌ len len_utf8 starts_with ℕ_discrete bytes_eq
    string_eq actor_type_as_str
revoked_example =
    revoke_api_key-unauthorized db io carol io_later 70 (lit "mk_89abcdef01") (lit "mk_89abcdef")
      store (left revocation) (record leaked { revoked_at = some 1000 }) refl refl refl refl refl

abbrev denial : Result (Unit {0} × Store)
denial = grant_document io carol 5 "user" 10 Role.none store

denied_example : may_doc alice 5 3 Role.viewer (left denial) ≢ ok tt
unfolding grant_document upsert_grant validate_subject_type generate_api_key generate_token slice_to
    hash_api_key hash_token hmac_hex key_prefix token_prefix verify_api_key verify_token
    require_admin require effective_role capability min_role rank org_role_as_str org_role_from_db
    role_as_str update_rows insert_row audit ◌>>=◌ len len_utf8 starts_with ℕ_discrete bytes_eq
    string_eq actor_type_as_str
denied_example =
    grant_document-denied io carol alice 5 3 Role.viewer store (left denial) refl refl refl
      (omega arith)

banned_example : ShutOut db io_later alice 5 (left denial)
unfolding grant_document upsert_grant validate_subject_type generate_api_key generate_token slice_to
    hash_api_key hash_token hmac_hex key_prefix token_prefix verify_api_key verify_token
    require_admin require effective_role capability min_role rank org_role_as_str org_role_from_db
    role_as_str update_rows insert_row audit ◌>>=◌ len len_utf8 starts_with ℕ_discrete bytes_eq
    string_eq actor_type_as_str
banned_example =
    grant_document-ShutOut db io io_later carol alice 5 store (left denial) refl refl refl
