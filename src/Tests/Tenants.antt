-- ===== src/Tests/Tenants.antt =====
-- The bootstrap of a tenant on a concrete input.
use md_manager.Base.{[], nat_eq, bytes_eq, string_eq, ℕ_discrete, ◌≡◌, refl, none}
use md_manager.Fault.{Result, ok, err}
use md_manager.Text.{
  ends_with_char, lit, len, len_utf8, starts_with, trim, trim_start, trim_end, is_whitespace,
}
use md_manager.Crypto.{
  generate_api_key, generate_token, slice_to, hash_api_key, hash_token, hmac_hex, key_prefix,
  token_prefix, verify_api_key, verify_token,
}
use md_manager.Model.{OrgRole, ActorType, rank, org_role_from_db}
use md_manager.Validate.{validate_slug, is_slug_char, is_ascii_lowercase, is_ascii_digit}
use md_manager.Db.Authentication.{authenticate_api_key}
use md_manager.Db.Bootstrap.{User, bootstrap, upsert_user, first_key}
use md_manager.Db.Bootstrap.Laws.{bootstrap-authenticate_api_key}
use md_manager.Db.Keys.{ApiKeyCreated, insert_key, key_info}
use md_manager.Db.Organizations.{Organization, into_organization, insert_organization, insert_owner}
use md_manager.Db.Rows.{insert_row, update_rows}
use md_manager.Db.Tables.{Store}
use md_manager.Db.Tx.{◌>>=◌}
use md_manager.Tests.Data.{db, io, io_later, store}

abbrev starting : Result ((Organization × User × ApiKeyCreated) × Store)
starting = bootstrap db io (lit "ada@x.org") (lit "Ada") (lit "ada") (lit "Ada's") (lit "ci") store

abbrev left : Result ((Organization × User × ApiKeyCreated) × Store) → Store
left (ok (a, t)) = t
left (err e) = store

abbrev tenant_of :
    Result ((Organization × User × ApiKeyCreated) × Store) → Organization × User × ApiKeyCreated
tenant_of (ok (a, t)) = a
tenant_of (err e) = (
  record { id = 0; slug = []; name = []; created_at = 0 },
  record { id = 0; email = []; display_name = [] },
  record {
    info = record {
      id = 0;
      name = [];
      key_prefix = [];
      role = OrgRole.viewer;
      created_at = 0;
      last_used_at = none;
      revoked_at = none;
    };
    secret = [];
  },
)

bootstrap_example :
    (authenticate_api_key db io_later (tenant_of starting).2.secret (left starting)).1
    ≡ ok (record {
      org_id = 101;
      user_id = 100;
      actor_type = ActorType.agent;
      org_role = OrgRole.admin;
    })
unfolding bootstrap upsert_user first_key insert_key key_info into_organization insert_organization
    insert_owner validate_slug ends_with_char is_slug_char is_ascii_lowercase is_ascii_digit
    generate_api_key generate_token slice_to hash_api_key hash_token hmac_hex key_prefix
    token_prefix verify_api_key verify_token rank org_role_from_db update_rows insert_row ◌>>=◌ len
    len_utf8 starts_with trim trim_start trim_end is_whitespace ℕ_discrete bytes_eq string_eq
bootstrap_example =
    bootstrap-authenticate_api_key db io io_later (lit "01234567") (lit "89ab") (lit "ada@x.org")
      (lit "Ada") (lit "ada") (lit "Ada's") (lit "ci") store (left starting) (tenant_of starting).0
      (tenant_of starting).1 (tenant_of starting).2 refl refl refl
