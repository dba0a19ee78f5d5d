-- ===== src/Db/Oauth/Tokens.antt =====
-- crates/db/src/oauth.rs: the tables of access and refresh tokens: issuing a pair, revoking the
-- family of a client, a user and an organization, and the revocation endpoint.
pub mod Laws
use md_manager.Base.{
  ℕ, String, Bool, true, false, not, ◌&&◌, ◌||◌, Option, none, some, List, [], ◌∷◌, ◌+◌, find,
  filter, any, ◌==◌, nat_eq, bytes_eq, if◌then◌else◌,
}
use md_manager.Fault.{already_exists, Result, ok, err}
use md_manager.Text.{Text}
use md_manager.Crypto.{token_prefix, verify_token, hash_token, GeneratedKey}
use md_manager.Oauth.{
  access_token_scheme, refresh_token_scheme, generate_access_token, generate_refresh_token,
}
use md_manager.Db.{Db, Inputs, seconds}
use md_manager.Db.Lookup.{matching}
use md_manager.Db.Rows.{update_rows, insert_row}
use md_manager.Db.Statements.{is_live}
use md_manager.Db.Tables.{Store}
use md_manager.Db.Tables.Oauth.{AccessTokenRow, RefreshRow}
use md_manager.Db.Tx.{Tx, pure, query, write, lift, ◌>>=◌, ◌>>◌}

pub record IssuedTokens : Type 0 where
  pub access_token : Text
  pub refresh_token : Text
  pub access_expires_in : ℕ
  pub scope : Text
  pub resource : Text

-- `WHERE client_id = $1 AND user_id = $2 AND org_id = $3 AND revoked_at IS NULL`
abbrev pub live_access : ℕ → ℕ → ℕ → AccessTokenRow → Bool
live_access client_id user_id org_id r =
    r.client_id == client_id
    && (r.user_id == user_id && (r.org_id == org_id && is_live r.revoked_at))

abbrev pub live_refresh : ℕ → ℕ → ℕ → RefreshRow → Bool
live_refresh client_id user_id org_id r =
    r.client_id == client_id
    && (r.user_id == user_id && (r.org_id == org_id && is_live r.revoked_at))

-- What `revoke_family` leaves.
unfoldable pub family_revoked : Inputs → ℕ → ℕ → ℕ → Store → Store
family_revoked io client_id user_id org_id s = record s {
  oauth = record s.oauth {
    refresh_tokens =
        update_rows (live_refresh client_id user_id org_id)
          (λ r. record r { revoked_at = some io.db_now }) s.oauth.refresh_tokens;
    access_tokens =
        update_rows (live_access client_id user_id org_id)
          (λ r. record r { revoked_at = some io.db_now }) s.oauth.access_tokens;
  };
}

unfoldable pub revoke_family : Inputs → ℕ → ℕ → ℕ → Tx (Unit {0})
revoke_family io client_id user_id org_id =
    write λ s. ok (family_revoked io client_id user_id org_id s)

module _ (db : Db) (io : Inputs) where
  -- The rows that a pair inserts; the random hex digits and the identifiers are drawn in order.
  unfoldable pub access_row : ℕ → ℕ → ℕ → Text → Text → Bool → ℕ → GeneratedKey → AccessTokenRow
  access_row client_id user_id org_id scope resource all_orgs ttl_secs access = record {
    id = io.new_id 0;
    token_prefix = access.prefix;
    token_hash = hash_token db.hashes db.pepper access.secret;
    client_id = client_id;
    user_id = user_id;
    org_id = org_id;
    scope = scope;
    resource = resource;
    all_orgs = all_orgs;
    expires_at = io.now_utc + seconds ttl_secs;
    last_used_at = none;
    revoked_at = none;
  }

  unfoldable pub refresh_row : ℕ → ℕ → ℕ → Text → Text → Bool → ℕ → GeneratedKey → RefreshRow
  refresh_row client_id user_id org_id scope resource all_orgs ttl_secs refresh = record {
    id = io.new_id 1;
    token_prefix = refresh.prefix;
    token_hash = hash_token db.hashes db.pepper refresh.secret;
    client_id = client_id;
    user_id = user_id;
    org_id = org_id;
    scope = scope;
    resource = resource;
    access_token_id = io.new_id 0;
    all_orgs = all_orgs;
    created_at = io.db_now;
    expires_at = io.now_utc + seconds ttl_secs;
    revoked_at = none;
    rotated_to = none;
  }

  unfoldable pub insert_access : AccessTokenRow → Tx (Unit {0})
  insert_access row = write λ s.
      elim (insert_row "oauth_access_tokens_pkey" (λ r. r.id == row.id) row s.oauth.access_tokens) [
        | ok rows ↦ ok (record s { oauth = record s.oauth { access_tokens = rows } })
        | err e ↦ err e
      ]

  unfoldable pub insert_refresh : RefreshRow → Tx (Unit {0})
  insert_refresh row = write λ s.
      elim (insert_row "oauth_refresh_tokens_pkey" (λ r. r.id == row.id) row
        s.oauth.refresh_tokens) [
          | ok rows ↦ ok (record s { oauth = record s.oauth { refresh_tokens = rows } })
          | err e ↦ err e
        ]

  unfoldable pub issue_token_pair_with_ids :
      ℕ → ℕ → ℕ → Text → Text → Bool → ℕ → ℕ → Tx (IssuedTokens × ℕ)
  issue_token_pair_with_ids client_id user_id org_id scope resource all_orgs access_ttl
        refresh_ttl =
      do
        access ← lift (generate_access_token (io.random_hex 0))
        insert_access
            (access_row client_id user_id org_id scope resource all_orgs access_ttl access)
        refresh ← lift (generate_refresh_token (io.random_hex 1))
        insert_refresh
            (refresh_row client_id user_id org_id scope resource all_orgs refresh_ttl refresh)
        pure (
          record {
            access_token = access.secret;
            refresh_token = refresh.secret;
            access_expires_in = access_ttl;
            scope = scope;
            resource = resource;
          },
          io.new_id 1,
        )

  unfoldable pub issue_token_pair : ℕ → ℕ → ℕ → Text → Text → Bool → ℕ → ℕ → Tx IssuedTokens
  issue_token_pair client_id user_id org_id scope resource all_orgs access_ttl refresh_ttl = do
    issued ←
        issue_token_pair_with_ids client_id user_id org_id scope resource all_orgs access_ttl
          refresh_ttl
    pure issued.0

  abbrev pub find_access : Text → Text → List AccessTokenRow → Option AccessTokenRow
  find_access = matching db (λ r. r.token_prefix) (λ r. r.token_hash)

  abbrev pub find_refresh : Text → Text → List RefreshRow → Option RefreshRow
  find_refresh = matching db (λ r. r.token_prefix) (λ r. r.token_hash)

  -- The two branches of `revoke_oauth_token`, on the prefix of the token.
  unfoldable pub revoke_access : Text → Text → Store → Store
  revoke_access token prefix s = elim (find_access token prefix s.oauth.access_tokens) [
    | none ↦ s
    | some a ↦ record s {
      oauth = record s.oauth {
        access_tokens =
            update_rows (λ r. r.id == a.id && is_live r.revoked_at)
              (λ r. record r { revoked_at = some io.db_now }) s.oauth.access_tokens;
      };
    }
  ]

  unfoldable pub revoke_refresh : Text → Text → Store → Store
  unfolding family_revoked
  revoke_refresh token prefix s = elim (find_refresh token prefix s.oauth.refresh_tokens) [
    | none ↦ s
    | some r ↦ family_revoked io r.client_id r.user_id r.org_id s
  ]

  unfoldable pub revoke_oauth_token : Text → Tx (Unit {0})
  unfolding revoke_access revoke_refresh
  revoke_oauth_token token = write λ s. elim (token_prefix access_token_scheme token) [
    | err e ↦ err e
    | ok (some prefix) ↦ ok (revoke_access token prefix s)
    | ok none ↦ elim (token_prefix refresh_token_scheme token) [
      | err e ↦ err e
      | ok (some prefix) ↦ ok (revoke_refresh token prefix s)
      | ok none ↦ ok s
    ]
  ]
