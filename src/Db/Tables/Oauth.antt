-- ===== src/Db/Tables/Oauth.antt =====
-- The tables of migrations/0009_oauth_server.sql and migrations/0011_oauth_all_orgs.sql.
use md_manager.Base.{ℕ, Bool, Option, List}
use md_manager.Text.{Text}

-- `oauth_clients`; the two columns of the secret are `none` for a public client.
pub record ClientRow : Type 0 where
  pub id : ℕ
  pub client_id : Text
  pub client_secret_prefix : Option Text
  pub client_secret_hash : Option Text
  pub name : Text
  pub redirect_uris : List Text
  pub scopes : Text
  pub is_dcr : Bool
  pub revoked_at : Option ℕ

-- `oauth_authorization_requests`
pub record AuthRequestRow : Type 0 where
  pub id : ℕ
  pub client_id : ℕ
  pub redirect_uri : Text
  pub code_challenge : Text
  pub code_challenge_method : Text
  pub resource : Text
  pub scope : Text
  pub state : Option Text
  pub expires_at : ℕ
  pub consumed_at : Option ℕ

-- `oauth_auth_codes`
pub record CodeRow : Type 0 where
  pub id : ℕ
  pub code_prefix : Text
  pub code_hash : Text
  pub client_id : ℕ
  pub user_id : ℕ
  pub org_id : ℕ
  pub redirect_uri : Text
  pub code_challenge : Text
  pub code_challenge_method : Text
  pub resource : Text
  pub scope : Text
  pub all_orgs : Bool
  pub expires_at : ℕ
  pub consumed_at : Option ℕ

-- `oauth_access_tokens`
pub record AccessTokenRow : Type 0 where
  pub id : ℕ
  pub token_prefix : Text
  pub token_hash : Text
  pub client_id : ℕ
  pub user_id : ℕ
  pub org_id : ℕ
  pub scope : Text
  pub resource : Text
  pub all_orgs : Bool
  pub expires_at : ℕ
  pub last_used_at : Option ℕ
  pub revoked_at : Option ℕ

-- `oauth_refresh_tokens`
pub record RefreshRow : Type 0 where
  pub id : ℕ
  pub token_prefix : Text
  pub token_hash : Text
  pub client_id : ℕ
  pub user_id : ℕ
  pub org_id : ℕ
  pub scope : Text
  pub resource : Text
  pub access_token_id : ℕ
  pub all_orgs : Bool
  pub created_at : ℕ
  pub expires_at : ℕ
  pub revoked_at : Option ℕ
  pub rotated_to : Option ℕ

pub record OauthTables : Type 0 where
  pub clients : List ClientRow
  pub requests : List AuthRequestRow
  pub codes : List CodeRow
  pub access_tokens : List AccessTokenRow
  pub refresh_tokens : List RefreshRow
