-- ===== src/Db/Tables/Accounts.antt =====
-- The tables of users, organizations, invitations (migrations/0001_init.sql and
-- migrations/0008_web_auth.sql) and share links (migrations/0005_share_links.sql and
-- migrations/0010_share_audience.sql).
use md_manager.Base.{ℕ, String, Option, List}
use md_manager.Text.{Text}

-- `users`
pub record UserRow : Type 0 where
  pub id : ℕ
  pub email : Text
  pub display_name : Text
  pub google_sub : Option Text
  pub logto_sub : Option Text

-- `organizations`
pub record OrganizationRow : Type 0 where
  pub id : ℕ
  pub slug : Text
  pub name : Text
  pub created_at : ℕ
  pub deleted_at : Option ℕ

-- `org_invitations`
pub record InvitationRow : Type 0 where
  pub id : ℕ
  pub org_id : ℕ
  pub email : Text
  pub role : String
  pub token_hash : Text
  pub token_prefix : Text
  pub invited_by : ℕ
  pub created_at : ℕ
  pub expires_at : Option ℕ
  pub accepted_at : Option ℕ
  pub revoked_at : Option ℕ

-- `share_links`
pub record ShareLinkRow : Type 0 where
  pub id : ℕ
  pub org_id : ℕ
  pub document_id : ℕ
  pub token_prefix : Text
  pub token_hash : Text
  pub audience : String
  pub created_by : ℕ
  pub created_at : ℕ
  pub expires_at : Option ℕ
  pub revoked_at : Option ℕ

-- `share_link_recipients`
pub record RecipientRow : Type 0 where
  pub share_link_id : ℕ
  pub email : Text

pub record AccountTables : Type 0 where
  pub users : List UserRow
  pub organizations : List OrganizationRow
  pub invitations : List InvitationRow
  pub share_links : List ShareLinkRow
  pub recipients : List RecipientRow
