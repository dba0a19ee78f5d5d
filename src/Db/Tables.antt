-- ===== src/Db/Tables.antt =====
-- The database's tables (migrations/), as lists of rows, for the operations that are modelled.
-- Identifiers are numbers, and times are microseconds; an enum stands as the text that is stored.
pub mod Accounts
pub mod Oauth
use md_manager.Db.Tables.Accounts.{AccountTables}
use md_manager.Db.Tables.Oauth.{OauthTables}
use md_manager.Base.{ℕ, String, Bool, Option, List}
use md_manager.Text.{Text}

-- `organization_members`
pub record MemberRow : Type 0 where
  pub org_id : ℕ
  pub user_id : ℕ
  pub role : String

-- `projects`
pub record ProjectRow : Type 0 where
  pub id : ℕ
  pub org_id : ℕ
  pub slug : Text
  pub name : Text
  pub created_at : ℕ
  pub deleted_at : Option ℕ

-- `teams`
pub record TeamRow : Type 0 where
  pub id : ℕ
  pub org_id : ℕ
  pub slug : Text
  pub name : Text
  pub created_at : ℕ

-- `team_members`
pub record TeamMemberRow : Type 0 where
  pub org_id : ℕ
  pub team_id : ℕ
  pub user_id : ℕ

-- `project_grants` and `document_grants`: `target_id` is the project's or the document's id.
pub record GrantRow : Type 0 where
  pub id : ℕ
  pub org_id : ℕ
  pub target_id : ℕ
  pub subject_type : String
  pub subject_id : ℕ
  pub role : String

-- `documents`
pub record DocumentRow : Type 0 where
  pub id : ℕ
  pub org_id : ℕ
  pub project_id : ℕ
  pub path : Text
  pub title : Text
  pub content : Text
  pub content_hash : Text
  pub current_version : ℕ
  pub created_by : ℕ
  pub updated_by : ℕ
  pub created_at : ℕ
  pub updated_at : ℕ
  pub deleted_at : Option ℕ

-- `document_versions`
pub record VersionRow : Type 0 where
  pub id : ℕ
  pub org_id : ℕ
  pub document_id : ℕ
  pub version : ℕ
  pub content : Text
  pub content_hash : Text
  pub version_kind : String
  pub actor_type : String
  pub actor_id : ℕ
  pub created_at : ℕ

-- `doc_chunks`; `embedding` is the vector's literal, `none` until the worker computes it.
pub record ChunkRow : Type 0 where
  pub id : ℕ
  pub org_id : ℕ
  pub document_id : ℕ
  pub chunk_index : ℕ
  pub heading_path : Text
  pub content : Text
  pub content_hash : Text
  pub embedding : Option Text

-- `api_keys`
pub record ApiKeyRow : Type 0 where
  pub id : ℕ
  pub org_id : ℕ
  pub name : Text
  pub key_prefix : Text
  pub key_hash : Text
  pub role : String
  pub created_by : ℕ
  pub created_at : ℕ
  pub last_used_at : Option ℕ
  pub revoked_at : Option ℕ
  pub expires_at : Option ℕ

-- The values that audit entries carry: the target, and the fields of the `json!` metadata.
pub data Scalar : Type 0 where
  uuid : ℕ → Scalar
  num : ℕ → Scalar
  text : Text → Scalar
  word : String → Scalar
  flag : Bool → Scalar

-- `audit_log`
pub record AuditRow : Type 0 where
  pub id : ℕ
  pub org_id : ℕ
  pub actor_type : String
  pub actor_id : ℕ
  pub action : String
  pub target : Option Scalar
  pub metadata : List (String × Scalar)

pub record Store : Type 0 where
  pub members : List MemberRow
  pub projects : List ProjectRow
  pub teams : List TeamRow
  pub team_members : List TeamMemberRow
  pub project_grants : List GrantRow
  pub document_grants : List GrantRow
  pub documents : List DocumentRow
  pub versions : List VersionRow
  pub chunks : List ChunkRow
  pub api_keys : List ApiKeyRow
  pub audit_log : List AuditRow
  pub accounts : AccountTables
  pub oauth : OauthTables
