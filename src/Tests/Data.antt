-- ===== src/Tests/Data.antt =====
-- The data of the tests: two organizations, a document of each, and an API key.
use md_manager.Base.{ℕ, ◌+◌, String, none, [], ◌∷◌, ◌++◌}
use md_manager.Model.{OrgRole, ActorType, AuthContext}
use md_manager.Text.{lit}
use md_manager.Crypto.{Hashes}
use md_manager.Db.{Db, Inputs}
use md_manager.Db.Tables.{Store, DocumentRow, VersionRow, ApiKeyRow}

abbrev pub hashes : Hashes
hashes = record {
  sha256_hex = λ t. b'h' ∷ t;
  hmac_sha256_hex = λ k t. k ++ t;
  sha256_base64url = λ t. t;
}

abbrev pub db : Db
db = record {
  hashes = hashes;
  pepper = lit "pepper";
  max_doc_bytes = 100;
  autosave_debounce_secs = 300;
  max_docs_per_project = 2;
}

abbrev pub io : Inputs
io = record {
  now_utc = 1000;
  db_now = 1000;
  new_id = λ k. 100 + k;
  random_hex = λ k. lit "0123456789ab";
}

abbrev pub io_later : Inputs
io_later = record { now_utc = 2000; db_now = 2000; new_id = λ k. 200 + k; random_hex = λ k. [] }

abbrev pub carol : AuthContext
carol = record { org_id = 1; user_id = 12; actor_type = ActorType.user; org_role = OrgRole.admin }

abbrev pub alice : AuthContext
alice = record { org_id = 1; user_id = 10; actor_type = ActorType.user; org_role = OrgRole.member }

abbrev pub bob : AuthContext
bob = record { org_id = 1; user_id = 11; actor_type = ActorType.user; org_role = OrgRole.viewer }

abbrev pub plan : DocumentRow
plan = record {
  id = 5;
  org_id = 1;
  project_id = 3;
  path = lit "plan.md";
  title = lit "Plan";
  content = lit "hi";
  content_hash = lit "hhi";
  current_version = 2;
  created_by = 10;
  updated_by = 10;
  created_at = 500;
  updated_at = 600;
  deleted_at = none;
}

abbrev pub notes : DocumentRow
notes = record {
  id = 6;
  org_id = 2;
  project_id = 4;
  path = lit "notes.md";
  title = lit "Notes";
  content = lit "secret";
  content_hash = lit "hsecret";
  current_version = 1;
  created_by = 20;
  updated_by = 20;
  created_at = 500;
  updated_at = 500;
  deleted_at = none;
}

abbrev pub version : ℕ → ℕ → String → VersionRow
version id n kind = record {
  id = id;
  org_id = 1;
  document_id = 5;
  version = n;
  content = lit "hi";
  content_hash = lit "hhi";
  version_kind = kind;
  actor_type = "user";
  actor_id = 10;
  created_at = 600;
}

abbrev pub leaked : ApiKeyRow
leaked = record {
  id = 70;
  org_id = 1;
  name = lit "ci";
  key_prefix = lit "mk_89abcdef";
  key_hash = lit "peppermk_89abcdef01";
  role = "admin";
  created_by = 12;
  created_at = 500;
  last_used_at = none;
  revoked_at = none;
  expires_at = none;
}

abbrev pub store : Store
store = record {
  members = record { org_id = 1; user_id = 12; role = "member" } ∷ [];
  projects =
      record {
        id = 3;
        org_id = 1;
        slug = lit "docs";
        name = lit "Docs";
        created_at = 100;
        deleted_at = none;
      }
      ∷ [];
  teams = [];
  api_keys = leaked ∷ [];
  team_members = [];
  project_grants = [];
  document_grants = [];
  documents = plan ∷ notes ∷ [];
  versions = version 51 2 "autosave" ∷ version 50 1 "checkpoint" ∷ [];
  chunks = [];
  audit_log = [];
  accounts = record {
    users = [];
    organizations =
        record { id = 1; slug = lit "acme"; name = lit "Acme"; created_at = 100; deleted_at = none }
        ∷ [];
    invitations = [];
    share_links = [];
    recipients = [];
  };
  oauth = record {
    clients = [];
    requests = [];
    codes = [];
    access_tokens = [];
    refresh_tokens = [];
  };
}
