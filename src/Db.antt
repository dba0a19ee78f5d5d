-- ===== src/Db.antt =====
-- crates/db/src/lib.rs: the handle of the service layer, and what a call reads from outside.
pub mod Tables
pub mod Tx
pub mod Rows
pub mod Access
pub mod Statements
pub mod Lookup
pub mod Reindex
pub mod Versions
pub mod Document
pub mod Requests
pub mod Isolation
pub mod Authentication
pub mod Keys
pub mod Oauth
pub mod Members
pub mod Sessions
pub mod Shares
pub mod Organizations
pub mod Invitations
pub mod Provisioning
pub mod Subjects
pub mod Bootstrap
pub mod Projects
pub mod Grants
use md_manager.Base.{ℕ, ◌*◌}
use md_manager.Text.{Text}
use md_manager.Crypto.{Hashes}

-- `Db`, with the hash functions in place of the pool
pub record Db : Type 0 where
  pub hashes : Hashes
  pub pepper : Text
  pub max_doc_bytes : ℕ
  pub autosave_debounce_secs : ℕ
  pub max_docs_per_project : ℕ

-- What one call reads from its surroundings: the clock of the process, the `now()` of the
-- transaction, the identifiers that it draws, and the random hex digits of its tokens.
pub record Inputs : Type 0 where
  pub now_utc : ℕ
  pub db_now : ℕ
  pub new_id : ℕ → ℕ
  pub random_hex : ℕ → Text

-- `Duration::seconds`, in microseconds
abbrev pub seconds : ℕ → ℕ
seconds n = n * 1000000
