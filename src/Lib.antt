-- ===== src/Lib.antt =====
-- md-manager: a document server for markdown, with organizations, roles, versions, share
-- links, API keys and an OAuth server, in Rust. This library models the domain rules (crates/core) and the service layer (crates/db), which
-- the HTTP API, the command line and the MCP server call.
--
-- Parts and files:
--   Fault        crates/core/src/error.rs: the domain errors and the result of a fallible step.
--   Model        crates/core/src/model.rs: OrgRole, Role, ActorType, VersionKind, AuthContext.
--   Rbac         crates/core/src/rbac.rs: permission checks, and resolve_doc_role.
--   Text         the operations of Rust's str that the source uses: a text is a list of code points,
--                and len counts bytes of UTF-8.
--   Chunk        crates/core/src/chunk.rs: chunk_markdown. Chunker holds the variables of the loop;
--                the closure is flush, and step_line is the body of the loop.
--   Validate     crates/core/src/validate.rs.
--   Crypto       crates/core/src/crypto.rs: tokens and their prefixes.
--   Oauth        crates/core/src/oauth.rs: token schemes, PKCE and redirect URIs; Hosts describes the host
--                of an address on its text.
--   Db           crates/db/src/lib.rs: the handle, and what a call reads from outside (Inputs).
--   Db/Tables    the rows of the migrations that are named in each file, and the store, which is a list of rows for each table.
--   Db/Tx        transactions: functions from a store to a value and a store, or an error.
--   Db/Rows      UPDATE, DELETE and INSERT on lists of rows.
--   Db/Access    crates/db/src/access.rs: the role of a caller on a document and on a project.
--   Db/Grants    crates/db/src/access.rs: create_team, add_team_member, grant_project, grant_document.
--   Db/Statements, Db/Versions, Db/Reindex, Db/Document
--                crates/db/src/document.rs: the SQL statements, the versions with the coalescing of
--                autosaves, the diff of the chunks, and the operations themselves.
--   Db/Requests  the operations on documents as requests, and histories of requests.
--   Db/Isolation what a request leaves alone.
--   Db/Authentication, Db/Keys
--                crates/db/src/auth.rs (authenticate_api_key) and crates/db/src/apikey.rs.
--   Db/Subjects, Db/Bootstrap
--                crates/db/src/auth.rs: the users of an external issuer, and new tenants.
--   Db/Projects  crates/db/src/org.rs: the current organization and its projects.
--   Db/Lookup    the lookup of a presented token by prefix and hash, which its tables share.
--   Db/Oauth     crates/db/src/oauth.rs: Clients, Registration, Requests, Consent, Exchange, Refresh,
--                Tokens (the pair and its family), Access and Grants hold the operations; Issued,
--                Reuse, Revocation, Progress and Flow hold theorems that join them.
--   Db/Members, Db/Sessions, Db/Organizations, Db/Invitations, Db/Provisioning
--                crates/db/src/social.rs: roles and removals of members (Roster is their abstract view), the organizations of a user,
--                new organizations, invitations, and the sign-in of a Google identity.
--   Db/Shares    crates/db/src/share.rs: share links; Resolve opens one.
--   Base, Tests  shared helpers, and runs on concrete inputs.
--
-- How they interact: an operation of Db/Document validates its arguments (Validate), finds and locks
-- the document's row, asks Db/Access for the caller's role, which Rbac resolves, writes the row and a
-- version with the content's hash (Crypto), diffs the chunks that Chunk computes, and writes an audit
-- entry. Db/Authentication, Db/Sessions and Db/Oauth/Access make the AuthContext that these operations
-- take, each from a current row of the members, which Db/Members and Db/Invitations change. A code of
-- Db/Oauth/Consent is spent by Exchange, and Exchange and Refresh issue pairs by Tokens.
--
-- Conventions and bounds: identifiers, versions, sizes and counts (Uuid, i64, i32, usize, u8) are
-- natural numbers, and times are microseconds; no operation subtracts them, and sums grow by one. An
-- enum in the database is the text that is stored. A statement runs under row-level security: it sees
-- and changes the rows of the caller's organization. A transaction that fails leaves no trace, and
-- the row lock makes the transactions on a document run one after another, so a history is a list
-- of requests. Hash functions and the random digits of tokens are parameters (Hashes, Inputs), as are
-- the clock and fresh identifiers. The error `panic` stands for a panic of the serving thread. Loops
-- are structural recursion; only the decimal print of a limit has a bound, twenty digits, which hold
-- every i64.
--
-- Operations that commit before they fail (authenticate_api_key, authenticate_oauth_access_token,
-- refresh_oauth_token, provision_google_user) return the store together with the result. Lifetimes and
-- numbers of days (i64) are natural numbers, so a negative lifetime is not modelled. The case of an
-- email address (PostgreSQL's lower, Rust's to_lowercase), the range of the times that a number of days
-- can be added to (crate time, which panics outside it) and the text of an identifier (crate uuid)
-- are parameters.
--
-- Not modelled: foreign keys to rows that the call does not name, connection pools and migrations, the order
-- of rows where a query states none, and the failure of the database itself. Transactions
-- are serial: a race between two calls is not modelled. Embeddings, search, categories and tags
-- (crates/db/src), and the apps that call the service layer are not modelled.
pub mod Base
pub mod Fault
pub mod Model
pub mod Rbac
pub mod Text
pub mod Chunk
pub mod Validate
pub mod Crypto
pub mod Oauth
pub mod Db
pub mod Tests
