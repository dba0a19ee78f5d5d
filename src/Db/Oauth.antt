-- ===== src/Db/Oauth.antt =====
-- crates/db/src/oauth.rs: the authorization server's clients, requests, codes and tokens, and the
-- request context of an access token. The five tables have no row-level security.
pub mod Clients
pub mod Registration
pub mod Requests
pub mod Tokens
pub mod Exchange
pub mod Refresh
pub mod Access
pub mod Issued
pub mod Consent
pub mod Grants
pub mod Reuse
pub mod Revocation
pub mod Progress
pub mod Flow
