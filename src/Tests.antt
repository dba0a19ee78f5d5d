-- ===== src/Tests.antt =====
-- Runs on concrete inputs.
pub mod Data
pub mod Documents
pub mod Core
pub mod Access
pub mod Oauth
pub mod Tenants
pub mod Accounts
