-- ===== src/Db/Oauth/Consent.antt =====
-- crates/db/src/oauth.rs, `approve_authorization_request`: consent consumes the request and mints
-- a code that is bound to it.
pub mod Laws
use md_manager.Base.{
  ℕ, String, Bool, true, false, not, ◌&&◌, ◌||◌, Option, none, some, List, [], ◌∷◌, ◌+◌, find,
  filter, any, ◌==◌, nat_eq, bytes_eq, if◌then◌else◌,
}
use md_manager.Fault.{forbidden, not_found, invalid, already_exists, Result, ok, err, ok_or}
use md_manager.Text.{Text}
use md_manager.Crypto.{hash_token, GeneratedKey}
use md_manager.Model.{OrgRole, ActorType, AuthContext, org_role_from_db}
use md_manager.Oauth.{generate_auth_code}
use md_manager.Db.{Db, Inputs, seconds}
use md_manager.Db.Authentication.{member_role}
use md_manager.Db.Rows.{insert_row}
use md_manager.Db.Sessions.{UserOrg, list_user_orgs, first_org}
use md_manager.Db.Statements.{audit}
use md_manager.Db.Tables.{Store, Scalar, uuid, text, flag}
use md_manager.Db.Tables.Oauth.{AuthRequestRow, CodeRow}
use md_manager.Db.Tx.{Tx, pure, query, write, lift, ◌>>=◌, ◌>>◌}
use md_manager.Db.Oauth.Requests.{pending_request, consume_request}

-- `MintedCode`
pub record MintedCode : Type 0 where
  pub redirect_uri : Text
  pub code : Text
  pub state : Option Text

module _ (db : Db) (io : Inputs) where
  -- The organization that the code is bound to: the chosen one, or the user's first.
  unfoldable pub scope_org : ℕ → Option ℕ → Bool → Store → Result ℕ
  unfolding list_user_orgs
  scope_org user_id org_id all_orgs s =
      if all_orgs
      then elim (list_user_orgs user_id s) [
        | err e ↦ err e
        | ok orgs ↦ elim (first_org orgs) [ none ↦ err forbidden | some o ↦ ok o.id ]
      ]
      else ok_or org_id (invalid "org_id is required")

  -- The user's current role there.
  unfoldable pub consenting_role : ℕ → ℕ → Store → Result OrgRole
  unfolding member_role org_role_from_db
  consenting_role org_id user_id s = elim (member_role org_id user_id s.members) [
    | none ↦ err forbidden
    | some w ↦ org_role_from_db w
  ]

  -- The row that an approval inserts.
  unfoldable pub code_row : ℕ → ℕ → Bool → ℕ → AuthRequestRow → GeneratedKey → CodeRow
  code_row user_id org_id all_orgs ttl_secs req code = record {
    id = io.new_id 0;
    code_prefix = code.prefix;
    code_hash = hash_token db.hashes db.pepper code.secret;
    client_id = req.client_id;
    user_id = user_id;
    org_id = org_id;
    redirect_uri = req.redirect_uri;
    code_challenge = req.code_challenge;
    code_challenge_method = req.code_challenge_method;
    resource = req.resource;
    scope = req.scope;
    all_orgs = all_orgs;
    expires_at = io.now_utc + seconds ttl_secs;
    consumed_at = none;
  }

  unfoldable pub insert_code : CodeRow → Tx (Unit {0})
  insert_code row = write λ s.
      elim (insert_row "oauth_auth_codes_pkey" (λ c. c.id == row.id) row s.oauth.codes) [
        | ok rows ↦ ok (record s { oauth = record s.oauth { codes = rows } })
        | err e ↦ err e
      ]

  unfoldable pub approve_authorization_request : ℕ → ℕ → Option ℕ → Bool → ℕ → Tx MintedCode
  approve_authorization_request request_id user_id org_id all_orgs code_ttl = do
    scoped ← query (scope_org user_id org_id all_orgs)
    req ← query (pending_request io request_id)
    consume_request io request_id
    role ← query (consenting_role scoped user_id)
    code ← lift (generate_auth_code (io.random_hex 0))
    insert_code (code_row user_id scoped all_orgs code_ttl req code)
    audit io
        (record {
          org_id = scoped;
          user_id = user_id;
          actor_type = ActorType.user;
          org_role = role;
        })
        (io.new_id 1) "oauth.grant" (some (uuid req.client_id))
        (("scope", text req.scope) ∷ ("all_orgs", flag all_orgs) ∷ [])
    pure (record { redirect_uri = req.redirect_uri; code = code.secret; state = req.state })
