-- ===== src/Tests/Oauth.antt =====
-- The authorization server run on a small database: a client with a pending request, and a member.
use md_manager.Base.{
  ℕ, ◌+◌, ◌↔◌, true, false, none, some, [], ◌∷◌, ◌≡◌, refl, nat_eq, bytes_eq, string_eq, ℕ_discrete,
  arith,
}
use md_manager.Fault.{Result, ok, err, unauthorized, not_found}
use md_manager.Model.{
  OrgRole, ActorType, AuthContext, org_role_from_db, org_role_as_str, actor_type_as_str,
}
use md_manager.Text.{Text, lit, len, len_utf8, starts_with}
use md_manager.Crypto.{generate_token, slice_to, hash_token, hmac_hex, token_prefix, verify_token}
use md_manager.Oauth.{
  generate_access_token, generate_refresh_token, generate_auth_code, verify_pkce_s256,
}
use md_manager.Db.{Inputs}
use md_manager.Db.Authentication.{member_role}
use md_manager.Db.Lookup.{matching, presented}
use md_manager.Db.Rows.{update_rows, insert_row}
use md_manager.Db.Statements.{audit}
use md_manager.Db.Tables.{Store}
use md_manager.Db.Tables.Oauth.{ClientRow, AuthRequestRow, AccessTokenRow, RefreshRow}
use md_manager.Db.Tx.{◌>>=◌, commit}
use md_manager.Db.Oauth.Access.{
  org, presented_access, valid_access, touch_access, member_context,
  authenticate_oauth_access_token,
}
use md_manager.Db.Oauth.Access.Laws.{IsBackedAccess, authenticate_oauth_access_token-IsBackedAccess}
use md_manager.Db.Oauth.Clients.{live_client, check_secret, into_info, authenticate_oauth_client}
use md_manager.Db.Oauth.Clients.Laws.{IsAuthentic, authenticate_oauth_client_iff}
use md_manager.Db.Oauth.Consent.{
  MintedCode, approve_authorization_request, scope_org, consenting_role, code_row, insert_code,
}
use md_manager.Db.Oauth.Consent.Laws.{approve_authorization_request-not_found}
use md_manager.Db.Oauth.Exchange.{
  exchange_auth_code, presented_code, consume_code, is_bound, pkce_method_s256,
}
use md_manager.Db.Oauth.Exchange.Laws.{exchange_auth_code-unauthorized}
use md_manager.Db.Oauth.Flow.{approve-exchange-authenticate}
use md_manager.Db.Oauth.Grants.{revoke_oauth_grant, grant_client_db_id}
use md_manager.Db.Oauth.Progress.{HasRoom}
use md_manager.Db.Oauth.Refresh.{presented_refresh, mark_rotated, rotate, refresh_oauth_token}
use md_manager.Db.Oauth.Requests.{pending_request, consume_request, deny_authorization_request}
use md_manager.Db.Oauth.Reuse.{refresh_oauth_token-unauthorized}
use md_manager.Db.Oauth.Revocation.{
  revoke_oauth_token-unauthorized, revoke_oauth_grant-unauthorized,
}
use md_manager.Db.Oauth.Tokens.{
  IssuedTokens, family_revoked, revoke_family, access_row, refresh_row, insert_access,
  insert_refresh, issue_token_pair_with_ids, issue_token_pair, revoke_access, revoke_refresh,
  revoke_oauth_token,
}
use md_manager.Tests.Data.{db, io, carol, store}

-- The operations: a proof that opens this one opens them all.
unfoldable run : ℕ → ℕ
unfolding member_role matching presented update_rows insert_row audit ◌>>=◌ commit presented_access
    valid_access touch_access member_context authenticate_oauth_access_token live_client
    check_secret into_info authenticate_oauth_client approve_authorization_request scope_org
    consenting_role code_row insert_code exchange_auth_code presented_code consume_code is_bound
    revoke_oauth_grant grant_client_db_id presented_refresh mark_rotated rotate refresh_oauth_token
    pending_request consume_request deny_authorization_request family_revoked revoke_family
    access_row refresh_row insert_access insert_refresh issue_token_pair_with_ids issue_token_pair
    revoke_access revoke_refresh revoke_oauth_token generate_access_token generate_refresh_token
    generate_auth_code verify_pkce_s256 generate_token slice_to hash_token hmac_hex token_prefix
    verify_token len len_utf8 starts_with org_role_from_db org_role_as_str actor_type_as_str
    ℕ_discrete bytes_eq string_eq
run n = n

abbrev io2 : Inputs
io2 = record {
  now_utc = 2000;
  db_now = 2000;
  new_id = λ k. 200 + k;
  random_hex = λ k. lit "fedcba987654";
}

abbrev io3 : Inputs
io3 = record {
  now_utc = 3000;
  db_now = 3000;
  new_id = λ k. 300 + k;
  random_hex = λ k. lit "aaaabbbbcccc";
}

abbrev app : ClientRow
app = record {
  id = 1;
  client_id = lit "cid_app";
  client_secret_prefix = some (lit "mocs_01234567");
  client_secret_hash = some (lit "peppermocs_0123456789");
  name = lit "App";
  redirect_uris = lit "https://app/cb" ∷ [];
  scopes = lit "mcp";
  is_dcr = true;
  revoked_at = none;
}

abbrev verifier : Text
verifier = lit "aaaaaaaaaabbbbbbbbbbccccccccccddddddddddeee"

abbrev request : AuthRequestRow
request = record {
  id = 900;
  client_id = 1;
  redirect_uri = lit "https://app/cb";
  code_challenge = verifier;
  code_challenge_method = pkce_method_s256;
  resource = lit "https://mcp";
  scope = lit "mcp";
  state = none;
  expires_at = 5000;
  consumed_at = none;
}

abbrev app_store : Store
app_store = record store {
  oauth = record {
    clients = app ∷ [];
    requests = request ∷ [];
    codes = [];
    access_tokens = [];
    refresh_tokens = [];
  };
}

abbrev left {ℓ} : {A : Type ℓ} → Result (A × Store) → Store
left (ok (a, t)) = t
left (err e) = app_store

abbrev minted_of : Result (MintedCode × Store) → MintedCode
minted_of (ok (m, t)) = m
minted_of (err e) = record { redirect_uri = []; code = []; state = none }

abbrev no_tokens : IssuedTokens
no_tokens = record {
  access_token = [];
  refresh_token = [];
  access_expires_in = 0;
  scope = [];
  resource = [];
}

abbrev issued_of : Result (IssuedTokens × Store) → IssuedTokens
issued_of (ok (i, t)) = i
issued_of (err e) = no_tokens

abbrev rotated_of : Result IssuedTokens → IssuedTokens
rotated_of (ok i) = i
rotated_of (err e) = no_tokens

abbrev approving : Result (MintedCode × Store)
approving = approve_authorization_request db io 900 12 (some 1) false 600 app_store

abbrev code : Text
code = lit "moc_0123456789ab"

abbrev exchanging : Result (IssuedTokens × Store)
exchanging =
    exchange_auth_code db io2 1 code (lit "https://app/cb") verifier none 3600 86400
      (left approving)

abbrev granted : Store
granted = left exchanging

abbrev access_token : Text
access_token = lit "mo_fedcba987654"

abbrev refresh_token : Text
refresh_token = lit "mor_fedcba987654"

abbrev rotation : Store × Result IssuedTokens
rotation = refresh_oauth_token db io3 1 refresh_token 3600 86400 granted

answered_example :
    (approve_authorization_request db io2 900 12 (some 1) false 60 (left approving) ≡ err not_found)
    × (deny_authorization_request io2 900 (left approving) ≡ err not_found)
unfolding run
answered_example =
    approve_authorization_request-not_found db io 900 12 (some 1) false 600 io2 12 60 1 (some 1)
      false app_store (left approving) (minted_of approving) refl (omega arith) refl

spent_code_example :
    exchange_auth_code db io3 2 code (lit "https://evil/cb") verifier none 3600 86400 granted
    ≡ err unauthorized
unfolding run
spent_code_example =
    exchange_auth_code-unauthorized db io2 1 code (lit "https://app/cb") verifier none 3600 86400
      io3 2 (lit "https://evil/cb") verifier none 3600 86400 (left approving) granted
      (issued_of exchanging) refl (omega arith)

abbrev agent_of_carol : AuthContext
agent_of_carol = record {
  org_id = 1;
  user_id = 12;
  actor_type = ActorType.agent;
  org_role = OrgRole.member;
}

room : HasRoom db io2 (left approving).oauth.access_tokens (left approving).oauth.refresh_tokens
unfolding run
room = record {
  first = lit "fedcba98";
  rest = lit "7654";
  drawn = refl;
  size = refl;
  first' = lit "fedcba98";
  rest' = lit "7654";
  drawn' = refl;
  size' = refl;
  free_access = refl;
  free_refresh = refl;
}

flow_example :
    (issued : IssuedTokens) × (u : Store) × (exchange_auth_code db io2 1 code
        (lit "https://app/cb")
        verifier
        (some (lit "https://mcp"))
        3600
        86400
        (left approving)
      ≡ ok (issued, u))
    × ((authenticate_oauth_access_token db io3 issued.access_token (lit "https://mcp") u).1
        ≡ ok (org agent_of_carol))
unfolding run
flow_example =
    approve-exchange-authenticate db io io2 io3 900 12 1 600 3600 86400 request verifier
      (lit "01234567") (lit "89ab") (some (lit "https://mcp")) "member" OrgRole.member app_store
      (left approving) (minted_of approving) refl refl refl refl (omega arith) refl refl refl room
      (omega arith) refl refl

access_example : IsBackedAccess db io3 access_token (lit "https://mcp") granted agent_of_carol
unfolding run
access_example =
    authenticate_oauth_access_token-IsBackedAccess db io3 access_token (lit "https://mcp") granted
      (authenticate_oauth_access_token db io3 access_token (lit "https://mcp") granted).0
      agent_of_carol refl

reuse_example :
    let again = refresh_oauth_token db io2 1 refresh_token 3600 86400 rotation.0 in
    (again.1 ≡ err unauthorized)
    × ((authenticate_oauth_access_token db io2
          (lit "mo_aaaabbbbcccc")
          (lit "https://mcp")
          again.0).1
        ≡ err unauthorized)
    × ((refresh_oauth_token db io2 1 (lit "mor_aaaabbbbcccc") 3600 86400 again.0).1
        ≡ err unauthorized)
unfolding run
reuse_example =
    refresh_oauth_token-unauthorized db io3 io2 io2 1 refresh_token (lit "aaaabbbb") (lit "cccc")
      (lit "aaaabbbb") (lit "cccc") (lit "https://mcp") 3600 86400 3600 86400 3600 86400 granted
      rotation.0 (rotated_of rotation.1) refl refl refl refl refl refl

abbrev revocation : Result (Unit {0} × Store)
revocation = revoke_oauth_token db io3 access_token granted

abbrev row_of : Result AccessTokenRow → AccessTokenRow
row_of (ok a) = a
row_of (err e) = record {
  id = 0;
  token_prefix = [];
  token_hash = [];
  client_id = 0;
  user_id = 0;
  org_id = 0;
  scope = [];
  resource = [];
  all_orgs = false;
  expires_at = 0;
  last_used_at = none;
  revoked_at = none;
}

revoked_token_example :
    (authenticate_oauth_access_token db io3 access_token (lit "https://mcp") (left revocation)).1
    ≡ err unauthorized
unfolding run
revoked_token_example =
    revoke_oauth_token-unauthorized db io3 io3 access_token (lit "https://mcp") granted
      (left revocation) (row_of (presented_access db access_token granted.oauth.access_tokens)) refl
      refl

abbrev disconnection : Result (Unit {0} × Store)
disconnection = revoke_oauth_grant db io3 carol (lit "cid_app") 1 granted

disconnected_example :
    ((a : AccessTokenRow)
      → presented_access db access_token (left disconnection).oauth.access_tokens ≡ ok a
      → a.client_id ≡ 1
      → a.user_id ≡ 12
      → a.org_id ≡ 1
      → (authenticate_oauth_access_token db io3 access_token
          (lit "https://mcp")
          (left disconnection)).1
        ≡ err unauthorized)
    × ((r : RefreshRow)
        → presented_refresh db access_token (left disconnection).oauth.refresh_tokens ≡ ok r
        → r.client_id ≡ 1
        → r.user_id ≡ 12
        → r.org_id ≡ 1
        → (refresh_oauth_token db io3 1 access_token 3600 86400 (left disconnection)).1
          ≡ err unauthorized)
unfolding run
disconnected_example =
    revoke_oauth_grant-unauthorized db io3 carol (lit "cid_app") 1 1 granted (left disconnection)
      io3 access_token (lit "https://mcp") 3600 86400 refl refl

client_example :
    (authenticate_oauth_client db (lit "cid_app") (some (lit "mocs_0123456789")) app_store
      ≡ ok (into_info app))
    ↔ IsAuthentic db (lit "cid_app") (some (lit "mocs_0123456789")) app_store (into_info app)
client_example =
    authenticate_oauth_client_iff db (lit "cid_app") (some (lit "mocs_0123456789")) app_store
      (into_info app)
