-- ===== src/Db/Oauth/Flow.antt =====
-- The flow from consent to a call: a code that was just minted is exchanged, and the access token
-- that comes back authenticates.
use md_manager.Base.{
  ℕ, ◌+◌, ◌<◌, String, true, false, Option, some, ◌∷◌, ◌++◌, ◌≡◌, refl, ap, ◌∙◌, arith, any, nat_eq,
  bytes_eq, subst,
}
use md_manager.Fault.{ok}
use md_manager.Text.{Text, len}
use md_manager.Model.{OrgRole, ActorType, org_role_from_db}
use md_manager.Oauth.{verify_pkce_s256}
use md_manager.Db.{Db, Inputs, seconds}
use md_manager.Db.Authentication.{member_role}
use md_manager.Db.Tables.{Store}
use md_manager.Db.Tables.Oauth.{AuthRequestRow, CodeRow}
use md_manager.Db.Oauth.Access.{presented_access, org, authenticate_oauth_access_token}
use md_manager.Db.Oauth.Access.Laws.{accepted_access}
use md_manager.Db.Oauth.Consent.{MintedCode, approve_authorization_request, code_row, scope_org}
use md_manager.Db.Oauth.Consent.Laws.{
  approve_authorization_request-IsApproved, approve_authorization_request-presented_code,
}
use md_manager.Db.Oauth.Exchange.{
  exchange_auth_code, spendable, same_resource, pkce_method_s256, presented_code,
}
use md_manager.Db.Oauth.Exchange.Laws.{exchange_auth_code-IsExchanged}
use md_manager.Db.Oauth.Issued.{issued_access}
use md_manager.Db.Oauth.Progress.{HasRoom, is_bound_intro, exchange_auth_code_ok}
use md_manager.Db.Oauth.Requests.{pending_request}
use md_manager.Db.Oauth.Tokens.{IssuedTokens, access_row}

module _ (db : Db) (io : Inputs) where
  -- The access token of an exchange is worth its code's rights: until it expires it authenticates,
  -- for the code's resource, as an agent of the code's user in the code's organization, with the
  -- role of a current membership there.
  exchange_auth_code-authenticate :
      (io' : Inputs) (client_id : ℕ) (code redirect_uri verifier : Text) (resource : Option Text)
      (access_ttl refresh_ttl : ℕ) (s t : Store) (issued : IssuedTokens) (c : CodeRow)
      (first rest : Text) (word : String) (role : OrgRole)
      → exchange_auth_code db io client_id code redirect_uri verifier resource access_ttl
          refresh_ttl s
        ≡ ok (issued, t)
      → presented_code db code s.oauth.codes ≡ ok c
      → io.random_hex 0 ≡ first ++ rest
      → len first ≡ 8
      → io'.now_utc < io.now_utc + seconds access_ttl
      → c.all_orgs ≡ false
      → member_role c.org_id c.user_id s.members ≡ some word
      → org_role_from_db word ≡ ok role
      → (authenticate_oauth_access_token db io' issued.access_token c.resource t).1
        ≡ ok (
            org (record {
              org_id = c.org_id;
              user_id = c.user_id;
              actor_type = ActorType.agent;
              org_role = role;
            }))
  unfolding access_row
  exchange_auth_code-authenticate io' client_id code redirect_uri verifier resource access_ttl
        refresh_ttl s t issued c first rest word role h listed drawn size fresh one m r =
      let x =
        exchange_auth_code-IsExchanged db io client_id code redirect_uri verifier resource
          access_ttl refresh_ttl s t issued h in
      let same : x.row ≡ c = (let l = x.listed in ground arith) in
      let members : t.members ≡ s.members =
        ap (λ u. u.members) x.pair.after ∙ ap (λ u. u.members) x.codes in
      let found =
        issued_access db io client_id x.row.user_id x.row.org_id x.row.scope x.row.resource
          x.row.all_orgs access_ttl refresh_ttl issued x.consumed t x.pair first rest size drawn in
      ap (λ y. y.1)
        (accepted_access db io' issued.access_token c.resource t
          (access_row db io client_id c.user_id c.org_id c.scope c.resource c.all_orgs access_ttl
            x.pair.access)
          word role
          (subst
            (λ c.
              presented_access db issued.access_token t.oauth.access_tokens
              ≡ ok (
                  access_row db io client_id c.user_id c.org_id c.scope c.resource c.all_orgs
                    access_ttl x.pair.access))
            same found)
          refl fresh refl one (rw members m) r)

-- The flow goes through: after a consent the minted code can be exchanged, by the client of the
-- request, for its redirect URI, with a verifier that meets its S256 challenge and no other
-- resource, as long as the code has not expired and the call has room for two tokens; and the
-- access token of every such exchange authenticates for the request's resource, until it expires,
-- as an agent of the user in the organization of the consent, with the role of a current membership.
pub approve-exchange-authenticate :
    (db : Db) (io io' io'' : Inputs) (request_id user_id org_id code_ttl access_ttl refresh_ttl : ℕ)
    (req : AuthRequestRow) (verifier first rest : Text) (resource : Option Text) (word : String)
    (role : OrgRole) (s t : Store) (minted : MintedCode)
    → approve_authorization_request db io request_id user_id (some org_id) false code_ttl s
      ≡ ok (minted, t)
    → pending_request io request_id s ≡ ok req
    → io.random_hex 0 ≡ first ++ rest
    → len first ≡ 8
    → io'.db_now < io.now_utc + seconds code_ttl
    → req.code_challenge_method ≡ pkce_method_s256
    → verify_pkce_s256 db.hashes verifier req.code_challenge ≡ true
    → same_resource resource req.resource ≡ true
    → HasRoom db io' t.oauth.access_tokens t.oauth.refresh_tokens
    → io''.now_utc < io'.now_utc + seconds access_ttl
    → member_role org_id user_id s.members ≡ some word
    → org_role_from_db word ≡ ok role
    → (issued : IssuedTokens) × (u : Store) × (exchange_auth_code db io' req.client_id minted.code
          req.redirect_uri verifier resource access_ttl refresh_ttl t
        ≡ ok (issued, u))
      × ((authenticate_oauth_access_token db io'' issued.access_token req.resource u).1
          ≡ ok (
              org (record {
                org_id = org_id;
                user_id = user_id;
                actor_type = ActorType.agent;
                org_role = role;
              })))
unfolding scope_org code_row
approve-exchange-authenticate db io io' io'' request_id user_id org_id code_ttl access_ttl
      refresh_ttl req verifier first rest resource word role s t minted h pending drawn size early
      method challenge audience room fresh m r =
    let x =
      approve_authorization_request-IsApproved db io request_id user_id (some org_id) false code_ttl
        s t minted h in
    let same_org : x.scoped ≡ org_id = (let e = x.scope_read in ground arith) in
    let same_req : x.request ≡ req = (let e = x.pending in ground arith) in
    let row = code_row db io user_id org_id false code_ttl req x.code in
    let row_eq : code_row db io user_id x.scoped false code_ttl x.request x.code ≡ row =
      ap (λ o. code_row db io user_id o false code_ttl x.request x.code) same_org
      ∙ ap (λ q. code_row db io user_id org_id false code_ttl q x.code) same_req in
    let listed : presented_code db minted.code t.oauth.codes ≡ ok row =
      approve_authorization_request-presented_code db io request_id user_id (some org_id) false
        code_ttl first rest s t minted x drawn size
      ∙ ap ok row_eq in
    let front : t.oauth.codes ≡ row ∷ s.oauth.codes =
      x.codes ∙ ap (λ c. c ∷ s.oauth.codes) row_eq in
    let unused : any (spendable db io' row.id) t.oauth.codes ≡ true =
      ap (any (spendable db io' row.id)) front ∙ ground arith in
    let bound =
      is_bound_intro db io' row.client_id row.redirect_uri verifier resource row refl refl method
        challenge audience in
    let (issued, u, e) =
      exchange_auth_code_ok db io' req.client_id minted.code req.redirect_uri verifier resource
        access_ttl refresh_ttl t row listed unused bound room in
    (
      issued,
      u,
      e,
      exchange_auth_code-authenticate db io' io'' req.client_id minted.code req.redirect_uri
          verifier resource access_ttl refresh_ttl t u issued row room.first room.rest word role e
          listed room.drawn room.size fresh refl (rw x.members m) r,
    )
