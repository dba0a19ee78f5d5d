-- ===== src/Db/Oauth/Revocation.antt =====
-- After a revocation: the revocation endpoint for an access token, and the removal of a connected
-- application.
use md_manager.Base.{
  ℕ, Bool, ◌&&◌, some, List, ◌≡◌, refl, ap, ◌∙◌, arith, any, ◌==◌, nat_eq, bytes_eq, if◌then◌else◌,
}
use md_manager.Fault.{unauthorized, ok, err}
use md_manager.Text.{Text}
use md_manager.Model.{AuthContext}
use md_manager.Oauth.{access_token_scheme}
use md_manager.Db.{Db, Inputs}
use md_manager.Db.Lookup.Laws.{presented-eq-ok, presented-update_rows}
use md_manager.Db.Rows.{update_rows}
use md_manager.Db.Statements.{is_live}
use md_manager.Db.Statements.Laws.{write-eq-ok, audit_lem}
use md_manager.Db.Tables.{Store}
use md_manager.Db.Tables.Oauth.{AccessTokenRow, RefreshRow}
use md_manager.Db.Tx.{bind_elim, query-eq-ok}
use md_manager.Db.Oauth.Access.{presented_access, authenticate_oauth_access_token}
use md_manager.Db.Oauth.Access.Laws.{refused_access, dead_access}
use md_manager.Db.Oauth.Grants.{revoke_oauth_grant, grant_client_db_id}
use md_manager.Db.Oauth.Refresh.{presented_refresh, refresh_oauth_token}
use md_manager.Db.Oauth.Refresh.Laws.{dead_refresh}
use md_manager.Db.Oauth.Tokens.{
  revoke_oauth_token, revoke_access, revoke_family, family_revoked, live_access, live_refresh,
}
use md_manager.Db.Oauth.Tokens.Laws.{IsDead, family_revoked-IsDead}

module _ (db : Db) (io : Inputs) where
  revoke_access_lem :
      (token : Text) (s t : Store) (a : AccessTokenRow) {u : Unit {0}}
      → presented_access db token s.oauth.access_tokens ≡ ok a
      → revoke_oauth_token db io token s ≡ ok (u, t)
      → t.oauth.access_tokens
        ≡ update_rows
            (λ r. r.id == a.id && is_live r.revoked_at)
            (λ r. record r { revoked_at = some io.db_now })
            s.oauth.access_tokens
  unfolding revoke_oauth_token revoke_access presented_access
  revoke_access_lem token s t a listed h =
      let w = write-eq-ok _ s h in
      let (p, found, _) =
        presented-eq-ok db (λ r. r.token_prefix) (λ r. r.token_hash) access_token_scheme
          unauthorized token s.oauth.access_tokens a listed in
      ground arith

  presented_access_revoked :
      (token : Text) (p : AccessTokenRow → Bool) (rows : List AccessTokenRow) (a : AccessTokenRow)
      → presented_access db token rows ≡ ok a
      → presented_access db token
          (update_rows p (λ r. record r { revoked_at = some io.db_now }) rows)
        ≡ ok (if p a then record a { revoked_at = some io.db_now } else a)
  unfolding presented_access
  presented_access_revoked token p rows a h =
      presented-update_rows db (λ r. r.token_prefix) (λ r. r.token_hash) p _ (λ r. refl) (λ r. refl)
        access_token_scheme unauthorized token rows a h

  -- An access token that was presented to the revocation endpoint is refused as unauthorized from
  -- then on, for every resource and at every time.
  pub revoke_oauth_token-unauthorized :
      (io' : Inputs) (token resource : Text) (s t : Store) (a : AccessTokenRow)
      → presented_access db token s.oauth.access_tokens ≡ ok a
      → revoke_oauth_token db io token s ≡ ok (tt, t)
      → (authenticate_oauth_access_token db io' token resource t).1 ≡ err unauthorized
  revoke_oauth_token-unauthorized io' token resource s t a listed h =
      let p : AccessTokenRow → Bool = λ r. r.id == a.id && is_live r.revoked_at in
      let found : presented_access db token t.oauth.access_tokens
          ≡ ok (if p a then record a { revoked_at = some io.db_now } else a) =
        ap (presented_access db token) (revoke_access_lem token s t a listed h)
        ∙ presented_access_revoked token p s.oauth.access_tokens a listed in
      ap (λ y. y.1) (refused_access db io' token resource t _ found (ground arith))

  module _ (ctx : AuthContext) (client_id : Text) (client_db_id org_id : ℕ) (s t : Store) where
    -- The state after a removal.
    revoke_oauth_grant-IsDead :
        revoke_oauth_grant db io ctx client_id org_id s ≡ ok (tt, t)
        → grant_client_db_id client_id ctx.user_id org_id s ≡ ok client_db_id
        → IsDead client_db_id ctx.user_id org_id t
    unfolding revoke_oauth_grant revoke_family
    revoke_oauth_grant-IsDead h known = bind_elim _ _ _ h λ c s1 e1 h1.
        bind_elim _ _ _ h1 λ _ s2 e2 h2.
          let (q1, p1) = query-eq-ok _ s e1 in
          let w = write-eq-ok _ s1 e2 in
          let same : c ≡ client_db_id = ground arith in
          let p2 : s2 ≡ family_revoked io c ctx.user_id org_id s1 = ground arith in
          let p3 = audit_lem _ s2 io (io.new_id 0) _ _ _ h2 in
          let dead = family_revoked-IsDead io client_db_id ctx.user_id org_id s1 in
          let after : t.oauth ≡ (family_revoked io client_db_id ctx.user_id org_id s1).oauth =
            ap (λ x. x.oauth) p3
            ∙ ap (λ x. x.oauth) p2
            ∙ ap (λ k. (family_revoked io k ctx.user_id org_id s1).oauth) same in
          record {
            access =
                ap (λ o. any (live_access client_db_id ctx.user_id org_id) o.access_tokens) after
                ∙ dead.access;
            refresh =
                ap (λ o. any (live_refresh client_db_id ctx.user_id org_id) o.refresh_tokens) after
                ∙ dead.refresh;
          }

    -- Once a user has disconnected an application from an organization, each of its tokens for
    -- that user there is refused as unauthorized: an access token at the resource server, and a
    -- refresh token at the token endpoint.
    pub revoke_oauth_grant-unauthorized :
        (io' : Inputs) (token resource : Text) (access_ttl refresh_ttl : ℕ)
        → revoke_oauth_grant db io ctx client_id org_id s ≡ ok (tt, t)
        → grant_client_db_id client_id ctx.user_id org_id s ≡ ok client_db_id
        → ((a : AccessTokenRow)
            → presented_access db token t.oauth.access_tokens ≡ ok a
            → a.client_id ≡ client_db_id
            → a.user_id ≡ ctx.user_id
            → a.org_id ≡ org_id
            → (authenticate_oauth_access_token db io' token resource t).1 ≡ err unauthorized)
          × ((r : RefreshRow)
              → presented_refresh db token t.oauth.refresh_tokens ≡ ok r
              → r.client_id ≡ client_db_id
              → r.user_id ≡ ctx.user_id
              → r.org_id ≡ org_id
              → (refresh_oauth_token db io' client_db_id token access_ttl refresh_ttl t).1
                ≡ err unauthorized)
    revoke_oauth_grant-unauthorized io' token resource access_ttl refresh_ttl h known =
        let dead = revoke_oauth_grant-IsDead h known in
        (
          (λ a found e1 e2 e3.
              ap (λ y. y.1)
                (dead_access db io' token resource client_db_id ctx.user_id org_id t a found
                  dead.access e1 e2 e3)),
          (λ r found e1 e2 e3.
              dead_refresh db io' client_db_id token access_ttl refresh_ttl ctx.user_id org_id t r
                found dead.refresh e1 e2 e3),
        )
