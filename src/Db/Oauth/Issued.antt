-- ===== src/Db/Oauth/Issued.antt =====
-- The tokens of a pair that was issued are found again, also after their family is revoked.
use md_manager.Base.{
  ℕ, Bool, some, ◌++◌, ◌≡◌, refl, sym, ap, ◌∙◌, nat_eq, bytes_eq, Bool-cases, inl, inr, subst,
}
use md_manager.Fault.{unauthorized, ok, err}
use md_manager.Text.{Text, len}
use md_manager.Oauth.{
  access_token_scheme, refresh_token_scheme, generate_access_token, generate_refresh_token,
}
use md_manager.Db.{Db, Inputs}
use md_manager.Db.Lookup.Laws.{presented_front, presented-update_rows}
use md_manager.Db.Tables.{Store}
use md_manager.Db.Tables.Oauth.{AccessTokenRow, RefreshRow}
use md_manager.Db.Oauth.Tokens.{
  IssuedTokens, access_row, refresh_row, family_revoked, live_access, live_refresh,
}
use md_manager.Db.Oauth.Tokens.Laws.{IsIssued, family_revoked-IsDead}
use md_manager.Db.Oauth.Access.{presented_access, authenticate_oauth_access_token}
use md_manager.Db.Oauth.Access.Laws.{dead_access}
use md_manager.Db.Oauth.Refresh.{presented_refresh, refresh_oauth_token}
use md_manager.Db.Oauth.Refresh.Laws.{dead_refresh}

module _ (db : Db) (io : Inputs) (client_id user_id org_id : ℕ) (scope resource : Text)
    (all_orgs : Bool) (access_ttl refresh_ttl : ℕ) (issued : IssuedTokens) (s t : Store)
    (x : IsIssued db io client_id user_id org_id scope resource all_orgs access_ttl refresh_ttl
      issued s t)
    (first rest : Text) (size : len first ≡ 8) where
  -- The row of the access token.
  pub issued_access :
      io.random_hex 0 ≡ first ++ rest
      → presented_access db issued.access_token t.oauth.access_tokens
        ≡ ok (access_row db io client_id user_id org_id scope resource all_orgs access_ttl x.access)
  unfolding presented_access access_row generate_access_token
  issued_access drawn =
      subst
        (λ i.
          presented_access db i.access_token t.oauth.access_tokens
          ≡ ok (
              access_row db io client_id user_id org_id scope resource all_orgs access_ttl
                x.access))
        (sym x.tokens)
        (subst
          (λ u.
            presented_access db x.access.secret u.oauth.access_tokens
            ≡ ok (
                access_row db io client_id user_id org_id scope resource all_orgs access_ttl
                  x.access))
          (sym x.after)
          (presented_front db (λ r. r.token_prefix) (λ r. r.token_hash) access_token_scheme
            unauthorized first rest s.oauth.access_tokens
            (access_row db io client_id user_id org_id scope resource all_orgs access_ttl x.access)
            x.access (rw (sym drawn) x.minted_access) size refl refl))

  -- The row of the refresh token.
  pub issued_refresh :
      io.random_hex 1 ≡ first ++ rest
      → presented_refresh db issued.refresh_token t.oauth.refresh_tokens
        ≡ ok (
            refresh_row db io client_id user_id org_id scope resource all_orgs refresh_ttl
              x.refresh)
  unfolding presented_refresh refresh_row generate_refresh_token
  issued_refresh drawn =
      subst
        (λ i.
          presented_refresh db i.refresh_token t.oauth.refresh_tokens
          ≡ ok (
              refresh_row db io client_id user_id org_id scope resource all_orgs refresh_ttl
                x.refresh))
        (sym x.tokens)
        (subst
          (λ u.
            presented_refresh db x.refresh.secret u.oauth.refresh_tokens
            ≡ ok (
                refresh_row db io client_id user_id org_id scope resource all_orgs refresh_ttl
                  x.refresh))
          (sym x.after)
          (presented_front db (λ r. r.token_prefix) (λ r. r.token_hash) refresh_token_scheme
            unauthorized first rest s.oauth.refresh_tokens
            (refresh_row db io client_id user_id org_id scope resource all_orgs refresh_ttl
              x.refresh)
            x.refresh (rw (sym drawn) x.minted_refresh) size refl refl))

module _ (db : Db) (io io' : Inputs) (client_id user_id org_id : ℕ) (token : Text) (s : Store) where
  -- Once a family is revoked, its access tokens are refused as unauthorized.
  pub family_revoked-access :
      (resource : Text) (a : AccessTokenRow)
      → presented_access db token s.oauth.access_tokens ≡ ok a
      → a.client_id ≡ client_id
      → a.user_id ≡ user_id
      → a.org_id ≡ org_id
      → (authenticate_oauth_access_token db io' token resource
          (family_revoked io client_id user_id org_id s)).1
        ≡ err unauthorized
  unfolding presented_access family_revoked
  family_revoked-access resource a h same_client same_user same_org =
      let dead = (family_revoked-IsDead io client_id user_id org_id s).access in
      let found =
        presented-update_rows db (λ r. r.token_prefix) (λ r. r.token_hash)
          (live_access client_id user_id org_id) (λ r. record r { revoked_at = some io.db_now })
          (λ r. refl) (λ r. refl) access_token_scheme unauthorized token s.oauth.access_tokens a
          h in
      elim (Bool-cases (live_access client_id user_id org_id a)) [
        | inl live ↦
            ap (λ x. x.1)
              (dead_access db io' token resource client_id user_id org_id
                (family_revoked io client_id user_id org_id s)
                (record a { revoked_at = some io.db_now }) (found ∙ rw live refl) dead same_client
                same_user same_org)
        | inr not_live ↦
            ap (λ x. x.1)
              (dead_access db io' token resource client_id user_id org_id
                (family_revoked io client_id user_id org_id s) a (found ∙ rw not_live refl) dead
                same_client same_user same_org)
      ]

  -- And so are its refresh tokens.
  pub family_revoked-refresh :
      (access_ttl refresh_ttl : ℕ) (r : RefreshRow)
      → presented_refresh db token s.oauth.refresh_tokens ≡ ok r
      → r.client_id ≡ client_id
      → r.user_id ≡ user_id
      → r.org_id ≡ org_id
      → (refresh_oauth_token db io' client_id token access_ttl refresh_ttl
          (family_revoked io client_id user_id org_id s)).1
        ≡ err unauthorized
  unfolding presented_refresh family_revoked
  family_revoked-refresh access_ttl refresh_ttl r h same_client same_user same_org =
      let dead = (family_revoked-IsDead io client_id user_id org_id s).refresh in
      let found =
        presented-update_rows db (λ r. r.token_prefix) (λ r. r.token_hash)
          (live_refresh client_id user_id org_id) (λ r. record r { revoked_at = some io.db_now })
          (λ r. refl) (λ r. refl) refresh_token_scheme unauthorized token s.oauth.refresh_tokens r
          h in
      elim (Bool-cases (live_refresh client_id user_id org_id r)) [
        | inl live ↦
            dead_refresh db io' client_id token access_ttl refresh_ttl user_id org_id
              (family_revoked io client_id user_id org_id s)
              (record r { revoked_at = some io.db_now }) (found ∙ rw live refl) dead same_client
              same_user same_org
        | inr not_live ↦
            dead_refresh db io' client_id token access_ttl refresh_ttl user_id org_id
              (family_revoked io client_id user_id org_id s) r (found ∙ rw not_live refl) dead
              same_client same_user same_org
      ]
