-- ===== src/Db/Oauth/Refresh/Laws.antt =====
-- Rotation: a refresh token is used once, keeps the grant's rights, and a second use kills the
-- whole family, the tokens of the first use included.
use md_manager.Base.{
  ℕ, ◌<◌, true, false, some, ◌≡◌, sym, ap, ◌∙◌, arith, any, leb, ◌==◌, nat_eq, bytes_eq, Bool-cases,
  inl, inr,
}
use md_manager.Fault.{unauthorized, ok, err, Result-cases}
use md_manager.Text.{Text}
use md_manager.Oauth.{refresh_token_scheme}
use md_manager.Db.{Db, Inputs}
use md_manager.Db.Lookup.{matching}
use md_manager.Db.Lookup.Laws.{presented-eq-ok}
use md_manager.Db.Rows.{update_rows}
use md_manager.Db.Rows.Laws.{find-filter-any}
use md_manager.Db.Statements.Laws.{write-eq-ok}
use md_manager.Db.Tables.{Store}
use md_manager.Db.Tables.Oauth.{RefreshRow}
use md_manager.Db.Tx.{bind_elim, pure-eq-ok, commit}
use md_manager.Db.Oauth.Refresh.{
  refresh_oauth_token, presented_refresh, is_spent, mark_rotated, rotate, rotatable,
}
use md_manager.Db.Oauth.Tokens.{IssuedTokens, family_revoked, live_refresh}
use md_manager.Db.Oauth.Tokens.Laws.{IsIssued, issue_token_pair_with_ids-IsIssued}

module _ (db : Db) (io : Inputs) where
  mark_rotated_lem :
      (refresh_id new_id : ℕ) (s t : Store) {u : Unit {0}}
      → mark_rotated db io refresh_id new_id s ≡ ok (u, t)
      → t ≡ record s {
        oauth = record s.oauth {
          refresh_tokens =
              update_rows
                (rotatable db io refresh_id)
                (λ r. record r { revoked_at = some io.db_now; rotated_to = some new_id })
                s.oauth.refresh_tokens;
        };
      }
  unfolding mark_rotated
  mark_rotated_lem refresh_id new_id s t h = let w = write-eq-ok _ s h in ground arith

  module _ (client_id : ℕ) (token : Text) (access_ttl refresh_ttl : ℕ) where
    -- What backs a rotation: a row that matches the token by prefix and hash and is this client's,
    -- neither revoked nor rotated nor expired, and that is now marked. The pair has the rights of
    -- the grant: its user, organization, scope and resource.
    pub record IsRotated (issued : IssuedTokens) (s t : Store) : Type 0 where
      pub row : RefreshRow
      pub listed : presented_refresh db token s.oauth.refresh_tokens ≡ ok row
      pub client : row.client_id ≡ client_id
      pub unspent : is_spent row ≡ false
      pub not_expired : io.now_utc < row.expires_at
      pub between : Store
      pub pair :
          IsIssued db io row.client_id row.user_id row.org_id row.scope row.resource row.all_orgs
            access_ttl refresh_ttl issued s between
      pub new_id : ℕ
      pub marked : t ≡ record between {
        oauth = record between.oauth {
          refresh_tokens =
              update_rows
                (rotatable db io row.id)
                (λ r. record r { revoked_at = some io.db_now; rotated_to = some new_id })
                between.oauth.refresh_tokens;
        };
      }

    rotate-IsRotated :
        (row : RefreshRow) (s t : Store) (issued : IssuedTokens)
        → presented_refresh db token s.oauth.refresh_tokens ≡ ok row
        → row.client_id ≡ client_id
        → is_spent row ≡ false
        → io.now_utc < row.expires_at
        → rotate db io row access_ttl refresh_ttl s ≡ ok (issued, t)
        → IsRotated issued s t
    unfolding rotate
    rotate-IsRotated row s t issued listed client unspent fresh h = bind_elim _ _ _ h λ p s1 e1 h1.
        bind_elim _ _ _ h1 λ _ s2 e2 h2.
          let (p1, p2) = pure-eq-ok _ _ s2 t h2 in
          record {
            row = row;
            listed = listed;
            client = client;
            unspent = unspent;
            not_expired = fresh;
            between = s1;
            pair =
                issue_token_pair_with_ids-IsIssued db io row.client_id row.user_id row.org_id
                  row.scope row.resource row.all_orgs access_ttl refresh_ttl s s1 issued p.1
                  (rw (sym p1) e1);
            new_id = p.1;
            marked = p2 ∙ mark_rotated_lem row.id p.1 s1 s2 e2;
          }

    pub refresh_oauth_token-IsRotated :
        (s t : Store) (issued : IssuedTokens)
        → refresh_oauth_token db io client_id token access_ttl refresh_ttl s ≡ (t, ok issued)
        → IsRotated issued s t
    unfolding refresh_oauth_token commit
    refresh_oauth_token-IsRotated s t issued h =
        elim (Result-cases (presented_refresh db token s.oauth.refresh_tokens)) [
          | inr (x, e) ↦ absurd (ground arith)
          | inl (r, e) ↦ elim (Bool-cases (r.client_id == client_id)) [
            | inr other ↦ absurd (ground arith)
            | inl same ↦ elim (Bool-cases (is_spent r)) [
              | inl spent ↦ absurd (ground arith)
              | inr unspent ↦ elim (Bool-cases (leb r.expires_at io.now_utc)) [
                | inl late ↦ absurd (ground arith)
                | inr fresh ↦ elim (Result-cases (rotate db io r access_ttl refresh_ttl s)) [
                  | inr (x, e2) ↦ absurd (ground arith)
                  | inl ((i, u), e2) ↦
                      rotate-IsRotated r s t issued e (ground arith) unspent (ground arith)
                        (ground arith)
                ]
              ]
            ]
          ]
        ]

    -- A spent token is refused as unauthorized; where it is the client's, its family is revoked.
    pub spent_refresh :
        (s : Store) (r : RefreshRow)
        → presented_refresh db token s.oauth.refresh_tokens ≡ ok r
        → is_spent r ≡ true
        → r.client_id ≡ client_id
        → refresh_oauth_token db io client_id token access_ttl refresh_ttl s
          ≡ (family_revoked io r.client_id r.user_id r.org_id s, err unauthorized)
    unfolding refresh_oauth_token
    spent_refresh s r h spent client = ground arith

    -- A token of a family without live tokens is refused.
    pub dead_refresh :
        (user_id org_id : ℕ) (s : Store) (r : RefreshRow)
        → presented_refresh db token s.oauth.refresh_tokens ≡ ok r
        → any (live_refresh client_id user_id org_id) s.oauth.refresh_tokens ≡ false
        → r.client_id ≡ client_id
        → r.user_id ≡ user_id
        → r.org_id ≡ org_id
        → (refresh_oauth_token db io client_id token access_ttl refresh_ttl s).1 ≡ err unauthorized
    unfolding presented_refresh matching
    dead_refresh user_id org_id s r h dead same_client same_user same_org =
        let (_, listed, _) =
          presented-eq-ok db (λ r. r.token_prefix) (λ r. r.token_hash) refresh_token_scheme
            unauthorized token s.oauth.refresh_tokens r h in
        let gone =
          find-filter-any _ _ (live_refresh client_id user_id org_id) s.oauth.refresh_tokens r dead
            listed in
        ap (λ x. x.1) (spent_refresh s r h (ground arith) same_client)
