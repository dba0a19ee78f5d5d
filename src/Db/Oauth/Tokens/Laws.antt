-- ===== src/Db/Oauth/Tokens/Laws.antt =====
-- What issuing a pair of tokens has done, and what the revocation of a family leaves.
use md_manager.Base.{ℕ, Bool, false, ◌∷◌, ◌≡◌, refl, sym, ap, ◌∙◌, arith, any, nat_eq}
use md_manager.Fault.{ok}
use md_manager.Text.{Text}
use md_manager.Crypto.{GeneratedKey}
use md_manager.Oauth.{generate_access_token, generate_refresh_token}
use md_manager.Db.{Db, Inputs}
use md_manager.Db.Rows.Laws.{any-update_rows}
use md_manager.Db.Statements.Laws.{write-eq-ok, put-eq-ok, insert_row_lem}
use md_manager.Db.Tables.{Store}
use md_manager.Db.Tables.Oauth.{AccessTokenRow, RefreshRow}
use md_manager.Db.Tx.{bind_elim, query-eq-ok, pure-eq-ok}
use md_manager.Db.Oauth.Tokens.{
  IssuedTokens, access_row, refresh_row, insert_access, insert_refresh, issue_token_pair_with_ids,
  issue_token_pair, family_revoked, live_access, live_refresh,
}

module _ (db : Db) (io : Inputs) where
  insert_access_lem :
      (row : AccessTokenRow) (s : Store) {t : Store} {u : Unit {0}}
      → insert_access db io row s ≡ ok (u, t)
      → t ≡ record s { oauth = record s.oauth { access_tokens = row ∷ s.oauth.access_tokens } }
  unfolding insert_access
  insert_access_lem row s h =
      let (rows, e, p) = put-eq-ok _ _ (write-eq-ok _ s h) in
      let (_, q) = insert_row_lem _ _ _ s.oauth.access_tokens e in
      p ∙ ap (λ x. record s { oauth = record s.oauth { access_tokens = x } }) q

  insert_refresh_lem :
      (row : RefreshRow) (s : Store) {t : Store} {u : Unit {0}}
      → insert_refresh db io row s ≡ ok (u, t)
      → t ≡ record s { oauth = record s.oauth { refresh_tokens = row ∷ s.oauth.refresh_tokens } }
  unfolding insert_refresh
  insert_refresh_lem row s h =
      let (rows, e, p) = put-eq-ok _ _ (write-eq-ok _ s h) in
      let (_, q) = insert_row_lem _ _ _ s.oauth.refresh_tokens e in
      p ∙ ap (λ x. record s { oauth = record s.oauth { refresh_tokens = x } }) q

  module _ (client_id user_id org_id : ℕ) (scope resource : Text) (all_orgs : Bool)
      (access_ttl refresh_ttl : ℕ) where
    -- A pair was issued: two fresh tokens, a row for each in front of its table, and nothing else.
    pub record IsIssued (issued : IssuedTokens) (s t : Store) : Type 0 where
      pub access : GeneratedKey
      pub refresh : GeneratedKey
      pub minted_access : generate_access_token (io.random_hex 0) ≡ ok access
      pub minted_refresh : generate_refresh_token (io.random_hex 1) ≡ ok refresh
      pub after : t ≡ record s {
        oauth = record s.oauth {
          access_tokens =
              access_row db io client_id user_id org_id scope resource all_orgs access_ttl access
              ∷ s.oauth.access_tokens;
          refresh_tokens =
              refresh_row db io client_id user_id org_id scope resource all_orgs refresh_ttl refresh
              ∷ s.oauth.refresh_tokens;
        };
      }
      pub tokens : issued ≡ record {
        access_token = access.secret;
        refresh_token = refresh.secret;
        access_expires_in = access_ttl;
        scope = scope;
        resource = resource;
      }

    pub issue_token_pair_with_ids-IsIssued :
        (s t : Store) (issued : IssuedTokens) (new_id : ℕ)
        → issue_token_pair_with_ids db io client_id user_id org_id scope resource all_orgs
            access_ttl refresh_ttl s
          ≡ ok ((issued, new_id), t)
        → IsIssued issued s t
    unfolding issue_token_pair_with_ids
    issue_token_pair_with_ids-IsIssued s t issued new_id h = bind_elim _ _ _ h λ access s1 e1 h1.
        bind_elim _ _ _ h1 λ _ s2 e2 h2. bind_elim _ _ _ h2 λ refresh s3 e3 h3.
          bind_elim _ _ _ h3 λ _ s4 e4 h4.
            let (m1, p1) = query-eq-ok _ s e1 in
            let p2 = insert_access_lem _ s1 e2 in
            let (m2, p3) = query-eq-ok _ s2 e3 in
            let p4 = insert_refresh_lem _ s3 e4 in
            let (p5, p6) = pure-eq-ok _ _ s4 t h4 in
            record {
              access = access;
              refresh = refresh;
              minted_access = m1;
              minted_refresh = m2;
              after = p6 ∙ p4 ∙ rw (p3, p2, p1) refl;
              tokens = ap (λ x. x.0) (sym p5);
            }

    pub issue_token_pair-IsIssued :
        (s t : Store) (issued : IssuedTokens)
        → issue_token_pair db io client_id user_id org_id scope resource all_orgs access_ttl
            refresh_ttl s
          ≡ ok (issued, t)
        → IsIssued issued s t
    unfolding issue_token_pair
    issue_token_pair-IsIssued s t issued h = bind_elim _ _ _ h λ pair s1 e1 h1.
        let (p1, p2) = pure-eq-ok _ _ s1 t h1 in
        issue_token_pair_with_ids-IsIssued s t issued pair.1 (rw (sym p1, p2) e1)

-- No token of the family is live.
pub record IsDead (client_id user_id org_id : ℕ) (s : Store) : Type 0 where
  pub access : any (live_access client_id user_id org_id) s.oauth.access_tokens ≡ false
  pub refresh : any (live_refresh client_id user_id org_id) s.oauth.refresh_tokens ≡ false

pub family_revoked-IsDead :
    (io : Inputs) (client_id user_id org_id : ℕ) (s : Store)
    → IsDead client_id user_id org_id (family_revoked io client_id user_id org_id s)
unfolding family_revoked
family_revoked-IsDead io client_id user_id org_id s = record {
  access = any-update_rows _ _ _ s.oauth.access_tokens λ r. ground arith;
  refresh = any-update_rows _ _ _ s.oauth.refresh_tokens λ r. ground arith;
}
