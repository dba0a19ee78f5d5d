-- ===== src/Db/Oauth/Progress.antt =====
-- What a call needs so that a pair is issued and a code exchanged.
use md_manager.Base.{
  ℕ, Bool, true, false, Option, some, List, ◌∷◌, ◌++◌, ◌≡◌, refl, arith, any, ◌==◌, nat_eq,
  bytes_eq,
}
use md_manager.Fault.{ok}
use md_manager.Text.{Text, len}
use md_manager.Crypto.Tokens.{generate_token-token_prefix}
use md_manager.Oauth.{
  access_token_scheme, refresh_token_scheme, generate_access_token, generate_refresh_token,
  verify_pkce_s256,
}
use md_manager.Db.{Db, Inputs}
use md_manager.Db.Rows.{update_rows, insert_row}
use md_manager.Db.Tables.{Store}
use md_manager.Db.Tables.Oauth.{AccessTokenRow, RefreshRow, CodeRow}
use md_manager.Db.Tx.{bind_ok, query_ok, write_ok, pure}
use md_manager.Db.Oauth.Exchange.{
  exchange_auth_code, consume_code, spendable, is_bound, same_resource, pkce_method_s256,
  presented_code,
}
use md_manager.Db.Oauth.Tokens.{
  IssuedTokens, issue_token_pair, issue_token_pair_with_ids, access_row, refresh_row, insert_access,
  insert_refresh,
}

pub is_bound_intro :
    (db : Db) (io : Inputs) (client_id : ℕ) (redirect_uri verifier : Text) (resource : Option Text)
    (c : CodeRow)
    → c.client_id ≡ client_id
    → c.redirect_uri ≡ redirect_uri
    → c.code_challenge_method ≡ pkce_method_s256
    → verify_pkce_s256 db.hashes verifier c.code_challenge ≡ true
    → same_resource resource c.resource ≡ true
    → is_bound db io client_id redirect_uri verifier resource c ≡ true
unfolding is_bound
is_bound_intro db io client_id redirect_uri verifier resource c h1 h2 h3 h4 h5 = ground arith

module _ (db : Db) (io : Inputs) where
  insert_access_ok :
      (row : AccessTokenRow) (s : Store)
      → any (λ r. r.id == row.id) s.oauth.access_tokens ≡ false
      → insert_access db io row s
        ≡ ok (
          tt,
          record s { oauth = record s.oauth { access_tokens = row ∷ s.oauth.access_tokens } },
        )
  unfolding insert_access insert_row
  insert_access_ok row s free = write_ok _ s (rw free refl)

  insert_refresh_ok :
      (row : RefreshRow) (s : Store)
      → any (λ r. r.id == row.id) s.oauth.refresh_tokens ≡ false
      → insert_refresh db io row s
        ≡ ok (
          tt,
          record s { oauth = record s.oauth { refresh_tokens = row ∷ s.oauth.refresh_tokens } },
        )
  unfolding insert_refresh insert_row
  insert_refresh_ok row s free = write_ok _ s (rw free refl)

  consume_code_ok :
      (code_id : ℕ) (s : Store)
      → any (spendable db io code_id) s.oauth.codes ≡ true
      → consume_code db io code_id s
        ≡ ok (
          tt,
          record s {
            oauth = record s.oauth {
              codes =
                  update_rows
                    (spendable db io code_id)
                    (λ c. record c { consumed_at = some io.db_now })
                    s.oauth.codes;
            };
          },
        )
  unfolding consume_code
  consume_code_ok code_id s unused = write_ok _ s (rw unused refl)

  -- What a call needs from outside for a pair: eight random digits for each token, and two
  -- identifiers that are not in use.
  pub record HasRoom (access : List AccessTokenRow) (refresh : List RefreshRow) : Type 0 where
    pub first : Text
    pub rest : Text
    pub drawn : io.random_hex 0 ≡ first ++ rest
    pub size : len first ≡ 8
    pub first' : Text
    pub rest' : Text
    pub drawn' : io.random_hex 1 ≡ first' ++ rest'
    pub size' : len first' ≡ 8
    pub free_access : any (λ r. r.id == io.new_id 0) access ≡ false
    pub free_refresh : any (λ r. r.id == io.new_id 1) refresh ≡ false

  issue_token_pair_ok :
      (client_id user_id org_id : ℕ) (scope resource : Text) (all_orgs : Bool)
      (access_ttl refresh_ttl : ℕ) (s : Store)
      → HasRoom s.oauth.access_tokens s.oauth.refresh_tokens
      → (issued : IssuedTokens) × (t : Store) × (issue_token_pair db io client_id user_id org_id
            scope resource all_orgs access_ttl refresh_ttl s
          ≡ ok (issued, t))
  unfolding issue_token_pair issue_token_pair_with_ids generate_access_token generate_refresh_token
      access_row refresh_row pure
  issue_token_pair_ok client_id user_id org_id scope resource all_orgs access_ttl refresh_ttl s x =
      let (access, minted, _, _, _, _) =
        generate_token-token_prefix db.hashes db.pepper access_token_scheme x.first x.rest x.size in
      let (refresh, minted', _, _, _, _) =
        generate_token-token_prefix db.hashes db.pepper refresh_token_scheme x.first' x.rest'
          x.size' in
      let a_row =
        access_row db io client_id user_id org_id scope resource all_orgs access_ttl access in
      let r_row =
        refresh_row db io client_id user_id org_id scope resource all_orgs refresh_ttl refresh in
      (
        _,
        _,
        bind_ok _ _ s
            (bind_ok _ _ s (query_ok _ s (rw x.drawn minted)) (
              bind_ok _ _ s (insert_access_ok a_row s x.free_access) (
                bind_ok _ _ _ (query_ok _ _ (rw x.drawn' minted'))
                  (bind_ok _ _ _ (insert_refresh_ok r_row _ x.free_refresh) refl))))
            refl,
      )

  -- An unused code with the right bindings is exchanged.
  pub exchange_auth_code_ok :
      (client_id : ℕ) (code redirect_uri verifier : Text) (resource : Option Text)
      (access_ttl refresh_ttl : ℕ) (s : Store) (c : CodeRow)
      → presented_code db code s.oauth.codes ≡ ok c
      → any (spendable db io c.id) s.oauth.codes ≡ true
      → is_bound db io client_id redirect_uri verifier resource c ≡ true
      → HasRoom s.oauth.access_tokens s.oauth.refresh_tokens
      → (issued : IssuedTokens) × (t : Store) × (exchange_auth_code db io client_id code
            redirect_uri verifier resource access_ttl refresh_ttl s
          ≡ ok (issued, t))
  unfolding exchange_auth_code
  exchange_auth_code_ok client_id code redirect_uri verifier resource access_ttl refresh_ttl s c
        listed unused bound x =
      let after = record s {
        oauth = record s.oauth {
          codes =
              update_rows (spendable db io c.id) (λ c. record c { consumed_at = some io.db_now })
                s.oauth.codes;
        };
      } in
      let (issued, t, e) =
        issue_token_pair_ok client_id c.user_id c.org_id c.scope c.resource c.all_orgs access_ttl
          refresh_ttl after x in
      (
        issued,
        t,
        bind_ok _ _ s (query_ok _ s listed) (
            bind_ok _ _ s (consume_code_ok c.id s unused)
              (bind_ok _ _ after (query_ok _ after (rw bound refl)) e)),
      )
