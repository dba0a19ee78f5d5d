-- ===== src/Db/Oauth/Exchange/Laws.antt =====
-- What an exchanged code was worth, and that it is exchanged once.
use md_manager.Base.{
  ℕ, ◌≤◌, Bool, true, false, Option, some, List, ◌≡◌, refl, sym, ap, ◌∙◌, arith, any, Bool-cases,
  inl, inr, nat_eq, bytes_eq, if◌then◌else◌,
}
use md_manager.Fault.{unauthorized, ok, err}
use md_manager.Text.{Text}
use md_manager.Oauth.{verify_pkce_s256, auth_code_scheme}
use md_manager.Db.{Db, Inputs}
use md_manager.Db.Lookup.Laws.{presented-update_rows}
use md_manager.Db.Rows.{update_rows}
use md_manager.Db.Rows.Laws.{any-update_rows}
use md_manager.Db.Statements.Laws.{write-eq-ok}
use md_manager.Db.Tables.{Store}
use md_manager.Db.Tables.Oauth.{CodeRow}
use md_manager.Db.Tx.{bind_elim, query-eq-ok, query_ok, bind_ok, bind_err, write_err}
use md_manager.Db.Oauth.Exchange.{
  exchange_auth_code, consume_code, presented_code, is_bound, spendable, same_resource,
  pkce_method_s256,
}
use md_manager.Db.Oauth.Tokens.{IssuedTokens}
use md_manager.Db.Oauth.Tokens.Laws.{IsIssued, issue_token_pair-IsIssued}

presented_code-update_rows :
    (db : Db) (p : CodeRow → Bool) (t : ℕ) (code : Text) (rows : List CodeRow) (c : CodeRow)
    → presented_code db code rows ≡ ok c
    → presented_code db code (update_rows p (λ c. record c { consumed_at = some t }) rows)
      ≡ ok (if p c then record c { consumed_at = some t } else c)
unfolding presented_code
presented_code-update_rows db p t code rows c h =
    presented-update_rows db (λ r. r.code_prefix) (λ r. r.code_hash) p _ (λ r. refl) (λ r. refl)
      auth_code_scheme unauthorized code rows c h

consume_code_err :
    (db : Db) (io : Inputs) (code_id : ℕ) (s : Store)
    → any (spendable db io code_id) s.oauth.codes ≡ false
    → consume_code db io code_id s ≡ err unauthorized
unfolding consume_code
consume_code_err db io code_id s h = write_err _ s (rw h refl)

used_code :
    (db : Db) (io : Inputs) (client_id : ℕ) (code redirect_uri verifier : Text)
    (resource : Option Text) (access_ttl refresh_ttl : ℕ) (s : Store) (c : CodeRow)
    → presented_code db code s.oauth.codes ≡ ok c
    → any (spendable db io c.id) s.oauth.codes ≡ false
    → exchange_auth_code db io client_id code redirect_uri verifier resource access_ttl refresh_ttl
        s
      ≡ err unauthorized
unfolding exchange_auth_code
used_code db io client_id code redirect_uri verifier resource access_ttl refresh_ttl s c found
      spent =
    bind_ok _ _ s (query_ok _ s found) (bind_err _ _ s (consume_code_err db io c.id s spent))

module _ (db : Db) (io : Inputs) where
  consume_code_lem :
      (code_id : ℕ) (s t : Store) {u : Unit {0}}
      → consume_code db io code_id s ≡ ok (u, t)
      → (any (spendable db io code_id) s.oauth.codes ≡ true)
        × (t ≡ record s {
          oauth = record s.oauth {
            codes =
                update_rows
                  (spendable db io code_id)
                  (λ c. record c { consumed_at = some io.db_now })
                  s.oauth.codes;
          };
        })
  unfolding consume_code
  consume_code_lem code_id s t h = let w = write-eq-ok _ s h in ground arith

  module _ (client_id : ℕ) (code redirect_uri verifier : Text) (resource : Option Text)
      (access_ttl refresh_ttl : ℕ) where
    is_bound_lem :
        (c : CodeRow)
        → is_bound db io client_id redirect_uri verifier resource c ≡ true
        → (c.client_id ≡ client_id)
          × (c.redirect_uri ≡ redirect_uri)
          × (c.code_challenge_method ≡ pkce_method_s256)
          × (verify_pkce_s256 db.hashes verifier c.code_challenge ≡ true)
          × (same_resource resource c.resource ≡ true)
    unfolding is_bound
    is_bound_lem c h = ground arith

    -- What backs an exchange: a code of the table that matches the presented one by prefix and
    -- hash, issued to this client for this redirect URI, an S256 challenge that the verifier meets,
    -- no other resource, and a row that was neither consumed nor expired and now is consumed.
    -- The pair is for the code's user, organization, scope and resource.
    pub record IsExchanged (issued : IssuedTokens) (s t : Store) : Type 0 where
      pub row : CodeRow
      pub listed : presented_code db code s.oauth.codes ≡ ok row
      pub unused : any (spendable db io row.id) s.oauth.codes ≡ true
      pub client : row.client_id ≡ client_id
      pub redirect : row.redirect_uri ≡ redirect_uri
      pub method : row.code_challenge_method ≡ pkce_method_s256
      pub challenge : verify_pkce_s256 db.hashes verifier row.code_challenge ≡ true
      pub audience : same_resource resource row.resource ≡ true
      pub consumed : Store
      pub codes : consumed ≡ record s {
        oauth = record s.oauth {
          codes =
              update_rows
                (spendable db io row.id)
                (λ c. record c { consumed_at = some io.db_now })
                s.oauth.codes;
        };
      }
      pub pair :
          IsIssued db io client_id row.user_id row.org_id row.scope row.resource row.all_orgs
            access_ttl refresh_ttl issued consumed t

    pub exchange_auth_code-IsExchanged :
        (s t : Store) (issued : IssuedTokens)
        → exchange_auth_code db io client_id code redirect_uri verifier resource access_ttl
            refresh_ttl s
          ≡ ok (issued, t)
        → IsExchanged issued s t
    unfolding exchange_auth_code
    exchange_auth_code-IsExchanged s t issued h = bind_elim _ _ _ h λ c s1 e1 h1.
        bind_elim _ _ _ h1 λ _ s2 e2 h2. bind_elim _ _ _ h2 λ _ s3 e3 h3.
          let (found, p1) = query-eq-ok _ s e1 in
          let (unused, p2) = consume_code_lem c.id s1 s2 e2 in
          let (bound, p3) = query-eq-ok _ s2 e3 in
          let (b1, b2, b3, b4, b5) = is_bound_lem c (ground arith) in
          record {
            row = c;
            listed = found;
            unused = rw (sym p1) unused;
            client = b1;
            redirect = b2;
            method = b3;
            challenge = b4;
            audience = b5;
            consumed = s3;
            codes = p3 ∙ p2 ∙ rw p1 refl;
            pair =
                issue_token_pair-IsIssued db io client_id c.user_id c.org_id c.scope c.resource
                  c.all_orgs access_ttl refresh_ttl s3 t issued h3;
          }

    -- A code is exchanged once: after a successful exchange every further one, by whatever client
    -- and with whatever redirect URI, verifier and resource, is refused as unauthorized, provided
    -- that the database's clock has not gone back.
    pub exchange_auth_code-unauthorized :
        (io' : Inputs) (client' : ℕ) (redirect' verifier' : Text) (resource' : Option Text)
        (access' refresh' : ℕ) (s t : Store) (issued : IssuedTokens)
        → exchange_auth_code db io client_id code redirect_uri verifier resource access_ttl
            refresh_ttl s
          ≡ ok (issued, t)
        → io.db_now ≤ io'.db_now
        → exchange_auth_code db io' client' code redirect' verifier' resource' access' refresh' t
          ≡ err unauthorized
    exchange_auth_code-unauthorized io' client' redirect' verifier' resource' access' refresh' s t
          issued h later =
        let x = exchange_auth_code-IsExchanged s t issued h in
        let found =
          presented_code-update_rows db (spendable db io x.row.id) io.db_now code s.oauth.codes
            x.row x.listed in
        let spent =
          any-update_rows (spendable db io x.row.id) (spendable db io' x.row.id)
            (λ c. record c { consumed_at = some io.db_now }) s.oauth.codes λ c. ground arith in
        let same = ap (λ x. x.oauth.codes) x.pair.after ∙ ap (λ x. x.oauth.codes) x.codes in
        elim (Bool-cases (spendable db io x.row.id x.row)) [
          | inl now ↦
              used_code db io' client' code redirect' verifier' resource' access' refresh' t
                (record x.row { consumed_at = some io.db_now })
                (ap (presented_code db code) same ∙ found ∙ ap ok (rw now refl))
                (ap (any (spendable db io' x.row.id)) same ∙ spent)
          | inr not_now ↦
              used_code db io' client' code redirect' verifier' resource' access' refresh' t x.row
                (ap (presented_code db code) same ∙ found ∙ ap ok (rw not_now refl))
                (ap (any (spendable db io' x.row.id)) same ∙ spent)
        ]
