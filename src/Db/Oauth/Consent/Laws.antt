-- ===== src/Db/Oauth/Consent/Laws.antt =====
-- What consent leaves: a request that is used up, and a code that is found with its bindings.
use md_manager.Base.{
  ℕ, ◌≤◌, Bool, Option, none, some, List, ◌∷◌, ◌++◌, ◌≡◌, refl, sym, ap, ◌∙◌, arith, find, nat_eq,
  bytes_eq,
}
use md_manager.Fault.{not_found, unauthorized, ok, err}
use md_manager.Text.{Text, len}
use md_manager.Crypto.{GeneratedKey}
use md_manager.Oauth.{auth_code_scheme, generate_auth_code}
use md_manager.Db.{Db, Inputs}
use md_manager.Db.Lookup.Laws.{presented_front}
use md_manager.Db.Rows.{update_rows}
use md_manager.Db.Rows.Laws.{find-update_rows_none}
use md_manager.Db.Statements.Laws.{write-eq-ok, put-eq-ok, insert_row_lem, audit_lem}
use md_manager.Db.Tables.{Store}
use md_manager.Db.Tables.Oauth.{AuthRequestRow, CodeRow}
use md_manager.Db.Tx.{bind_elim, query-eq-ok, pure-eq-ok, bind_ok, bind_err, query_ok, query_err}
use md_manager.Db.Oauth.Consent.{
  MintedCode, approve_authorization_request, scope_org, code_row, insert_code,
}
use md_manager.Db.Oauth.Exchange.{presented_code}
use md_manager.Db.Oauth.Requests.{
  consume_request, deny_authorization_request, pending_request, is_pending,
}

pending_request_none :
    (io : Inputs) (request_id : ℕ) (s : Store)
    → find (is_pending io request_id) s.oauth.requests ≡ none
    → pending_request io request_id s ≡ err not_found
unfolding pending_request
pending_request_none io request_id s h = ground arith

module _ (db : Db) (io : Inputs) where
  insert_code_lem :
      (row : CodeRow) (s : Store) {t : Store} {u : Unit {0}}
      → insert_code db io row s ≡ ok (u, t)
      → t ≡ record s { oauth = record s.oauth { codes = row ∷ s.oauth.codes } }
  unfolding insert_code
  insert_code_lem row s h =
      let (rows, e, p) = put-eq-ok _ _ (write-eq-ok _ s h) in
      let (_, q) = insert_row_lem _ _ _ s.oauth.codes e in
      p ∙ ap (λ x. record s { oauth = record s.oauth { codes = x } }) q

  consume_request_lem :
      (request_id : ℕ) (s : Store) {t : Store} {u : Unit {0}}
      → consume_request io request_id s ≡ ok (u, t)
      → t ≡ record s {
        oauth = record s.oauth {
          requests =
              update_rows
                (is_pending io request_id)
                (λ r. record r { consumed_at = some io.db_now })
                s.oauth.requests;
        };
      }
  unfolding consume_request
  consume_request_lem request_id s h = let w = write-eq-ok _ s h in ground arith

  -- No row is pending under the request's identifier, now and later.
  used_up :
      (io' : Inputs) (request_id : ℕ) (rows : List AuthRequestRow)
      → io.db_now ≤ io'.db_now
      → find (is_pending io' request_id) (
          update_rows
            (is_pending io request_id)
            (λ r. record r { consumed_at = some io.db_now })
            rows)
        ≡ none
  used_up io' request_id rows later =
      find-update_rows_none (is_pending io request_id) (is_pending io' request_id)
        (λ r. record r { consumed_at = some io.db_now }) rows λ r. ground arith

  module _ (request_id user_id : ℕ) (org_id : Option ℕ) (all_orgs : Bool) (code_ttl : ℕ) where
    -- What backs a consent: a pending request, a current membership of the user in the organization
    -- of the code, and a code row for that request, user and organization in front of its table.
    pub record IsApproved (minted : MintedCode) (s t : Store) : Type 0 where
      pub scoped : ℕ
      pub scope_read : scope_org db io user_id org_id all_orgs s ≡ ok scoped
      pub request : AuthRequestRow
      pub pending : pending_request io request_id s ≡ ok request
      pub code : GeneratedKey
      pub minted_code : generate_auth_code (io.random_hex 0) ≡ ok code
      pub codes :
          t.oauth.codes
          ≡ code_row db io user_id scoped all_orgs code_ttl request code ∷ s.oauth.codes
      pub requests :
          t.oauth.requests
          ≡ update_rows
              (is_pending io request_id)
              (λ r. record r { consumed_at = some io.db_now })
              s.oauth.requests
      pub members : t.members ≡ s.members
      pub answer : minted ≡ record {
        redirect_uri = request.redirect_uri;
        code = code.secret;
        state = request.state;
      }

    pub approve_authorization_request-IsApproved :
        (s t : Store) (minted : MintedCode)
        → approve_authorization_request db io request_id user_id org_id all_orgs code_ttl s
          ≡ ok (minted, t)
        → IsApproved minted s t
    unfolding approve_authorization_request
    approve_authorization_request-IsApproved s t minted h = bind_elim _ _ _ h λ scoped s1 e1 h1.
        bind_elim _ _ _ h1 λ req s2 e2 h2. bind_elim _ _ _ h2 λ _ s3 e3 h3.
          bind_elim _ _ _ h3 λ role s4 e4 h4. bind_elim _ _ _ h4 λ code s5 e5 h5.
            bind_elim _ _ _ h5 λ _ s6 e6 h6. bind_elim _ _ _ h6 λ _ s7 e7 h7.
              let (q1, p1) = query-eq-ok _ s e1 in
              let (q2, p2) = query-eq-ok _ s1 e2 in
              let p3 = consume_request_lem request_id s2 e3 in
              let (_, p4) = query-eq-ok _ s3 e4 in
              let (q5, p5) = query-eq-ok _ s4 e5 in
              let p6 = insert_code_lem _ s5 e6 in
              let p7 = audit_lem _ s6 io _ _ _ _ e7 in
              let (p8, p9) = pure-eq-ok _ _ s7 t h7 in
              let back2 : s2 ≡ s = p2 ∙ p1 in
              let back5 : s5 ≡ s3 = p5 ∙ p4 in
              let after : t.oauth ≡ s6.oauth = ap (λ x. x.oauth) (p9 ∙ p7) in
              record {
                scoped = scoped;
                scope_read = q1;
                request = req;
                pending = ap (pending_request io request_id) (sym p1) ∙ q2;
                code = code;
                minted_code = q5;
                codes =
                    ap (λ o. o.codes) after
                    ∙ ap (λ x. x.oauth.codes) p6
                    ∙ ap
                        (λ x.
                          code_row db io user_id scoped all_orgs code_ttl req code ∷ x.oauth.codes)
                        (back5 ∙ p3)
                    ∙ ap
                        (λ x.
                          code_row db io user_id scoped all_orgs code_ttl req code ∷ x.oauth.codes)
                        back2;
                requests =
                    ap (λ o. o.requests) after
                    ∙ ap (λ x. x.oauth.requests) p6
                    ∙ ap (λ x. x.oauth.requests) (back5 ∙ p3)
                    ∙ ap
                        (λ x.
                          update_rows (is_pending io request_id)
                            (λ r. record r { consumed_at = some io.db_now }) x.oauth.requests)
                        back2;
                members =
                    ap (λ x. x.members) (p9 ∙ p7)
                    ∙ ap (λ x. x.members) p6
                    ∙ ap (λ x. x.members) (back5 ∙ p3)
                    ∙ ap (λ x. x.members) back2;
                answer = sym p8;
              }

    -- A request is answered once: after an approval neither a second approval, by whatever user
    -- for whatever organization, nor a denial goes through, provided that the database's clock has
    -- not gone back. Both fail with not_found, unless the approval fails for its organization.
    pub approve_authorization_request-not_found :
        (io' : Inputs) (user' ttl' scoped' : ℕ) (org' : Option ℕ) (all' : Bool) (s t : Store)
        (minted : MintedCode)
        → approve_authorization_request db io request_id user_id org_id all_orgs code_ttl s
          ≡ ok (minted, t)
        → io.db_now ≤ io'.db_now
        → scope_org db io' user' org' all' t ≡ ok scoped'
        → (approve_authorization_request db io' request_id user' org' all' ttl' t ≡ err not_found)
          × (deny_authorization_request io' request_id t ≡ err not_found)
    unfolding approve_authorization_request deny_authorization_request
    approve_authorization_request-not_found io' user' ttl' scoped' org' all' s t minted h later
          scope =
        let x = approve_authorization_request-IsApproved s t minted h in
        let gone : pending_request io' request_id t ≡ err not_found =
          pending_request_none io' request_id t (
            ap (find (is_pending io' request_id)) x.requests
            ∙ used_up io' request_id s.oauth.requests later) in
        (
          bind_ok _ _ t (query_ok _ t scope) (bind_err _ _ t (query_err _ t gone)),
          bind_err _ _ t (query_err _ t gone),
        )

    -- The minted code is found with the row of the consent.
    pub approve_authorization_request-presented_code :
        (first rest : Text) (s t : Store) (minted : MintedCode) (x : IsApproved minted s t)
        → io.random_hex 0 ≡ first ++ rest
        → len first ≡ 8
        → presented_code db minted.code t.oauth.codes
          ≡ ok (code_row db io user_id x.scoped all_orgs code_ttl x.request x.code)
    unfolding presented_code code_row generate_auth_code
    approve_authorization_request-presented_code first rest s t minted x drawn size =
        let row = code_row db io user_id x.scoped all_orgs code_ttl x.request x.code in
        ap (λ m. presented_code db m.code t.oauth.codes) x.answer
        ∙ ap (presented_code db x.code.secret) x.codes
        ∙ presented_front db (λ r. r.code_prefix) (λ r. r.code_hash) auth_code_scheme unauthorized
            first rest s.oauth.codes row x.code (rw (sym drawn) x.minted_code) size refl refl
