-- ===== src/Db/Shares/Links.antt =====
-- The life of a link: it shows its document once it is minted, and nothing once it is revoked.
use md_manager.Base.{
  ℕ, String, false, ◌&&◌, Option, some, List, ◌∷◌, ◌++◌, ◌≡◌, refl, sym, ap, ◌∙◌, arith, find, any,
  nat_eq, string_eq, bytes_eq,
}
use md_manager.Fault.{not_found, ok, err}
use md_manager.Text.{Text, len}
use md_manager.Crypto.{GeneratedKey, generate_share_token}
use md_manager.Model.{AuthContext, Role}
use md_manager.Db.{Db, Inputs}
use md_manager.Db.Access.{authorize_doc, may_doc}
use md_manager.Db.Lookup.{matching}
use md_manager.Db.Lookup.Laws.{presented_front, presented-eq-ok}
use md_manager.Db.Rows.Laws.{any-update_rows, find-filter-any}
use md_manager.Db.Statements.{is_live, live_at_id}
use md_manager.Db.Statements.Laws.{write-eq-ok, put-eq-ok, insert_row_lem, audit_lem}
use md_manager.Db.Tables.{Store, DocumentRow}
use md_manager.Db.Tables.Accounts.{ShareLinkRow}
use md_manager.Db.Tx.{bind_elim, query-eq-ok, pure-eq-ok}
use md_manager.Db.Versions.{find_live}
use md_manager.Db.Shares.{
  Outside, ShareLinkCreated, shared_document, create_share_link, revoke_share_link,
  mark_link_revoked, insert_link, insert_recipients, link_row, link_expiry, own_link,
}
use md_manager.Db.Shares.Laws.{revoked_link, open_link}
use md_manager.Db.Shares.Resolve.{
  resolve_share_link, presented_link, audience_gate, has_lapsed, share_scheme,
}

module _ (outside : Outside) (db : Db) (io : Inputs) (ctx : AuthContext) where
  mark_link_revoked_lem :
      (link_id : ℕ) (s t : Store) {u : Unit {0}}
      → mark_link_revoked outside db io ctx link_id s ≡ ok (u, t)
      → any
          (λ l. own_link outside db io ctx link_id l && is_live l.revoked_at)
          t.accounts.share_links
        ≡ false
  unfolding mark_link_revoked
  mark_link_revoked_lem link_id s t h =
      let w = write-eq-ok _ s h in
      let gone =
        any-update_rows (λ l. own_link outside db io ctx link_id l && is_live l.revoked_at)
          (λ l. own_link outside db io ctx link_id l && is_live l.revoked_at)
          (λ l. record l { revoked_at = some io.db_now }) s.accounts.share_links
          (λ l. ground arith) in
      ground arith

  -- Once a link is revoked its token shows nothing, to whatever viewer and at whatever time.
  pub revoke_share_link-not_found :
      (io' : Inputs) (link_id : ℕ) (token : Text) (viewer : Option ℕ) (s t : Store)
      (link : ShareLinkRow)
      → revoke_share_link outside db io ctx link_id s ≡ ok (tt, t)
      → presented_link db token t.accounts.share_links ≡ ok link
      → link.id ≡ link_id
      → link.org_id ≡ ctx.org_id
      → resolve_share_link outside db io' token viewer t ≡ err not_found
  unfolding revoke_share_link presented_link matching
  revoke_share_link-not_found io' link_id token viewer s t link h listed same_id same_org =
      bind_elim _ _ _ h λ _ s1 e1 h1. bind_elim _ _ _ h1 λ _ s2 e2 h2.
        bind_elim _ _ _ h2 λ _ s3 e3 h3. bind_elim _ _ _ h3 λ _ s4 e4 h4.
          let gone = mark_link_revoked_lem link_id s3 s4 e4 in
          let p = audit_lem ctx s4 io (io.new_id 0) _ _ _ h4 in
          let (_, found, _) =
            presented-eq-ok db (λ l. l.token_prefix) (λ l. l.token_hash) share_scheme not_found
              token t.accounts.share_links link listed in
          let dead =
            find-filter-any _ _ (λ l. own_link outside db io ctx link_id l && is_live l.revoked_at)
              t.accounts.share_links link
              (ap
                  (λ x.
                    any (λ l. own_link outside db io ctx link_id l && is_live l.revoked_at)
                      x.accounts.share_links)
                  p
                ∙ gone)
              found in
          revoked_link outside db io' token viewer t link listed (ground arith)

  -- A link was minted: its document is live and the caller may edit it, and its row stands in
  -- front of the table, with nothing else of the documents changed.
  pub record IsMinted (doc_id : ℕ) (audience : String) (days : Option ℕ)
      (created : ShareLinkCreated) (s t : Store) : Type 0 where
    pub document : DocumentRow
    pub found : find (live_at_id ctx.org_id doc_id) s.documents ≡ some document
    pub editor : may_doc ctx doc_id document.project_id Role.editor s ≡ ok tt
    pub token : GeneratedKey
    pub minted : generate_share_token (io.random_hex 0) ≡ ok token
    pub secret : created.token ≡ token.secret
    pub documents : t.documents ≡ s.documents
    pub links :
        t.accounts.share_links
        ≡ link_row outside db io ctx doc_id audience days token ∷ s.accounts.share_links

  insert_link_lem :
      (row : ShareLinkRow) (s : Store) {t : Store} {u : Unit {0}}
      → insert_link outside db io ctx row s ≡ ok (u, t)
      → t ≡ record s { accounts = record s.accounts { share_links = row ∷ s.accounts.share_links } }
  unfolding insert_link
  insert_link_lem row s h =
      let (rows, e, p) = put-eq-ok _ _ (write-eq-ok _ s h) in
      let (_, q) = insert_row_lem _ _ _ s.accounts.share_links e in
      p ∙ ap (λ x. record s { accounts = record s.accounts { share_links = x } }) q

  insert_recipients_lem :
      (link_id : ℕ) (emails : List Text) (s : Store) {t : Store} {u : Unit {0}}
      → insert_recipients outside db io ctx link_id emails s ≡ ok (u, t)
      → (t.documents ≡ s.documents) × (t.accounts.share_links ≡ s.accounts.share_links)
  unfolding insert_recipients
  insert_recipients_lem link_id emails s h =
      let w = write-eq-ok _ s h in (ground arith, ground arith)

  pub create_share_link-IsMinted :
      (doc_id : ℕ) (audience : String) (recipients : List Text) (days : Option ℕ) (s t : Store)
      (created : ShareLinkCreated)
      → create_share_link outside db io ctx doc_id audience recipients days s ≡ ok (created, t)
      → IsMinted doc_id audience days created s t
  unfolding create_share_link find_live authorize_doc
  create_share_link-IsMinted doc_id audience recipients days s t created h =
      bind_elim _ _ _ h λ _ s1 e1 h1. bind_elim _ _ _ h1 λ emails s2 e2 h2.
        bind_elim _ _ _ h2 λ doc s3 e3 h3. bind_elim _ _ _ h3 λ _ s4 e4 h4.
          bind_elim _ _ _ h4 λ token s5' e5 h5'. bind_elim _ _ _ h5' λ _ s5 e5' h5.
            bind_elim _ _ _ h5 λ _ s6 e6 h6. bind_elim _ _ _ h6 λ _ s7 e7 h7.
              bind_elim _ _ _ h7 λ _ s8 e8 h8.
                let (_, p1) = query-eq-ok _ s e1 in
                let (_, p2) = query-eq-ok _ s1 e2 in
                let (q3, p3) = query-eq-ok _ s2 e3 in
                let (q4, p4) = query-eq-ok _ s3 e4 in
                let (q5, p5'') = query-eq-ok _ s4 e5 in
                let (_, p5') = query-eq-ok _ s5' e5' in
                let p5 : s5 ≡ s4 = p5' ∙ p5'' in
                let p6 = insert_link_lem _ s5 e6 in
                let (p7, p7') = insert_recipients_lem _ emails s6 e7 in
                let p8 = audit_lem ctx s7 io _ _ _ _ e8 in
                let (p9, p10) = pure-eq-ok _ _ s8 t h8 in
                let back2 : s2 ≡ s = p2 ∙ p1 in
                let back3 : s3 ≡ s = p3 ∙ back2 in
                let back5 : s5 ≡ s = p5 ∙ p4 ∙ back3 in
                let row = link_row outside db io ctx doc_id audience days token in
                record {
                  document = doc;
                  found =
                      ap (λ x. find (live_at_id ctx.org_id doc_id) x.documents) (sym back2)
                      ∙ ground arith;
                  editor =
                      ap (may_doc ctx doc_id doc.project_id Role.editor) (sym back3) ∙ ground arith;
                  token = token;
                  minted = q5;
                  secret = ap (λ x. x.token) (sym p9);
                  documents =
                      ap (λ x. x.documents) (p10 ∙ p8)
                      ∙ p7
                      ∙ ap (λ x. x.documents) p6
                      ∙ ap (λ x. x.documents) back5;
                  links =
                      ap (λ x. x.accounts.share_links) (p10 ∙ p8)
                      ∙ p7'
                      ∙ ap (λ x. x.accounts.share_links) p6
                      ∙ ap (λ x. row ∷ x.accounts.share_links) back5;
                }

  -- A public link that was just minted shows its document to every viewer, signed in or not, with
  -- the content that the store has, until it expires. The random digits are at least eight.
  pub create_share_link-resolve :
      (io' : Inputs) (doc_id : ℕ) (recipients : List Text) (days viewer : Option ℕ)
      (first rest : Text) (s t : Store) (created : ShareLinkCreated) (doc : DocumentRow)
      → create_share_link outside db io ctx doc_id "public" recipients days s ≡ ok (created, t)
      → find (live_at_id ctx.org_id doc_id) s.documents ≡ some doc
      → io.random_hex 0 ≡ first ++ rest
      → len first ≡ 8
      → has_lapsed outside db io' (link_expiry outside db io ctx days) ≡ false
      → resolve_share_link outside db io' created.token viewer t ≡ ok (shared_document doc)
  unfolding link_row presented_link audience_gate string_eq generate_share_token
  create_share_link-resolve io' doc_id recipients days viewer first rest s t created doc h found
        drawn size fresh =
      let x = create_share_link-IsMinted doc_id "public" recipients days s t created h in
      let row = link_row outside db io ctx doc_id "public" days x.token in
      let listed : presented_link db created.token t.accounts.share_links ≡ ok row =
        ap (λ k. presented_link db k t.accounts.share_links) x.secret
        ∙ ap (presented_link db x.token.secret) x.links
        ∙ presented_front db (λ l. l.token_prefix) (λ l. l.token_hash) share_scheme not_found first
            rest s.accounts.share_links row x.token (rw (sym drawn) x.minted) size refl refl in
      let shown : find (live_at_id ctx.org_id doc_id) t.documents ≡ some doc =
        ap (find (live_at_id ctx.org_id doc_id)) x.documents ∙ found in
      open_link outside db io' created.token viewer t row doc listed refl fresh refl shown
