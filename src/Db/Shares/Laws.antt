-- ===== src/Db/Shares/Laws.antt =====
-- Who sees what through a link: only what its audience allows, only while it lives.
use md_manager.Base.{
  ℕ, ◌<◌, List, String, true, false, not, ◌&&◌, Option, none, some, ◌≡◌, ◌⊎◌, inl, inr, arith, find,
  ◌==◌, nat_eq, string_eq, bytes_eq, Bool-cases, Option-cases,
}
use mathlib.Core.List.{Mem}
use md_manager.Fault.{not_found, ok, err, Result-cases}
use md_manager.Text.{Text, lit}
use md_manager.Crypto.{token_prefix, hash_token, verify_token}
use md_manager.Db.Lookup.{matching}
use md_manager.Db.Lookup.Laws.{presented-eq-ok}
use md_manager.Db.Rows.Laws.{find-Mem, find-filter-Mem, any-Mem, find_holds}
use md_manager.Db.{Db, Inputs}
use md_manager.Db.Authentication.{member_role}
use md_manager.Db.Statements.{is_live, live_at_id}
use md_manager.Db.Tables.{Store, DocumentRow}
use md_manager.Db.Tables.Accounts.{ShareLinkRow, UserRow, RecipientRow}
use md_manager.Db.Shares.{Outside, SharedDocument, shared_document}
use md_manager.Db.Shares.Resolve.{
  resolve_share_link, presented_link, audience_gate, members_gate, emails_gate, has_lapsed,
  is_listed, share_scheme,
}

module _ (outside : Outside) (db : Db) (io : Inputs) where
  -- A signed-in viewer who is a member of the link's organization, or whose email is on its list.
  pub record IsMember (link : ShareLinkRow) (viewer : Option ℕ) (s : Store) : Type 0 where
    pub user_id : ℕ
    pub signed_in : viewer ≡ some user_id
    pub word : String
    pub membership : member_role link.org_id user_id s.members ≡ some word

  pub record IsRecipient (link : ShareLinkRow) (viewer : Option ℕ) (s : Store) : Type 0 where
    pub user_id : ℕ
    pub signed_in : viewer ≡ some user_id
    pub user : UserRow
    pub known : Mem user s.accounts.users × (user.id ≡ user_id)
    pub recipient : RecipientRow
    pub listed : Mem recipient s.accounts.recipients × (recipient.share_link_id ≡ link.id)
    pub same_email : outside.lower recipient.email ≡ outside.to_lowercase user.email

  -- The viewers that a link's audience allows.
  pub Admits : ShareLinkRow → Option ℕ → Store → Type 0
  Admits link viewer s =
      (link.audience ≡ "public")
      ⊎ ((link.audience ≡ "members") × IsMember link viewer s)
      ⊎ ((link.audience ≡ "emails") × IsRecipient link viewer s)

  members_gate_lem :
      (link : ShareLinkRow) (user_id : ℕ) (s : Store) {u : Unit {0}}
      → members_gate outside db io link user_id s ≡ ok u
      → (word : String) × (member_role link.org_id user_id s.members ≡ some word)
  unfolding members_gate
  members_gate_lem link user_id s h =
      elim (Option-cases (member_role link.org_id user_id s.members)) [
        | inl e ↦ absurd (ground arith)
        | inr (word, e) ↦ (word, e)
      ]

  emails_gate_lem :
      (link : ShareLinkRow) (user_id : ℕ) (s : Store) {u : Unit {0}}
      → emails_gate outside db io link user_id s ≡ ok u
      → (user : UserRow) × (find (λ u. u.id == user_id) s.accounts.users ≡ some user)
        × (is_listed outside db io link.id (outside.to_lowercase user.email) s.accounts.recipients
            ≡ true)
  unfolding emails_gate
  emails_gate_lem link user_id s h =
      elim (Option-cases (find (λ u. u.id == user_id) s.accounts.users)) [
        | inl e ↦ absurd (ground arith)
        | inr (user, e) ↦ (user, e, ground arith)
      ]

  audience_gate-Admits :
      (link : ShareLinkRow) (viewer : Option ℕ) (s : Store) {u : Unit {0}}
      → audience_gate outside db io link viewer s ≡ ok u
      → Admits link viewer s
  unfolding audience_gate Admits
  audience_gate-Admits link viewer s h = elim (Bool-cases (link.audience == "public")) [
    | inl p ↦ inl (ground arith)
    | inr np ↦ elim (Bool-cases (link.audience == "members")) [
      | inl m ↦ elim (Option-cases viewer) [
        | inl e ↦ absurd (ground arith)
        | inr (user_id, e) ↦
            let (word, w) = members_gate_lem link user_id s (ground arith) in
            inr (
              inl (
                ground arith,
                record { user_id = user_id; signed_in = e; word = word; membership = w },
              ))
      ]
      | inr nm ↦ elim (Bool-cases (link.audience == "emails")) [
        | inl m ↦ elim (Option-cases viewer) [
          | inl e ↦ absurd (ground arith)
          | inr (user_id, e) ↦
              let (user, k, l) = emails_gate_lem link user_id s (ground arith) in
              let known = find_holds (λ u. u.id == user_id) s.accounts.users user k in
              let (r, m, holds) = any-Mem _ s.accounts.recipients l in
              inr (
                inr (
                  ground arith,
                  record {
                    user_id = user_id;
                    signed_in = e;
                    user = user;
                    known = (find-Mem _ s.accounts.users user k, ground arith);
                    recipient = r;
                    listed = (m, ground arith);
                    same_email = ground arith;
                  },
                ))
        ]
        | inr ne ↦ absurd (ground arith)
      ]
    ]
  ]

  -- What backs a shown document: a link of the table that has the token's prefix and the hash of
  -- the token, is not revoked, ends later or never, and has an audience that allows the viewer, and
  -- a document of the link's organization that is not deleted, which is what is shown.
  pub record IsShown (token : Text) (viewer : Option ℕ) (s : Store) (shown : SharedDocument)
      : Type 0 where
    pub link : ShareLinkRow
    pub listed : Mem link s.accounts.share_links
    pub same_prefix : token_prefix (lit "sl") token ≡ ok (some link.token_prefix)
    pub same_hash : link.token_hash ≡ hash_token db.hashes db.pepper token
    pub not_revoked : link.revoked_at ≡ none
    pub not_lapsed : (end : ℕ) → link.expires_at ≡ some end → io.now_utc < end
    pub admitted : Admits link viewer s
    pub document : DocumentRow
    pub found : Mem document s.documents
    pub of_link : (document.id ≡ link.document_id) × (document.org_id ≡ link.org_id)
    pub not_deleted : document.deleted_at ≡ none
    pub same : shown ≡ shared_document document

  link_lem :
      (token : Text) (rows : List ShareLinkRow) (link : ShareLinkRow)
      → presented_link db token rows ≡ ok link
      → Mem link rows
        × (token_prefix (lit "sl") token ≡ ok (some link.token_prefix))
        × (link.token_hash ≡ hash_token db.hashes db.pepper token)
  unfolding presented_link matching verify_token
  link_lem token rows link h =
      let (p, m, v) =
        presented-eq-ok db (λ l. l.token_prefix) (λ l. l.token_hash) share_scheme not_found token
          rows link h in
      (find-filter-Mem _ _ rows link m, p, ground arith)

  -- A token shows a document only while its link lives and only to the viewers that it allows.
  pub resolve_share_link-IsShown :
      (token : Text) (viewer : Option ℕ) (s : Store) (shown : SharedDocument)
      → resolve_share_link outside db io token viewer s ≡ ok shown
      → IsShown token viewer s shown
  unfolding resolve_share_link
  resolve_share_link-IsShown token viewer s shown h =
      elim (Result-cases (presented_link db token s.accounts.share_links)) [
        | inr (x, e) ↦ absurd (ground arith)
        | inl (link, e) ↦
            elim (Bool-cases
              (is_live link.revoked_at && not (has_lapsed outside db io link.expires_at))) [
                | inr dead ↦ absurd (ground arith)
                | inl lives ↦ elim (Result-cases (audience_gate outside db io link viewer s)) [
                  | inr (x, e2) ↦ absurd (ground arith)
                  | inl (u, e2) ↦
                      elim (Option-cases
                        (find (live_at_id link.org_id link.document_id) s.documents)) [
                          | inl e3 ↦ absurd (ground arith)
                          | inr (d, e3) ↦
                              let (m, p, q) = link_lem token s.accounts.share_links link e in
                              let holds = find_holds _ s.documents d e3 in
                              record {
                                link = link;
                                listed = m;
                                same_prefix = p;
                                same_hash = q;
                                not_revoked = ground arith;
                                not_lapsed = λ end ends. ground arith;
                                admitted = audience_gate-Admits link viewer s e2;
                                document = d;
                                found = find-Mem _ s.documents d e3;
                                of_link = (ground arith, ground arith);
                                not_deleted = ground arith;
                                same = ground arith;
                              }
                        ]
                ]
              ]
      ]

  -- A link that is revoked shows nothing.
  pub revoked_link :
      (token : Text) (viewer : Option ℕ) (s : Store) (link : ShareLinkRow)
      → presented_link db token s.accounts.share_links ≡ ok link
      → is_live link.revoked_at ≡ false
      → resolve_share_link outside db io token viewer s ≡ err not_found
  unfolding resolve_share_link
  revoked_link token viewer s link h dead = ground arith

  -- A link that lives and admits the viewer shows its document.
  pub open_link :
      (token : Text) (viewer : Option ℕ) (s : Store) (link : ShareLinkRow) (doc : DocumentRow)
      → presented_link db token s.accounts.share_links ≡ ok link
      → link.revoked_at ≡ none
      → has_lapsed outside db io link.expires_at ≡ false
      → audience_gate outside db io link viewer s ≡ ok tt
      → find (live_at_id link.org_id link.document_id) s.documents ≡ some doc
      → resolve_share_link outside db io token viewer s ≡ ok (shared_document doc)
  unfolding resolve_share_link
  open_link token viewer s link doc h1 h2 h3 h4 h5 = ground arith
