-- ===== src/Db/Shares.antt =====
-- crates/db/src/share.rs: read-only links to documents, and who may open them. The two functions
-- that lower the case of an email address, Rust's and PostgreSQL's, and the range of the times are
-- parameters.
pub mod Resolve
pub mod Laws
pub mod Links
use md_manager.Base.{
  ℕ, ◌+◌, ◌*◌, String, Bool, true, false, not, ◌&&◌, ◌||◌, Option, none, some, List, [], ◌∷◌, map,
  filter, find, any, leb, ltb, ◌==◌, nat_eq, bytes_eq, string_eq, if◌then◌else◌,
}
use md_manager.Fault.{
  forbidden, not_found, unauthorized, invalid, already_exists, panic, Result, ok, err, ok_or, guard,
}
use md_manager.Text.{Text, lit, trim, contains_char}
use md_manager.Crypto.{hash_token, generate_share_token, GeneratedKey}
use md_manager.Model.{Role, AuthContext}
use md_manager.Db.{Db, Inputs, seconds}
use md_manager.Db.Access.{in_org, authorize_doc}
use md_manager.Db.Authentication.{member_role}
use md_manager.Db.Rows.{update_rows, insert_row}
use md_manager.Db.Statements.{is_live, at_id, live_at_id, audit}
use md_manager.Db.Tables.{Store, DocumentRow, Scalar, uuid, word}
use md_manager.Db.Tables.Accounts.{ShareLinkRow, RecipientRow, UserRow}
use md_manager.Db.Tx.{Tx, pure, query, write, lift, ◌>>=◌, ◌>>◌}
use md_manager.Db.Versions.{find_live}

-- `str::to_lowercase`, the database's `lower`, and whether a time (crate time) can be a number of days
-- later, which is a panic where it cannot.
pub record Outside : Type 0 where
  pub to_lowercase : Text → Text
  pub lower : Text → Text
  pub fits : ℕ → ℕ → Bool

pub record ShareLinkInfo : Type 0 where
  pub id : ℕ
  pub document_id : ℕ
  pub token_prefix : Text
  pub audience : String
  pub created_at : ℕ
  pub expires_at : Option ℕ
  pub revoked_at : Option ℕ

pub record ShareLinkCreated : Type 0 where
  pub info : ShareLinkInfo
  pub token : Text

pub record SharedDocument : Type 0 where
  pub document_id : ℕ
  pub path : Text
  pub title : Text
  pub content : Text
  pub updated_at : ℕ

unfoldable pub share_link_info : ShareLinkRow → ShareLinkInfo
share_link_info r = record {
  id = r.id;
  document_id = r.document_id;
  token_prefix = r.token_prefix;
  audience = r.audience;
  created_at = r.created_at;
  expires_at = r.expires_at;
  revoked_at = r.revoked_at;
}

unfoldable pub shared_document : DocumentRow → SharedDocument
shared_document d = record {
  document_id = d.id;
  path = d.path;
  title = d.title;
  content = d.content;
  updated_at = d.updated_at;
}

module _ (outside : Outside) where
  -- The allow-list of a link for emails.
  unfoldable pub normalized : List Text → List Text
  unfolding trim contains_char
  normalized recipients =
      filter (λ e. contains_char e b'@') (map (λ r. outside.to_lowercase (trim r)) recipients)

  abbrev nonempty : List Text → Result (List Text)
  nonempty [] = err (invalid "add at least one recipient email")
  nonempty (e ∷ rest) = ok (e ∷ rest)

  unfoldable pub recipient_emails : String → List Text → Result (List Text)
  unfolding normalized
  recipient_emails audience recipients =
      if audience == "emails" then nonempty (normalized recipients) else ok []

  -- `INSERT … ON CONFLICT DO NOTHING`, for each address.
  unfoldable pub add_recipients : ℕ → List Text → List RecipientRow → List RecipientRow
  add_recipients link_id [] rows = rows
  add_recipients link_id (e ∷ rest) rows = add_recipients link_id rest (
      if any (λ r. r.share_link_id == link_id && r.email == e) rows
      then rows
      else record { share_link_id = link_id; email = e } ∷ rows)

  module _ (db : Db) (io : Inputs) (ctx : AuthContext) where
    -- The end of the link's life; a number of days that is not positive counts as none.
    unfoldable pub link_expiry : Option ℕ → Option ℕ
    link_expiry none = none
    link_expiry (some days) =
        if ltb 0 days then some (io.now_utc + seconds (days * 86400)) else none

    -- `OffsetDateTime::now_utc() + Duration::days(d)`, as far as it can fail.
    unfoldable pub check_expiry : Option ℕ → Result (Unit {0})
    check_expiry none = ok tt
    check_expiry (some days) = guard (not (ltb 0 days) || outside.fits io.now_utc days) panic

    -- The row that `create_share_link` inserts.
    unfoldable pub link_row : ℕ → String → Option ℕ → GeneratedKey → ShareLinkRow
    unfolding link_expiry
    link_row doc_id audience expires_in_days token = record {
      id = io.new_id 0;
      org_id = ctx.org_id;
      document_id = doc_id;
      token_prefix = token.prefix;
      token_hash = hash_token db.hashes db.pepper token.secret;
      audience = audience;
      created_by = ctx.user_id;
      created_at = io.db_now;
      expires_at = link_expiry expires_in_days;
      revoked_at = none;
    }

    unfoldable pub insert_link : ShareLinkRow → Tx (Unit {0})
    insert_link row = write λ s.
        elim (insert_row "share_links_pkey" (λ l. l.id == row.id) row s.accounts.share_links) [
          | ok rows ↦ ok (record s { accounts = record s.accounts { share_links = rows } })
          | err e ↦ err e
        ]

    unfoldable pub insert_recipients : ℕ → List Text → Tx (Unit {0})
    insert_recipients link_id emails = write λ s. ok (record s {
      accounts = record s.accounts {
        recipients = add_recipients link_id emails s.accounts.recipients;
      };
    })

    unfoldable pub create_share_link : ℕ → String → List Text → Option ℕ → Tx ShareLinkCreated
    create_share_link doc_id audience recipients expires_in_days = do
      lift (
          guard (audience == "public" || audience == "members" || audience == "emails")
            (invalid "audience must be public, members, or emails"))
      emails ← lift (recipient_emails audience recipients)
      doc ← find_live db io ctx doc_id
      authorize_doc ctx doc_id doc.project_id Role.editor
      token ← lift (generate_share_token (io.random_hex 0))
      lift (check_expiry expires_in_days)
      let row = link_row doc_id audience expires_in_days token
      insert_link row
      insert_recipients row.id emails
      audit io ctx (io.new_id 1) "share.create" (some (uuid row.id))
          (("document_id", uuid doc_id) ∷ ("audience", word audience) ∷ [])
      pure (record { info = share_link_info row; token = token.secret })

    -- `WHERE id = $1 AND org_id = $2`
    abbrev pub own_link : ℕ → ShareLinkRow → Bool
    own_link link_id l = l.id == link_id && l.org_id == ctx.org_id

    -- `UPDATE share_links SET revoked_at = now() …`, refused where no row is affected.
    unfoldable pub mark_link_revoked : ℕ → Tx (Unit {0})
    unfolding update_rows
    mark_link_revoked link_id = write λ s.
        if not (any (λ l. own_link link_id l && is_live l.revoked_at) s.accounts.share_links)
        then err not_found
        else ok (record s {
          accounts = record s.accounts {
            share_links =
                update_rows (λ l. own_link link_id l && is_live l.revoked_at)
                  (λ l. record l { revoked_at = some io.db_now }) s.accounts.share_links;
          };
        })

    unfoldable pub revoke_share_link : ℕ → Tx (Unit {0})
    revoke_share_link link_id = do
      link ← query (λ s. ok_or (find (own_link link_id) s.accounts.share_links) not_found)
      doc ← query (λ s. ok_or (find (at_id ctx.org_id link.document_id) s.documents) not_found)
      authorize_doc ctx link.document_id doc.project_id Role.editor
      mark_link_revoked link_id
      audit io ctx (io.new_id 0) "share.revoke" (some (uuid link_id)) []
