-- ===== src/Db/Shares/Resolve.antt =====
-- crates/db/src/share.rs, `resolve_share_link`: the document behind a presented token, for a
-- signed-in viewer or none.
use md_manager.Base.{
  ℕ, Bool, false, not, ◌&&◌, Option, none, some, List, find, any, leb, ◌==◌, nat_eq, bytes_eq,
  string_eq, if◌then◌else◌,
}
use md_manager.Fault.{
  forbidden, not_found, unauthorized, Result, ok, err, ok_or, guard, ◌>>=◌, ◌>>◌,
}
use md_manager.Text.{Text, lit}
use md_manager.Db.{Db, Inputs}
use md_manager.Db.Authentication.{member_role}
use md_manager.Db.Lookup.{presented}
use md_manager.Db.Shares.{Outside, SharedDocument, shared_document}
use md_manager.Db.Statements.{is_live, live_at_id}
use md_manager.Db.Tables.{Store}
use md_manager.Db.Tables.Accounts.{ShareLinkRow, RecipientRow}

abbrev pub share_scheme : Text
share_scheme = lit "sl"

-- The link that is presented, by prefix and hash.
unfoldable pub presented_link : Db → Text → List ShareLinkRow → Result ShareLinkRow
unfolding presented
presented_link db token rows =
    presented db (λ l. l.token_prefix) (λ l. l.token_hash) share_scheme not_found token rows

module _ (outside : Outside) (db : Db) (io : Inputs) where
  abbrev pub has_lapsed : Option ℕ → Bool
  has_lapsed none = false
  has_lapsed (some exp) = leb exp io.now_utc

  -- The gate of a link for members of its organization.
  unfoldable pub members_gate : ShareLinkRow → ℕ → Store → Result (Unit {0})
  unfolding member_role
  members_gate link user_id s = elim (member_role link.org_id user_id s.members) [
    | none ↦ err forbidden
    | some role ↦ ok tt
  ]

  abbrev pub is_listed : ℕ → Text → List RecipientRow → Bool
  is_listed link_id email = any (λ r. r.share_link_id == link_id && outside.lower r.email == email)

  -- The gate of a link for the addresses on its list.
  unfoldable pub emails_gate : ShareLinkRow → ℕ → Store → Result (Unit {0})
  emails_gate link user_id s = do
    user ← ok_or (find (λ u. u.id == user_id) s.accounts.users) unauthorized
    guard (is_listed link.id (outside.to_lowercase user.email) s.accounts.recipients) forbidden

  unfoldable pub audience_gate : ShareLinkRow → Option ℕ → Store → Result (Unit {0})
  unfolding members_gate emails_gate
  audience_gate link viewer s =
      if link.audience == "public"
      then ok tt
      else if link.audience == "members"
      then (do user_id ← ok_or viewer unauthorized; members_gate link user_id s)
      else if link.audience == "emails"
      then (do user_id ← ok_or viewer unauthorized; emails_gate link user_id s)
      else err not_found

  unfoldable pub resolve_share_link : Text → Option ℕ → Store → Result SharedDocument
  unfolding presented_link audience_gate shared_document
  resolve_share_link token viewer s = do
    link ← presented_link db token s.accounts.share_links
    guard (is_live link.revoked_at && not (has_lapsed link.expires_at)) not_found
    audience_gate link viewer s
    doc ← ok_or (find (live_at_id link.org_id link.document_id) s.documents) not_found
    ok (shared_document doc)
