-- ===== src/Db/Oauth/Reuse.antt =====
-- The detection of a stolen refresh token.
use md_manager.Base.{
  ℕ, Bool, true, false, some, List, ◌∷◌, ◌++◌, ◌≡◌, refl, ap, ◌∙◌, arith, nat_eq, bytes_eq,
  if◌then◌else◌, Bool-cases, inl, inr, subst,
}
use md_manager.Fault.{unauthorized, ok, err}
use md_manager.Text.{Text, len}
use md_manager.Crypto.{verify_token, hash_token}
use md_manager.Oauth.{refresh_token_scheme}
use md_manager.Db.{Db, Inputs}
use md_manager.Db.Lookup.Laws.{presented-update_rows, presented_skip}
use md_manager.Db.Rows.{update_rows}
use md_manager.Db.Tables.{Store}
use md_manager.Db.Tables.Oauth.{RefreshRow}
use md_manager.Db.Oauth.Tokens.{IssuedTokens, refresh_row, access_row, family_revoked}
use md_manager.Db.Oauth.Refresh.{presented_refresh, refresh_oauth_token, rotatable}
use md_manager.Db.Oauth.Refresh.Laws.{IsRotated, refresh_oauth_token-IsRotated, spent_refresh}
use md_manager.Db.Oauth.Access.{presented_access, authenticate_oauth_access_token}
use md_manager.Db.Oauth.Issued.{
  issued_access, issued_refresh, family_revoked-access, family_revoked-refresh,
}

presented_refresh_marked :
    (db : Db) (p : RefreshRow → Bool) (now new_id : ℕ) (token : Text) (rows : List RefreshRow)
    (r : RefreshRow)
    → presented_refresh db token rows ≡ ok r
    → presented_refresh db token
        (update_rows p (λ r. record r { revoked_at = some now; rotated_to = some new_id }) rows)
      ≡ ok (if p r then record r { revoked_at = some now; rotated_to = some new_id } else r)
unfolding presented_refresh
presented_refresh_marked db p now new_id token rows r h =
    presented-update_rows db (λ r. r.token_prefix) (λ r. r.token_hash) p _ (λ r. refl) (λ r. refl)
      refresh_token_scheme unauthorized token rows r h

module _ (db : Db) (io : Inputs) (client_id : ℕ) (token : Text) (access_ttl refresh_ttl : ℕ)
    (s t : Store) (issued : IssuedTokens)
    (x : IsRotated db io client_id token access_ttl refresh_ttl issued s t) where
  -- The presented token is still found, and marked, unless the new one has its hash.
  rotated_old :
      verify_token db.hashes db.pepper token (hash_token db.hashes db.pepper issued.refresh_token)
        ≡ false
      → presented_refresh db token t.oauth.refresh_tokens
        ≡ ok (record x.row { revoked_at = some io.db_now; rotated_to = some x.new_id })
  unfolding presented_refresh refresh_row
  rotated_old differs =
      let p = x.pair in
      let row =
        refresh_row db io x.row.client_id x.row.user_id x.row.org_id x.row.scope x.row.resource
          x.row.all_orgs refresh_ttl p.refresh in
      let other : verify_token db.hashes db.pepper token row.token_hash ≡ false =
        subst
          (λ i.
            verify_token db.hashes db.pepper token (hash_token db.hashes db.pepper i.refresh_token)
            ≡ false)
          p.tokens differs in
      let skipped =
        presented_skip db (λ r. r.token_prefix) (λ r. r.token_hash) refresh_token_scheme
          unauthorized token s.oauth.refresh_tokens row x.row other x.listed in
      let marked =
        presented_refresh_marked db (rotatable db io x.row.id) io.db_now x.new_id token
          (row ∷ s.oauth.refresh_tokens) x.row skipped in
      let usable : rotatable db io x.row.id x.row ≡ true = (let u = x.unspent in ground arith) in
      ap (λ u. presented_refresh db token u.oauth.refresh_tokens) x.marked
      ∙ ap
          (λ u. presented_refresh db token (
            update_rows (rotatable db io x.row.id)
              (λ r. record r { revoked_at = some io.db_now; rotated_to = some x.new_id })
              u.oauth.refresh_tokens))
          p.after
      ∙ marked
      ∙ rw usable refl

  -- The pair is refused once its family is revoked.
  module _ (io' io'' : Inputs) where
    rotated_access :
        (first rest resource : Text)
        → io.random_hex 0 ≡ first ++ rest
        → len first ≡ 8
        → (authenticate_oauth_access_token db io'' issued.access_token resource
            (family_revoked io' x.row.client_id x.row.user_id x.row.org_id t)).1
          ≡ err unauthorized
    unfolding access_row
    rotated_access first rest resource drawn size =
        family_revoked-access db io' io'' x.row.client_id x.row.user_id x.row.org_id
          issued.access_token t resource
          (access_row db io x.row.client_id x.row.user_id x.row.org_id x.row.scope x.row.resource
            x.row.all_orgs access_ttl x.pair.access)
          (ap (λ u. presented_access db issued.access_token u.oauth.access_tokens) x.marked
            ∙ issued_access db io x.row.client_id x.row.user_id x.row.org_id x.row.scope
                x.row.resource x.row.all_orgs access_ttl refresh_ttl issued s x.between x.pair first
                rest size drawn)
          refl refl refl

    rotated_refresh :
        (first rest : Text) (a r : ℕ)
        → io.random_hex 1 ≡ first ++ rest
        → len first ≡ 8
        → (refresh_oauth_token db io'' x.row.client_id issued.refresh_token a r
            (family_revoked io' x.row.client_id x.row.user_id x.row.org_id t)).1
          ≡ err unauthorized
    unfolding refresh_row
    rotated_refresh first rest a r drawn size =
        let row =
          refresh_row db io x.row.client_id x.row.user_id x.row.org_id x.row.scope x.row.resource
            x.row.all_orgs refresh_ttl x.pair.refresh in
        let found =
          ap (λ u. presented_refresh db issued.refresh_token u.oauth.refresh_tokens) x.marked
          ∙ presented_refresh_marked db (rotatable db io x.row.id) io.db_now x.new_id
              issued.refresh_token x.between.oauth.refresh_tokens row
              (issued_refresh db io x.row.client_id x.row.user_id x.row.org_id x.row.scope
                x.row.resource x.row.all_orgs access_ttl refresh_ttl issued s x.between x.pair first
                rest size drawn) in
        elim (Bool-cases (rotatable db io x.row.id row)) [
          | inl marks ↦
              family_revoked-refresh db io' io'' x.row.client_id x.row.user_id x.row.org_id
                issued.refresh_token t a r
                (record row { revoked_at = some io.db_now; rotated_to = some x.new_id })
                (found ∙ rw marks refl) refl refl refl
          | inr leaves ↦
              family_revoked-refresh db io' io'' x.row.client_id x.row.user_id x.row.org_id
                issued.refresh_token t a r row (found ∙ rw leaves refl) refl refl refl
        ]

-- Reuse: once a refresh token has been rotated, presenting it again is refused as unauthorized,
-- and after that the pair which the rotation issued is refused too, by whatever clock: the access
-- token at the resource server and the refresh token at the token endpoint. The new tokens were
-- drawn with at least eight digits, and the new refresh token has another hash than the old one.
pub refresh_oauth_token-unauthorized :
    (db : Db) (io io' io'' : Inputs) (client_id : ℕ) (token first rest first' rest' resource : Text)
    (a0 r0 a1 r1 a2 r2 : ℕ) (s t : Store) (issued : IssuedTokens)
    → refresh_oauth_token db io client_id token a0 r0 s ≡ (t, ok issued)
    → io.random_hex 0 ≡ first ++ rest
    → len first ≡ 8
    → io.random_hex 1 ≡ first' ++ rest'
    → len first' ≡ 8
    → verify_token db.hashes db.pepper token (hash_token db.hashes db.pepper issued.refresh_token)
      ≡ false
    → let again = refresh_oauth_token db io' client_id token a1 r1 t in
      (again.1 ≡ err unauthorized)
      × ((authenticate_oauth_access_token db io'' issued.access_token resource again.0).1
          ≡ err unauthorized)
      × ((refresh_oauth_token db io'' client_id issued.refresh_token a2 r2 again.0).1
          ≡ err unauthorized)
refresh_oauth_token-unauthorized db io io' io'' client_id token first rest first' rest' resource a0
      r0 a1 r1 a2 r2 s t issued h drawn size drawn' size' differs =
    let x = refresh_oauth_token-IsRotated db io client_id token a0 r0 s t issued h in
    let old = rotated_old db io client_id token a0 r0 s t issued x differs in
    let again = spent_refresh db io' client_id token a1 r1 t _ old refl x.client in
    (
      ap (λ y. y.1) again,
      ap (λ y. (authenticate_oauth_access_token db io'' issued.access_token resource y.0).1) again
          ∙ rotated_access db io client_id token a0 r0 s t issued x io' io'' first rest resource
              drawn size,
      ap (λ y. (refresh_oauth_token db io'' client_id issued.refresh_token a2 r2 y.0).1) again
          ∙ subst
              (λ c.
                (refresh_oauth_token db io'' c issued.refresh_token a2 r2
                  (family_revoked io' x.row.client_id x.row.user_id x.row.org_id t)).1
                ≡ err unauthorized)
              x.client
              (rotated_refresh db io client_id token a0 r0 s t issued x io' io'' first' rest' a2 r2
                drawn' size'),
    )
