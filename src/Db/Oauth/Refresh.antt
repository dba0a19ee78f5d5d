-- ===== src/Db/Oauth/Refresh.antt =====
-- crates/db/src/oauth.rs, `refresh_oauth_token`: the `refresh_token` grant, with rotation and the
-- detection of reuse.
pub mod Laws
use md_manager.Base.{
  ℕ, String, Bool, true, false, not, ◌&&◌, ◌||◌, Option, none, some, List, [], ◌∷◌, any, find,
  filter, leb, ◌==◌, nat_eq, bytes_eq, if◌then◌else◌,
}
use md_manager.Fault.{unauthorized, Result, ok, err}
use md_manager.Text.{Text}
use md_manager.Oauth.{refresh_token_scheme}
use md_manager.Db.{Db, Inputs}
use md_manager.Db.Lookup.{presented}
use md_manager.Db.Rows.{update_rows}
use md_manager.Db.Statements.{is_live}
use md_manager.Db.Tables.{Store}
use md_manager.Db.Tables.Oauth.{RefreshRow}
use md_manager.Db.Tx.{Tx, pure, query, write, commit, ◌>>=◌, ◌>>◌}
use md_manager.Db.Oauth.Tokens.{IssuedTokens, issue_token_pair_with_ids, family_revoked}

-- The refresh token that is presented, by prefix and hash.
unfoldable pub presented_refresh : Db → Text → List RefreshRow → Result RefreshRow
unfolding presented
presented_refresh db token rows =
    presented db (λ r. r.token_prefix) (λ r. r.token_hash) refresh_token_scheme unauthorized token
      rows

-- `revoked_at.is_some() || rotated_to.is_some()`
abbrev pub is_spent : RefreshRow → Bool
is_spent r = not (is_live r.revoked_at) || not (is_live r.rotated_to)

module _ (db : Db) (io : Inputs) where
  -- `WHERE id = $1 AND revoked_at IS NULL AND rotated_to IS NULL`
  abbrev pub rotatable : ℕ → RefreshRow → Bool
  rotatable refresh_id r = r.id == refresh_id && not (is_spent r)

  -- The old token is marked, refused where no row is affected.
  unfoldable pub mark_rotated : ℕ → ℕ → Tx (Unit {0})
  unfolding update_rows
  mark_rotated refresh_id new_id = write λ s.
      if not (any (rotatable refresh_id) s.oauth.refresh_tokens)
      then err unauthorized
      else ok (record s {
        oauth = record s.oauth {
          refresh_tokens =
              update_rows (rotatable refresh_id)
                (λ r. record r { revoked_at = some io.db_now; rotated_to = some new_id })
                s.oauth.refresh_tokens;
        };
      })

  -- A new pair for the grant of a usable token.
  unfoldable pub rotate : RefreshRow → ℕ → ℕ → Tx IssuedTokens
  rotate matched access_ttl refresh_ttl = do
    issued ←
        issue_token_pair_with_ids db io matched.client_id matched.user_id matched.org_id
          matched.scope matched.resource matched.all_orgs access_ttl refresh_ttl
    mark_rotated matched.id issued.1
    pure issued.0

  -- The store that is left, and the result: a token that is already spent is refused, and the
  -- revocation of its family is committed.
  unfoldable pub refresh_oauth_token : ℕ → Text → ℕ → ℕ → Store → Store × Result IssuedTokens
  unfolding presented_refresh family_revoked commit
  refresh_oauth_token client_id token access_ttl refresh_ttl s =
      elim (presented_refresh db token s.oauth.refresh_tokens) [
        | err e ↦ (s, err e)
        | ok matched ↦
            if not (matched.client_id == client_id)
            then (s, err unauthorized)
            else if is_spent matched
            then (
              family_revoked io matched.client_id matched.user_id matched.org_id s,
              err unauthorized,
            )
            else if leb matched.expires_at io.now_utc
            then (s, err unauthorized)
            else commit (rotate matched access_ttl refresh_ttl) s
      ]
