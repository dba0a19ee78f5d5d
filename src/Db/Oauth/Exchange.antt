-- ===== src/Db/Oauth/Exchange.antt =====
-- crates/db/src/oauth.rs, `exchange_auth_code`: the `authorization_code` grant.
pub mod Laws
use md_manager.Base.{
  ℕ, String, Bool, true, false, not, ◌&&◌, ◌||◌, Option, none, some, List, [], ◌∷◌, any, find,
  filter, ◌==◌, nat_eq, bytes_eq, if◌then◌else◌,
}
use md_manager.Fault.{unauthorized, Result, ok, err, guard}
use md_manager.Text.{Text, lit}
use md_manager.Oauth.{auth_code_scheme, verify_pkce_s256}
use md_manager.Db.{Db, Inputs}
use md_manager.Db.Lookup.{presented}
use md_manager.Db.Rows.{update_rows}
use md_manager.Db.Tables.{Store}
use md_manager.Db.Tables.Oauth.{CodeRow}
use md_manager.Db.Tx.{Tx, pure, query, write, lift, ◌>>=◌, ◌>>◌}
use md_manager.Db.Oauth.Requests.{is_usable}
use md_manager.Db.Oauth.Tokens.{IssuedTokens, issue_token_pair}

-- `PKCE_METHOD_S256`
abbrev pub pkce_method_s256 : Text
pkce_method_s256 = lit "S256"

-- The code that is presented, by prefix and hash.
unfoldable pub presented_code : Db → Text → List CodeRow → Result CodeRow
unfolding presented
presented_code db code rows =
    presented db (λ r. r.code_prefix) (λ r. r.code_hash) auth_code_scheme unauthorized code rows

-- `if let Some(r) = resource && r != matched.resource`
abbrev pub same_resource : Option Text → Text → Bool
same_resource none stored = true
same_resource (some r) stored = r == stored

module _ (db : Db) (io : Inputs) where
  -- `WHERE id = $1 AND consumed_at IS NULL AND expires_at > now()`
  abbrev pub spendable : ℕ → CodeRow → Bool
  spendable code_id c = c.id == code_id && is_usable io c.consumed_at c.expires_at

  -- `UPDATE oauth_auth_codes SET consumed_at = now() …`, refused where no row is affected.
  unfoldable pub consume_code : ℕ → Tx (Unit {0})
  unfolding update_rows
  consume_code code_id = write λ s.
      if not (any (spendable code_id) s.oauth.codes)
      then err unauthorized
      else ok (record s {
        oauth = record s.oauth {
          codes =
              update_rows (spendable code_id) (λ c. record c { consumed_at = some io.db_now })
                s.oauth.codes;
        };
      })

  -- The bindings of the code; a mismatch is `invalid_grant`.
  unfoldable pub is_bound : ℕ → Text → Text → Option Text → CodeRow → Bool
  is_bound client_id redirect_uri verifier resource c =
      c.client_id == client_id
      && (c.redirect_uri == redirect_uri
          && (c.code_challenge_method == pkce_method_s256
              && (verify_pkce_s256 db.hashes verifier c.code_challenge
                  && same_resource resource c.resource)))

  -- An error drops the transaction, and with it the consumption of the code.
  unfoldable pub exchange_auth_code : ℕ → Text → Text → Text → Option Text → ℕ → ℕ → Tx IssuedTokens
  exchange_auth_code client_id code redirect_uri verifier resource access_ttl refresh_ttl = do
    matched ← query (λ s. presented_code db code s.oauth.codes)
    consume_code matched.id
    lift (guard (is_bound client_id redirect_uri verifier resource matched) unauthorized)
    issue_token_pair db io client_id matched.user_id matched.org_id matched.scope matched.resource
        matched.all_orgs access_ttl refresh_ttl
