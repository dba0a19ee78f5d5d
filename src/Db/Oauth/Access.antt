-- ===== src/Db/Oauth/Access.antt =====
-- crates/db/src/oauth.rs, `authenticate_oauth_access_token`: what an access token is worth.
pub mod Laws
use md_manager.Base.{
  ℕ, String, Bool, true, false, not, ◌&&◌, ◌||◌, Option, none, some, List, find, filter, leb, ◌==◌,
  nat_eq, bytes_eq, if◌then◌else◌,
}
use md_manager.Fault.{unauthorized, Result, ok, err, ok_or, guard, ◌>>=◌, ◌>>◌}
use md_manager.Text.{Text}
use md_manager.Model.{OrgRole, ActorType, AuthContext, org_role_from_db}
use md_manager.Oauth.{access_token_scheme}
use md_manager.Db.{Db, Inputs}
use md_manager.Db.Lookup.{presented}
use md_manager.Db.Rows.{update_rows}
use md_manager.Db.Statements.{is_live}
use md_manager.Db.Tables.{Store, MemberRow}
use md_manager.Db.Tables.Oauth.{AccessTokenRow}
use md_manager.Db.Authentication.{member_role}

-- `OAuthAccess`
pub data OauthAccess : Type 0 where
  org : AuthContext → OauthAccess
  all_orgs : ℕ → OauthAccess

-- The access token that is presented, by prefix and hash.
unfoldable pub presented_access : Db → Text → List AccessTokenRow → Result AccessTokenRow
unfolding presented
presented_access db token rows =
    presented db (λ r. r.token_prefix) (λ r. r.token_hash) access_token_scheme unauthorized token
      rows

module _ (db : Db) (io : Inputs) where
  abbrev pub is_valid : Text → AccessTokenRow → Bool
  is_valid expected_resource r =
      is_live r.revoked_at && (not (leb r.expires_at io.now_utc) && r.resource == expected_resource)

  unfoldable pub valid_access : Text → Text → List AccessTokenRow → Result AccessTokenRow
  unfolding presented_access
  valid_access token expected_resource rows = do
    r ← presented_access db token rows
    guard (is_valid expected_resource r) unauthorized
    ok r

  -- `UPDATE oauth_access_tokens SET last_used_at = now() WHERE id = $1`
  unfoldable pub touch_access : AccessTokenRow → Store → Store
  touch_access a s = record s {
    oauth = record s.oauth {
      access_tokens =
          update_rows (λ r. r.id == a.id) (λ r. record r { last_used_at = some io.db_now })
            s.oauth.access_tokens;
    };
  }

  -- The current membership of the token's user in its organization.
  unfoldable pub member_context : AccessTokenRow → List MemberRow → Result AuthContext
  unfolding member_role org_role_from_db
  member_context a members = do
    word ← ok_or (member_role a.org_id a.user_id members) unauthorized
    role ← org_role_from_db word
    ok (record {
      org_id = a.org_id;
      user_id = a.user_id;
      actor_type = ActorType.agent;
      org_role = role;
    })

  abbrev pub access_of : AccessTokenRow → List MemberRow → Result OauthAccess
  access_of a members =
      if a.all_orgs
      then ok (all_orgs a.user_id)
      else do ctx ← member_context a members; ok (org ctx)

  -- The store that is left, and the result: a valid token is touched, even where its user has
  -- left the organization.
  unfoldable pub authenticate_oauth_access_token : Text → Text → Store → Store × Result OauthAccess
  unfolding valid_access touch_access member_context
  authenticate_oauth_access_token token expected_resource s =
      elim (valid_access token expected_resource s.oauth.access_tokens) [
        | ok a ↦ (touch_access a s, access_of a s.members)
        | err e ↦ (s, err e)
      ]
