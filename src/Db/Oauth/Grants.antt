-- ===== src/Db/Oauth/Grants.antt =====
-- crates/db/src/oauth.rs: a user's connected applications: revoking one, and moving one from an
-- organization to another.
use md_manager.Base.{
  ℕ, Bool, ◌&&◌, none, some, List, [], ◌∷◌, find, any, ◌==◌, nat_eq, bytes_eq, if◌then◌else◌,
}
use md_manager.Fault.{not_found, Result, ok, err}
use md_manager.Text.{Text}
use md_manager.Model.{ActorType, AuthContext}
use md_manager.Db.{Db, Inputs}
use md_manager.Db.Rows.{update_rows}
use md_manager.Db.Statements.{audit}
use md_manager.Db.Tables.{Store, uuid, text}
use md_manager.Db.Tables.Oauth.{ClientRow, RefreshRow}
use md_manager.Db.Tx.{Tx, pure, query, write, ◌>>=◌, ◌>>◌}
use md_manager.Db.Oauth.Consent.{consenting_role}
use md_manager.Db.Oauth.Tokens.{revoke_family, live_access, live_refresh}

-- A client with a grant of the user in the organization.
abbrev pub is_granted : Text → ℕ → ℕ → List RefreshRow → ClientRow → Bool
is_granted client_id user_id org_id rows c =
    c.client_id == client_id && any (live_refresh c.id user_id org_id) rows

unfoldable pub grant_client_db_id : Text → ℕ → ℕ → Store → Result ℕ
grant_client_db_id client_id user_id org_id s =
    elim (find (is_granted client_id user_id org_id s.oauth.refresh_tokens) s.oauth.clients) [
      | none ↦ err not_found
      | some c ↦ ok c.id
    ]

module _ (db : Db) (io : Inputs) (ctx : AuthContext) where
  unfoldable pub revoke_oauth_grant : Text → ℕ → Tx (Unit {0})
  revoke_oauth_grant client_id org_id = do
    client_db_id ← query (grant_client_db_id client_id ctx.user_id org_id)
    revoke_family io client_db_id ctx.user_id org_id
    audit io
        (record {
          org_id = org_id;
          user_id = ctx.user_id;
          actor_type = ActorType.user;
          org_role = ctx.org_role;
        })
        (io.new_id 0) "oauth.revoke" (some (text client_id)) []

  -- The two statements of the loop over the tables: the live tokens of the family move.
  unfoldable pub move_tokens : ℕ → ℕ → ℕ → Tx (Unit {0})
  unfolding update_rows
  move_tokens client_db_id from_org to_org = write λ s. ok (record s {
    oauth = record s.oauth {
      access_tokens =
          update_rows (live_access client_db_id ctx.user_id from_org)
            (λ r. record r { org_id = to_org }) s.oauth.access_tokens;
      refresh_tokens =
          update_rows (live_refresh client_db_id ctx.user_id from_org)
            (λ r. record r { org_id = to_org }) s.oauth.refresh_tokens;
    };
  })

  -- The move between two different organizations.
  unfoldable pub move_grant : Text → ℕ → ℕ → Tx (Unit {0})
  move_grant client_id from_org to_org = do
    client_db_id ← query (grant_client_db_id client_id ctx.user_id from_org)
    role ← query (consenting_role db io to_org ctx.user_id)
    move_tokens client_db_id from_org to_org
    audit io
        (record {
          org_id = to_org;
          user_id = ctx.user_id;
          actor_type = ActorType.user;
          org_role = role;
        })
        (io.new_id 0) "oauth.switch" (some (text client_id))
        (("from_org", uuid from_org) ∷ ("to_org", uuid to_org) ∷ [])

  unfoldable pub switch_oauth_grant : Text → ℕ → ℕ → Tx (Unit {0})
  unfolding move_grant
  switch_oauth_grant client_id from_org to_org =
      if from_org == to_org then pure tt else move_grant client_id from_org to_org
