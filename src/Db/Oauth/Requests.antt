-- ===== src/Db/Oauth/Requests.antt =====
-- crates/db/src/oauth.rs: pending authorization requests: stored, shown on the consent page, and
-- consumed once.
use md_manager.Base.{
  length, filter, ℕ, Bool, not, ◌&&◌, Option, none, some, ◌+◌, find, any, ltb, ◌==◌, nat_eq,
  if◌then◌else◌,
}
use md_manager.Fault.{not_found, invalid, Result, ok, err, ok_or}
use md_manager.Text.{Text}
use md_manager.Db.{Inputs, seconds}
use md_manager.Db.Rows.{update_rows, delete_rows, insert_row}
use md_manager.Db.Statements.{is_live}
use md_manager.Db.Tables.{Store}
use md_manager.Db.Tables.Oauth.{AuthRequestRow}
use md_manager.Db.Tx.{Tx, pure, query, write, ◌>>=◌, ◌>>◌}

-- `AuthRequestDisplay`
pub record AuthRequestDisplay : Type 0 where
  pub client_name : Text
  pub scope : Text
  pub redirect_uri : Text

-- `DenyOutcome`
pub record DenyOutcome : Type 0 where
  pub redirect_uri : Text
  pub state : Option Text

-- A consumable row of `oauth_authorization_requests` or `oauth_auth_codes`:
-- `consumed_at IS NULL AND expires_at > now()`.
abbrev pub is_usable : Inputs → Option ℕ → ℕ → Bool
is_usable io consumed_at expires_at = is_live consumed_at && ltb io.db_now expires_at

-- `WHERE id = $1 AND consumed_at IS NULL AND expires_at > now()`
abbrev pub is_pending : Inputs → ℕ → AuthRequestRow → Bool
is_pending io request_id r = r.id == request_id && is_usable io r.consumed_at r.expires_at

module _ (io : Inputs) where
  abbrev pub known_client : ℕ → Store → Bool
  known_client client_id s = any (λ c. c.id == client_id) s.oauth.clients

  -- The row that `create_authorization_request` inserts.
  unfoldable pub request_row :
      ℕ → Text → Text → Text → Text → Text → Option Text → ℕ → AuthRequestRow
  request_row client_id redirect_uri challenge method resource scope state ttl_secs = record {
    id = io.new_id 0;
    client_id = client_id;
    redirect_uri = redirect_uri;
    code_challenge = challenge;
    code_challenge_method = method;
    resource = resource;
    scope = scope;
    state = state;
    expires_at = io.now_utc + seconds ttl_secs;
    consumed_at = none;
  }

  -- The client is a foreign key.
  unfoldable pub insert_request : AuthRequestRow → Tx (Unit {0})
  insert_request row = write λ s.
      if not (known_client row.client_id s)
      then err (invalid "referenced resource does not exist")
      else elim (insert_row "oauth_authorization_requests_pkey" (λ r. r.id == row.id) row
          s.oauth.requests) [
            | ok rows ↦ ok (record s { oauth = record s.oauth { requests = rows } })
            | err e ↦ err e
          ]

  unfoldable pub create_authorization_request :
      ℕ → Text → Text → Text → Text → Text → Option Text → ℕ → Tx ℕ
  create_authorization_request client_id redirect_uri challenge method resource scope state
        ttl_secs =
      do
        insert_request
            (request_row client_id redirect_uri challenge method resource scope state ttl_secs)
        pure (io.new_id 0)

  -- The inner join with the request's client.
  unfoldable pub get_authorization_request_display : ℕ → Store → Result AuthRequestDisplay
  get_authorization_request_display request_id s =
      elim (find (is_pending io request_id) s.oauth.requests) [
        | none ↦ err not_found
        | some r ↦ elim (find (λ c. c.id == r.client_id) s.oauth.clients) [
          | none ↦ err not_found
          | some c ↦
              ok (record { client_name = c.name; scope = r.scope; redirect_uri = r.redirect_uri })
        ]
      ]

  -- `UPDATE … SET consumed_at = now() WHERE …`, and the `RETURNING` of the row.
  unfoldable pub pending_request : ℕ → Store → Result AuthRequestRow
  pending_request request_id s = ok_or (find (is_pending io request_id) s.oauth.requests) not_found

  unfoldable pub consume_request : ℕ → Tx (Unit {0})
  consume_request request_id = write λ s. ok (record s {
    oauth = record s.oauth {
      requests =
          update_rows (is_pending io request_id) (λ r. record r { consumed_at = some io.db_now })
            s.oauth.requests;
    };
  })

  unfoldable pub deny_authorization_request : ℕ → Tx DenyOutcome
  deny_authorization_request request_id = do
    r ← query (pending_request request_id)
    consume_request request_id
    pure (record { redirect_uri = r.redirect_uri; state = r.state })

  abbrev pub has_expired : ℕ → Bool
  has_expired expires_at = ltb expires_at io.db_now

  -- Two statements `DELETE … WHERE expires_at < now()`, and the number of rows that they delete.
  unfoldable pub cleanup_expired_oauth : Store → Store × ℕ
  cleanup_expired_oauth s = (
    record s {
      oauth = record s.oauth {
        requests = delete_rows (λ r. has_expired r.expires_at) s.oauth.requests;
        codes = delete_rows (λ c. has_expired c.expires_at) s.oauth.codes;
      };
    },
    length (filter (λ r. has_expired r.expires_at) s.oauth.requests)
        + length (filter (λ c. has_expired c.expires_at) s.oauth.codes),
  )
