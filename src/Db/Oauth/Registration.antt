-- ===== src/Db/Oauth/Registration.antt =====
-- crates/db/src/oauth.rs, `register_oauth_client`: dynamic client registration (RFC 7591).
use md_manager.Base.{Bool, true, false, ◌||◌, Option, none, some, List, ◌==◌, nat_eq, bytes_eq}
use md_manager.Fault.{Result, ok, err}
use md_manager.Text.{Text, lit}
use md_manager.Crypto.{hash_token, GeneratedKey}
use md_manager.Oauth.{generate_client_id, generate_client_secret}
use md_manager.Db.{Db, Inputs}
use md_manager.Db.Rows.{insert_row}
use md_manager.Db.Tables.Oauth.{ClientRow}
use md_manager.Db.Tx.{Tx, pure, write, lift, ◌>>=◌, ◌>>◌}

-- `RegisteredOAuthClient`
pub record RegisteredClient : Type 0 where
  pub client_id : Text
  pub client_secret : Option Text

unfoldable pub insert_client : ClientRow → Tx (Unit {0})
insert_client row = write λ s.
    elim (insert_row "oauth_clients_client_id_key"
      (λ c. c.id == row.id || c.client_id == row.client_id) row s.oauth.clients) [
        | ok rows ↦ ok (record s { oauth = record s.oauth { clients = rows } })
        | err e ↦ err e
      ]

module _ (db : Db) (io : Inputs) where
  -- The secret of a confidential client; a public one has none.
  unfoldable pub client_secret : Bool → Result (Option GeneratedKey)
  unfolding generate_client_secret
  client_secret true = ok none
  client_secret false = elim (generate_client_secret (io.random_hex 1)) [
    | ok key ↦ ok (some key)
    | err e ↦ err e
  ]

  -- The row that a registration inserts.
  unfoldable pub client_row : Text → List Text → Text → Option GeneratedKey → ClientRow
  client_row name redirect_uris client_id secret = record {
    id = io.new_id 0;
    client_id = client_id;
    client_secret_prefix = elim secret [ none ↦ none | some k ↦ some k.prefix ];
    client_secret_hash = elim secret [
      | none ↦ none
      | some k ↦ some (hash_token db.hashes db.pepper k.secret)
    ];
    name = name;
    redirect_uris = redirect_uris;
    scopes = lit "mcp";
    is_dcr = true;
    revoked_at = none;
  }

  unfoldable pub register_oauth_client : Text → List Text → Bool → Tx RegisteredClient
  register_oauth_client name redirect_uris public = do
    client_id ← lift (generate_client_id (io.random_hex 0))
    secret ← lift (client_secret public)
    insert_client (client_row name redirect_uris client_id secret)
    pure (record {
      client_id = client_id;
      client_secret = elim secret [ none ↦ none | some k ↦ some k.secret ];
    })
