-- ===== src/Db/Oauth/Clients.antt =====
-- crates/db/src/oauth.rs: the lookup and the authentication of clients.
pub mod Laws
use md_manager.Base.{
  ℕ, String, Bool, true, false, not, ◌&&◌, ◌||◌, Option, none, some, List, [], ◌∷◌, find, any, ◌==◌,
  nat_eq, bytes_eq, if◌then◌else◌,
}
use md_manager.Fault.{unauthorized, invalid, Result, ok, err, ok_or, guard, ◌>>=◌, ◌>>◌}
use md_manager.Text.{Text, lit}
use md_manager.Crypto.{hash_token, verify_token, GeneratedKey}
use md_manager.Oauth.{generate_client_id, generate_client_secret}
use md_manager.Db.{Db, Inputs}
use md_manager.Db.Rows.{insert_row}
use md_manager.Db.Statements.{is_live}
use md_manager.Db.Tables.{Store}
use md_manager.Db.Tables.Oauth.{ClientRow}
use md_manager.Db.Tx.{Tx, pure, write, lift}

-- `OAuthClientInfo`
pub record ClientInfo : Type 0 where
  pub db_id : ℕ
  pub client_id : Text
  pub name : Text
  pub redirect_uris : List Text
  pub is_public : Bool
  pub scopes : Text

-- `ClientRow::into_info`
unfoldable pub into_info : ClientRow → ClientInfo
into_info row = record {
  db_id = row.id;
  client_id = row.client_id;
  name = row.name;
  redirect_uris = row.redirect_uris;
  is_public = elim row.client_secret_hash [ none ↦ true | some h ↦ false ];
  scopes = row.scopes;
}

-- `SELECT … FROM oauth_clients WHERE client_id = $1`, of a client that is not revoked.
unfoldable pub live_client : Text → Store → Result ClientRow
live_client client_id s = do
  row ← ok_or (find (λ c. c.client_id == client_id) s.oauth.clients) unauthorized
  guard (is_live row.revoked_at) unauthorized
  ok row

unfoldable pub find_oauth_client : Text → Store → Result ClientInfo
unfolding live_client into_info
find_oauth_client client_id s = do row ← live_client client_id s; ok (into_info row)

-- `if let Some(hash) = &row.client_secret_hash { … }`
unfoldable pub check_secret : Db → Option Text → Option Text → Result (Unit {0})
check_secret db none secret = ok tt
check_secret db (some hash) secret = do
  s ← ok_or secret unauthorized
  guard (verify_token db.hashes db.pepper s hash) unauthorized

unfoldable pub authenticate_oauth_client : Db → Text → Option Text → Store → Result ClientInfo
unfolding live_client check_secret into_info
authenticate_oauth_client db client_id secret s = do
  row ← live_client client_id s
  check_secret db row.client_secret_hash secret
  ok (into_info row)
