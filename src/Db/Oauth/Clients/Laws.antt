-- ===== src/Db/Oauth/Clients/Laws.antt =====
-- Which clients the token endpoint accepts.
use md_manager.Base.{
  true, Option, none, some, ◌≡◌, ◌↔◌, refl, arith, find, ◌==◌, bytes_eq, Bool-cases, Option-cases,
  inl, inr,
}
use md_manager.Fault.{ok, Result-cases}
use md_manager.Text.{Text}
use md_manager.Crypto.{verify_token}
use md_manager.Db.{Db}
use md_manager.Db.Statements.{is_live}
use md_manager.Db.Tables.{Store}
use md_manager.Db.Tables.Oauth.{ClientRow}
use md_manager.Db.Oauth.Clients.{
  ClientInfo, into_info, live_client, check_secret, authenticate_oauth_client,
}

-- The proof that a client owes: none where it is public, and otherwise a secret with its hash.
abbrev pub Proves : Db → Option Text → Option Text → Type 0
Proves db none secret = Unit
Proves db (some hash) secret =
    (s : Text) × (secret ≡ some s) × (verify_token db.hashes db.pepper s hash ≡ true)

-- A registered client that is not revoked and gives its proof.
pub record IsAuthentic (db : Db) (client_id : Text) (secret : Option Text) (s : Store)
    (info : ClientInfo) : Type 0 where
  pub row : ClientRow
  pub registered : find (λ c. c.client_id == client_id) s.oauth.clients ≡ some row
  pub not_revoked : row.revoked_at ≡ none
  pub proof : Proves db row.client_secret_hash secret
  pub same : info ≡ into_info row

live_client_lem :
    (client_id : Text) (s : Store) (row : ClientRow)
    → live_client client_id s ≡ ok row
    → (find (λ c. c.client_id == client_id) s.oauth.clients ≡ some row) × (row.revoked_at ≡ none)
unfolding live_client
live_client_lem client_id s row h =
    elim (Option-cases (find (λ c. c.client_id == client_id) s.oauth.clients)) [
      | inl e ↦ absurd (ground arith)
      | inr (c, e) ↦ elim (Bool-cases (is_live c.revoked_at)) [
        | inr dead ↦ absurd (ground arith)
        | inl live ↦ (let same : c ≡ row = ground arith in (ground arith, ground arith))
      ]
    ]

check_secret-Proves :
    (db : Db) (hash secret : Option Text) {u : Unit {0}}
    → check_secret db hash secret ≡ ok u
    → Proves db hash secret
unfolding check_secret
check_secret-Proves db none secret h = tt
check_secret-Proves db (some hash) none h = absurd (ground arith)
check_secret-Proves db (some hash) (some s) h = (s, refl, ground arith)

proved :
    (db : Db) (hash secret : Option Text)
    → Proves db hash secret
    → check_secret db hash secret ≡ ok tt
unfolding check_secret
proved db none secret p = refl
proved db (some hash) secret (s, e, v) = ground arith

-- The token endpoint accepts exactly the registered, unrevoked clients that give their proof: a
-- public client needs none, and a confidential one needs a secret that has its stored hash.
pub authenticate_oauth_client_iff :
    (db : Db) (client_id : Text) (secret : Option Text) (s : Store) (info : ClientInfo)
    → (authenticate_oauth_client db client_id secret s ≡ ok info)
      ↔ IsAuthentic db client_id secret s info
unfolding authenticate_oauth_client live_client
authenticate_oauth_client_iff db client_id secret s info = (
  (λ h. elim (Result-cases (live_client client_id s)) [
    | inr (x, e) ↦ absurd (ground arith)
    | inl (row, e) ↦ elim (Result-cases (check_secret db row.client_secret_hash secret)) [
      | inr (x, e2) ↦ absurd (ground arith)
      | inl (u, e2) ↦
          let (p, q) = live_client_lem client_id s row e in
          record {
            row = row;
            registered = p;
            not_revoked = q;
            proof = check_secret-Proves db row.client_secret_hash secret e2;
            same = ground arith;
          }
    ]
  ]),
  (λ x.
      let p = proved db x.row.client_secret_hash secret x.proof in
      let q = x.registered in let r = x.not_revoked in let i = x.same in ground arith),
)
