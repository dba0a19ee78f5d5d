-- ===== src/Db/Keys/Laws.antt =====
-- The life of an API key: it works once it is minted, and no more once it is revoked.
use md_manager.Base.{
  ℕ, String, true, false, some, List, ◌∷◌, ◌++◌, any, nat_eq, bytes_eq, ◌≡◌, refl, sym, ap, ◌∙◌,
  arith,
}
use md_manager.Fault.{unauthorized, ok, err}
use md_manager.Text.{Text, len, lit}
use md_manager.Crypto.{key_prefix, verify_api_key, hash_api_key, generate_api_key, GeneratedKey}
use md_manager.Crypto.Tokens.{generate_token-token_prefix}
use md_manager.Model.{OrgRole, ActorType, AuthContext, min_role, org_role_from_db}
use md_manager.Model.RoundTrip.{org_role_round_trip}
use md_manager.Db.{Db, Inputs}
use md_manager.Db.Rows.Laws.{any-update_rows, find-filter-any}
use md_manager.Db.Statements.{is_live}
use md_manager.Db.Statements.Laws.{write-eq-ok, audit_lem, put-eq-ok, insert_row_lem}
use md_manager.Db.Tables.{Store, ApiKeyRow}
use md_manager.Db.Tx.{bind_elim, query-eq-ok, pure-eq-ok}
use md_manager.Db.Authentication.{authenticate_api_key, candidate, member_role}
use md_manager.Db.Authentication.Laws.{refused_key, accepted_key}
use md_manager.Db.Keys.{
  create_api_key, revoke_api_key, mark_revoked, revocable, insert_key, key_row, ApiKeyCreated,
}

module _ (db : Db) (io : Inputs) (ctx : AuthContext) where
  mark_revoked_lem :
      (key_id : ℕ) (s t : Store) {u : Unit {0}}
      → mark_revoked db io ctx key_id s ≡ ok (u, t)
      → any (revocable db io ctx key_id) t.api_keys ≡ false
  unfolding mark_revoked
  mark_revoked_lem key_id s t h =
      let w = write-eq-ok _ s h in
      let gone =
        any-update_rows (revocable db io ctx key_id) (revocable db io ctx key_id)
          (λ k. record k { revoked_at = some io.db_now }) s.api_keys (λ k. ground arith) in
      ground arith

  -- A secret whose key in the table is a key that its organization has revoked is refused as unauthorized,
  -- whatever the clock says, and nothing is written.
  pub revoke_api_key-unauthorized :
      (io' : Inputs) (key_id : ℕ) (secret prefix : Text) (s t : Store) (key : ApiKeyRow)
      → revoke_api_key db io ctx key_id s ≡ ok (tt, t)
      → key_prefix secret ≡ ok (some prefix)
      → candidate db io' secret prefix t.api_keys ≡ some key
      → key.id ≡ key_id
      → key.org_id ≡ ctx.org_id
      → authenticate_api_key db io' secret t ≡ (t, err unauthorized)
  unfolding revoke_api_key candidate
  revoke_api_key-unauthorized io' key_id secret prefix s t key h found listed same_id same_org =
      bind_elim _ _ _ h λ _ s1 e1 h1. bind_elim _ _ _ h1 λ _ s2 e2 h2.
        let gone = mark_revoked_lem key_id s1 s2 e2 in
        let p = audit_lem ctx s2 io (io.new_id 2) _ _ _ h2 in
        let refused =
          find-filter-any _ _ (revocable db io ctx key_id) s2.api_keys key gone
            (ap (λ x. candidate db io' secret prefix x.api_keys) (sym p) ∙ listed) in
        let revoked : is_live key.revoked_at ≡ false = ground arith in
        refused_key db io' secret prefix t key found listed revoked

  -- The row that a successful creation has inserted.
  create_api_key_lem :
      (name : Text) (wanted : OrgRole) (key : GeneratedKey) (s t : Store) (created : ApiKeyCreated)
      → generate_api_key (io.random_hex 0) ≡ ok key
      → create_api_key db io ctx name wanted s ≡ ok (created, t)
      → (created.secret ≡ key.secret)
        × (t.members ≡ s.members)
        × (t.api_keys
            ≡ key_row db io ctx name
                (min_role wanted ctx.org_role)
                key.prefix
                (hash_api_key db.hashes db.pepper key.secret)
              ∷ s.api_keys)
  unfolding create_api_key insert_key
  create_api_key_lem name wanted key s t created minted h = bind_elim _ _ _ h λ _ s1 e1 h1.
      bind_elim _ _ _ h1 λ k s2 e2 h2. bind_elim _ _ _ h2 λ _ s3 e3 h3.
        bind_elim _ _ _ h3 λ _ s4 e4 h4. bind_elim _ _ _ h4 λ info s5 e5 h5.
          let (_, p1) = query-eq-ok _ s e1 in
          let (q2, p2) = query-eq-ok _ s1 e2 in
          let (rows, r, p3) = put-eq-ok _ _ (write-eq-ok _ s2 e3) in
          let (_, inserted) = insert_row_lem _ _ _ s2.api_keys r in
          let p4 = audit_lem ctx s3 io (io.new_id 2) _ _ _ e4 in
          let (_, p5) = query-eq-ok _ s4 e5 in
          let (p6, p7) = pure-eq-ok _ _ s5 t h5 in
          let same : k ≡ key = ground arith in
          let back : s2 ≡ s = p2 ∙ p1 in
          let t_rows : t.api_keys ≡ rows = ground arith in
          (ground arith, ground arith, t_rows ∙ inserted ∙ cc)

  pub minted_lem :
      (first rest : Text)
      → io.random_hex 0 ≡ first ++ rest
      → len first ≡ 8
      → (key : GeneratedKey) × (generate_api_key (io.random_hex 0) ≡ ok key)
        × (key_prefix key.secret ≡ ok (some key.prefix))
        × (verify_api_key db.hashes db.pepper key.secret
              (hash_api_key db.hashes db.pepper key.secret)
            ≡ true)
  unfolding generate_api_key key_prefix verify_api_key hash_api_key
  minted_lem first rest e size =
      let (key, p1, _, _, p4, p5) =
        generate_token-token_prefix db.hashes db.pepper (lit "mk") first rest size in
      (key, rw e p1, p4, p5)

  listed_lem :
      (io' : Inputs) (name secret prefix hash : Text) (role : OrgRole) (rows : List ApiKeyRow)
      → verify_api_key db.hashes db.pepper secret hash ≡ true
      → candidate db io' secret prefix (key_row db io ctx name role prefix hash ∷ rows)
        ≡ some (key_row db io ctx name role prefix hash)
  unfolding candidate key_row
  listed_lem io' name secret prefix hash role rows h = ground arith

  -- A minted key works at once: its secret authenticates, whatever the clock says, as an agent of
  -- the caller in the caller's organization, with the least of the role that was asked for, the
  -- caller's role and the caller's role as the database has it. The random digits are at least eight.
  pub create_api_key-authenticate :
      (io' : Inputs) (first rest name : Text) (wanted creator : OrgRole) (word : String)
      (s t : Store) (created : ApiKeyCreated)
      → io.random_hex 0 ≡ first ++ rest
      → len first ≡ 8
      → create_api_key db io ctx name wanted s ≡ ok (created, t)
      → member_role ctx.org_id ctx.user_id s.members ≡ some word
      → org_role_from_db word ≡ ok creator
      → (authenticate_api_key db io' created.secret t).1
        ≡ ok (record {
          org_id = ctx.org_id;
          user_id = ctx.user_id;
          actor_type = ActorType.agent;
          org_role = min_role (min_role wanted ctx.org_role) creator;
        })
  unfolding key_row
  create_api_key-authenticate io' first rest name wanted creator word s t created e size h m c =
      let (key, minted, prefix, verified) = minted_lem first rest e size in
      let (secret, members, rows) = create_api_key_lem name wanted key s t created minted h in
      let row =
        key_row db io ctx name (min_role wanted ctx.org_role) key.prefix
          (hash_api_key db.hashes db.pepper key.secret) in
      let listed =
        listed_lem io' name key.secret key.prefix _ (min_role wanted ctx.org_role) s.api_keys
          verified in
      let accepted =
        accepted_key db io' key.secret key.prefix t row (min_role wanted ctx.org_role) creator word
          prefix (rw rows listed) refl refl (org_role_round_trip (min_role wanted ctx.org_role))
          (rw members m) c in
      rw (secret, accepted) refl
