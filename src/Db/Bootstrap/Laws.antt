-- ===== src/Db/Bootstrap/Laws.antt =====
-- The tenant that a bootstrap leaves: its owner and its first key.
use md_manager.Base.{
  ℕ, List, true, some, ◌∷◌, ◌++◌, ◌≡◌, refl, sym, ◌∙◌, arith, nat_eq, bytes_eq, string_eq,
  Bool-cases, inl, inr,
}
use md_manager.Fault.{ok}
use md_manager.Text.{Text, len}
use md_manager.Crypto.{verify_api_key, hash_api_key, generate_api_key, GeneratedKey}
use md_manager.Model.{OrgRole, ActorType, min_role, org_role_from_db}
use md_manager.Db.{Db, Inputs}
use md_manager.Db.Statements.Laws.{write-eq-ok, put-eq-ok, insert_row_lem}
use md_manager.Db.Tables.{Store, ApiKeyRow}
use md_manager.Db.Tx.{bind_elim, query-eq-ok, pure-eq-ok}
use md_manager.Db.Authentication.{authenticate_api_key, candidate, member_role}
use md_manager.Db.Authentication.Laws.{accepted_key}
use md_manager.Db.Keys.{ApiKeyCreated, insert_key}
use md_manager.Db.Keys.Laws.{minted_lem}
use md_manager.Db.Organizations.{Organization, into_organization, insert_owner, is_user}
use md_manager.Db.Bootstrap.{User, bootstrap, first_key, scope}

insert_owner_lem :
    (org_id user_id : ℕ) (s t : Store) {u : Unit {0}}
    → insert_owner org_id user_id s ≡ ok (u, t)
    → (member_role org_id user_id t.members ≡ some "owner") × (t.api_keys ≡ s.api_keys)
unfolding insert_owner member_role
insert_owner_lem org_id user_id s t h =
    let w = write-eq-ok _ s h in
    elim (Bool-cases (is_user user_id s)) [
      | inl listed ↦
          let (rows, r, p) = put-eq-ok _ _ (rw listed at w) in
          let (_, inserted) = insert_row_lem _ _ _ s.members r in
          let t_rows : t.members ≡ rows = ground arith in
          (rw (t_rows ∙ inserted) (ground arith), ground arith)
      | inr missing ↦ absurd (let w' = rw missing at w in ground arith)
    ]

module _ (db : Db) (io : Inputs) where
  -- The rows that a successful bootstrap leaves.
  bootstrap_lem :
      (email display_name org_slug org_name key_name : Text) (key : GeneratedKey) (s t : Store)
      (org : Organization) (user : User) (created : ApiKeyCreated)
      → generate_api_key (io.random_hex 0) ≡ ok key
      → bootstrap db io email display_name org_slug org_name key_name s
        ≡ ok ((org, user, created), t)
      → (created.secret ≡ key.secret)
        × (org.id ≡ io.new_id 1)
        × (member_role (io.new_id 1) user.id t.members ≡ some "owner")
        × ((rest : _) × (t.api_keys
              ≡ first_key db io user.id key_name key.prefix
                  (hash_api_key db.hashes db.pepper key.secret)
                ∷ rest))
  unfolding bootstrap insert_key into_organization
  bootstrap_lem email display_name org_slug org_name key_name key s t org user created minted h =
      bind_elim _ _ _ h λ _ s1 e1 h1. bind_elim _ _ _ h1 λ _ s2 e2 h2.
        bind_elim _ _ _ h2 λ k s3 e3 h3. bind_elim _ _ _ h3 λ u s4 e4 h4.
          bind_elim _ _ _ h4 λ _ s5 e5 h5. bind_elim _ _ _ h5 λ _ s6 e6 h6.
            bind_elim _ _ _ h6 λ _ s7 e7 h7. bind_elim _ _ _ h7 λ info s8 e8 h8.
              let (q3, _) = query-eq-ok _ s2 e3 in
              let (owner, _) = insert_owner_lem (io.new_id 1) u.id s5 s6 e6 in
              let (rows, r, p7) = put-eq-ok _ _ (write-eq-ok _ s6 e7) in
              let (_, inserted) = insert_row_lem _ _ _ s6.api_keys r in
              let (_, p8) = query-eq-ok _ s7 e8 in
              let (p9, p10) = pure-eq-ok _ _ s8 t h8 in
              let same : k ≡ key = ground arith in
              let same_user : u ≡ user = ground arith in
              let t_rows : t.api_keys ≡ rows = ground arith in
              let t_members : t.members ≡ s6.members = ground arith in
              (
                ground arith,
                ground arith,
                rw (t_members, sym same_user) owner,
                (s6.api_keys, t_rows ∙ inserted ∙ cc),
              )

  listed_first :
      (io' : Inputs) (user_id : ℕ) (name secret prefix hash : Text) (rows : List ApiKeyRow)
      → verify_api_key db.hashes db.pepper secret hash ≡ true
      → candidate db io' secret prefix (first_key db io user_id name prefix hash ∷ rows)
        ≡ some (first_key db io user_id name prefix hash)
  unfolding candidate first_key
  listed_first io' user_id name secret prefix hash rows h = ground arith

  -- The key that a bootstrap returns works at once, whatever the clock says: its secret
  -- authenticates as an agent of the returned user in the returned organization, as an
  -- administrator. The random digits are at least eight.
  pub bootstrap-authenticate_api_key :
      (io' : Inputs) (first rest email display_name org_slug org_name key_name : Text) (s t : Store)
      (org : Organization) (user : User) (created : ApiKeyCreated)
      → io.random_hex 0 ≡ first ++ rest
      → len first ≡ 8
      → bootstrap db io email display_name org_slug org_name key_name s
        ≡ ok ((org, user, created), t)
      → (authenticate_api_key db io' created.secret t).1
        ≡ ok (record {
          org_id = org.id;
          user_id = user.id;
          actor_type = ActorType.agent;
          org_role = OrgRole.admin;
        })
  unfolding first_key org_role_from_db min_role string_eq
  bootstrap-authenticate_api_key io' first rest email display_name org_slug org_name key_name s t
        org user created e size h =
      let (key, minted, prefix, verified) = minted_lem db io (scope db io) first rest e size in
      let (secret, tenant, owner, (before, rows)) =
        bootstrap_lem email display_name org_slug org_name key_name key s t org user created minted
          h in
      let row =
        first_key db io user.id key_name key.prefix (hash_api_key db.hashes db.pepper key.secret) in
      let listed = listed_first io' user.id key_name key.secret key.prefix _ before verified in
      let accepted =
        accepted_key db io' key.secret key.prefix t row OrgRole.admin OrgRole.owner "owner" prefix
          (rw rows listed) refl refl refl owner refl in
      rw (secret, accepted, tenant) refl
