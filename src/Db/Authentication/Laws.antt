-- ===== src/Db/Authentication/Laws.antt =====
-- What a presented key is worth: never more than its creator's role, and nothing once it is revoked.
use md_manager.Base.{
  String, true, false, ◌&&◌, none, some, List, nat_eq, bytes_eq, ◌≡◌, refl, ap, ◌∙◌, arith, inl,
  inr, Option-cases, ==_iff,
}
use md_manager.Fault.{unauthorized, ok, err, Result-cases}
use md_manager.Text.{Text}
use md_manager.Crypto.{key_prefix, verify_api_key}
use md_manager.Model.{
  OrgRole, Role, ActorType, AuthContext, min_role, org_role_from_db, capability, at_least,
}
use md_manager.Rbac.Resolution.{min_role_meet}
use md_manager.Db.{Db, Inputs}
use md_manager.Db.Rows.Laws.{find-filter}
use md_manager.Db.Statements.{is_live}
use md_manager.Db.Tables.{Store, ApiKeyRow, MemberRow}
use md_manager.Db.Authentication.{
  authenticate_api_key, find_key, candidate, presented_key, key_context, member_role, is_expired,
  touch_key,
}

module _ (db : Db) (io : Inputs) where
  candidate_lem :
      (secret prefix : Text) (rows : List ApiKeyRow) (key : ApiKeyRow)
      → candidate db io secret prefix rows ≡ some key
      → (verify_api_key db.hashes db.pepper secret key.key_hash ≡ true) × (key.key_prefix ≡ prefix)
  unfolding candidate
  candidate_lem secret prefix rows key h =
      let (a, b) = find-filter _ _ rows key h in (a, (==_iff {A = Text} _ _).0 b)

  find_key_lem :
      (secret : Text) (rows : List ApiKeyRow) (key : ApiKeyRow)
      → find_key db io secret rows ≡ ok key
      → (key_prefix secret ≡ ok (some key.key_prefix))
        × (candidate db io secret key.key_prefix rows ≡ some key)
        × (verify_api_key db.hashes db.pepper secret key.key_hash ≡ true)
        × (key.revoked_at ≡ none)
        × (is_expired db io key.expires_at ≡ false)
  unfolding find_key
  find_key_lem secret rows key h = elim (Result-cases (key_prefix secret)) [
    | inr (x, e) ↦ absurd (ground arith)
    | inl (none, e) ↦ absurd (ground arith)
    | inl (some prefix, e) ↦ elim (Option-cases (candidate db io secret prefix rows)) [
      | inl e2 ↦ absurd (ground arith)
      | inr (k, e2) ↦
          let same : k ≡ key = ground arith in
          let (a, b) = candidate_lem secret prefix rows key (e2 ∙ ap some same) in ground arith
    ]
  ]

  -- What backs a context: a key of the table that matches the secret by prefix and hash and is
  -- neither revoked nor expired, and a current membership of the key's creator. The context is the
  -- creator's, as an agent, and it permits what both the key's role and the creator's role permit.
  pub record IsBacked (secret : Text) (s : Store) (ctx : AuthContext) : Type 0 where
    pub key : ApiKeyRow
    pub listed : candidate db io secret key.key_prefix s.api_keys ≡ some key
    pub prefix : key_prefix secret ≡ ok (some key.key_prefix)
    pub hash : verify_api_key db.hashes db.pepper secret key.key_hash ≡ true
    pub not_revoked : key.revoked_at ≡ none
    pub not_expired : is_expired db io key.expires_at ≡ false
    pub key_role : OrgRole
    pub key_role_read : org_role_from_db key.role ≡ ok key_role
    pub word : String
    pub membership : member_role key.org_id key.created_by s.members ≡ some word
    pub creator_role : OrgRole
    pub creator_role_read : org_role_from_db word ≡ ok creator_role
    pub principal :
        (ctx.org_id ≡ key.org_id)
        × (ctx.user_id ≡ key.created_by)
        × (ctx.actor_type ≡ ActorType.agent)
    pub permits :
        (need : Role)
        → at_least (capability ctx.org_role) need
          ≡ (at_least (capability key_role) need && at_least (capability creator_role) need)

  presented_key_lem :
      (secret : Text) (rows : List ApiKeyRow) (key : ApiKeyRow) (role : OrgRole)
      → presented_key db io secret rows ≡ ok (key, role)
      → (find_key db io secret rows ≡ ok key) × (org_role_from_db key.role ≡ ok role)
  unfolding presented_key
  presented_key_lem secret rows key role h = elim (Result-cases (find_key db io secret rows)) [
    | inr (x, e) ↦ absurd (ground arith)
    | inl (k, e) ↦ elim (Result-cases (org_role_from_db k.role)) [
      | inr (x, e2) ↦ absurd (ground arith)
      | inl (r, e2) ↦ ground arith
    ]
  ]

  key_context_lem :
      (key : ApiKeyRow) (role : OrgRole) (members : List MemberRow) (ctx : AuthContext)
      → key_context db io key role members ≡ ok ctx
      → (word : String) × (member_role key.org_id key.created_by members ≡ some word)
        × ((creator : OrgRole) × (org_role_from_db word ≡ ok creator)
            × (ctx ≡ record {
              org_id = key.org_id;
              user_id = key.created_by;
              actor_type = ActorType.agent;
              org_role = min_role role creator;
            }))
  unfolding key_context
  key_context_lem key role members ctx h =
      elim (Option-cases (member_role key.org_id key.created_by members)) [
        | inl e ↦ absurd (ground arith)
        | inr (word, e) ↦ elim (Result-cases (org_role_from_db word)) [
          | inr (x, e2) ↦ absurd (ground arith)
          | inl (r, e2) ↦ (word, e, (r, e2, ground arith))
        ]
      ]

  -- A secret that authenticates is backed by a key of the table and by its creator's current
  -- membership, which bound the role of the context.
  pub authenticate_api_key-IsBacked :
      (secret : Text) (s t : Store) (ctx : AuthContext)
      → authenticate_api_key db io secret s ≡ (t, ok ctx)
      → IsBacked secret s ctx
  unfolding authenticate_api_key
  authenticate_api_key-IsBacked secret s t ctx h =
      elim (Result-cases (presented_key db io secret s.api_keys)) [
        | inr (x, e) ↦ absurd (ground arith)
        | inl ((k, role), e) ↦
            let (f, read) = presented_key_lem secret s.api_keys k role e in
            let (p1, p2, p3, p4, p5) = find_key_lem secret s.api_keys k f in
            let context : key_context db io k role s.members ≡ ok ctx = ground arith in
            let (word, m, (creator, c, p)) = key_context_lem k role s.members ctx context in
            record {
              key = k;
              listed = p2;
              prefix = p1;
              hash = p3;
              not_revoked = p4;
              not_expired = p5;
              key_role = role;
              key_role_read = read;
              word = word;
              membership = m;
              creator_role = creator;
              creator_role_read = c;
              principal = rw p (refl, refl, refl);
              permits = λ need. rw p (min_role_meet role creator need);
            }
      ]

  -- A revoked key is refused.
  pub refused_key :
      (secret prefix : Text) (s : Store) (key : ApiKeyRow)
      → key_prefix secret ≡ ok (some prefix)
      → candidate db io secret prefix s.api_keys ≡ some key
      → is_live key.revoked_at ≡ false
      → authenticate_api_key db io secret s ≡ (s, err unauthorized)
  unfolding authenticate_api_key presented_key find_key
  refused_key secret prefix s key e1 e2 e3 = ground arith

  -- A usable key of a member is accepted.
  pub accepted_key :
      (secret prefix : Text) (s : Store) (key : ApiKeyRow) (role creator : OrgRole) (word : String)
      → key_prefix secret ≡ ok (some prefix)
      → candidate db io secret prefix s.api_keys ≡ some key
      → key.revoked_at ≡ none
      → key.expires_at ≡ none
      → org_role_from_db key.role ≡ ok role
      → member_role key.org_id key.created_by s.members ≡ some word
      → org_role_from_db word ≡ ok creator
      → authenticate_api_key db io secret s ≡ (
        touch_key db io key s,
        ok (record {
          org_id = key.org_id;
          user_id = key.created_by;
          actor_type = ActorType.agent;
          org_role = min_role role creator;
        }),
      )
  unfolding authenticate_api_key presented_key find_key key_context
  accepted_key secret prefix s key role creator word e1 e2 e3 e4 e5 e6 e7 = ground arith
