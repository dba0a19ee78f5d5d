-- ===== src/Db/Oauth/Access/Laws.antt =====
-- What an access token is worth: a valid row of the table and a current membership, and nothing
-- once its row is revoked.
use md_manager.Base.{
  ℕ, ◌<◌, String, false, none, some, List, ◌≡◌, refl, sym, ap, ◌∙◌, arith, any, nat_eq, bytes_eq,
  Bool-cases, Option-cases, inl, inr,
}
use md_manager.Fault.{unauthorized, ok, err, Result-cases}
use md_manager.Text.{Text}
use md_manager.Model.{OrgRole, ActorType, AuthContext, org_role_from_db}
use md_manager.Oauth.{access_token_scheme}
use md_manager.Db.{Db, Inputs}
use md_manager.Db.Lookup.{matching}
use md_manager.Db.Lookup.Laws.{presented-eq-ok}
use md_manager.Db.Rows.Laws.{find-filter-any}
use md_manager.Db.Statements.{is_live}
use md_manager.Db.Tables.{Store, MemberRow}
use md_manager.Db.Tables.Oauth.{AccessTokenRow}
use md_manager.Db.Authentication.{member_role}
use md_manager.Db.Oauth.Tokens.{live_access}
use md_manager.Db.Oauth.Access.{
  org, presented_access, valid_access, is_valid, member_context, authenticate_oauth_access_token,
  touch_access,
}

module _ (db : Db) (io : Inputs) where
  valid_access_lem :
      (token resource : Text) (rows : List AccessTokenRow) (a : AccessTokenRow)
      → valid_access db io token resource rows ≡ ok a
      → (presented_access db token rows ≡ ok a)
        × (a.revoked_at ≡ none)
        × (io.now_utc < a.expires_at)
        × (a.resource ≡ resource)
  unfolding valid_access
  valid_access_lem token resource rows a h = elim (Result-cases (presented_access db token rows)) [
    | inr (x, e) ↦ absurd (ground arith)
    | inl (r, e) ↦ elim (Bool-cases (is_valid db io resource r)) [
      | inl fine ↦ (let same : r ≡ a = ground arith in ground arith)
      | inr bad ↦ absurd (ground arith)
    ]
  ]

  member_context_lem :
      (a : AccessTokenRow) (members : List MemberRow) (ctx : AuthContext)
      → member_context db io a members ≡ ok ctx
      → (word : String) × (member_role a.org_id a.user_id members ≡ some word)
        × ((role : OrgRole) × (org_role_from_db word ≡ ok role)
            × (ctx ≡ record {
              org_id = a.org_id;
              user_id = a.user_id;
              actor_type = ActorType.agent;
              org_role = role;
            }))
  unfolding member_context
  member_context_lem a members ctx h =
      elim (Option-cases (member_role a.org_id a.user_id members)) [
        | inl e ↦ absurd (ground arith)
        | inr (word, e) ↦ elim (Result-cases (org_role_from_db word)) [
          | inr (x, e2) ↦ absurd (ground arith)
          | inl (r, e2) ↦ (word, e, (r, e2, ground arith))
        ]
      ]

  -- What backs a context for one organization: a row of the table that matches the token by prefix
  -- and hash and is for this resource, neither revoked nor expired, and the current membership of
  -- its user in its organization, whose role the context has.
  pub record IsBackedAccess (token resource : Text) (s : Store) (ctx : AuthContext) : Type 0 where
    pub row : AccessTokenRow
    pub listed : presented_access db token s.oauth.access_tokens ≡ ok row
    pub not_revoked : row.revoked_at ≡ none
    pub not_expired : io.now_utc < row.expires_at
    pub audience : row.resource ≡ resource
    pub one_org : row.all_orgs ≡ false
    pub word : String
    pub membership : member_role row.org_id row.user_id s.members ≡ some word
    pub role_read : org_role_from_db word ≡ ok ctx.org_role
    pub principal :
        (ctx.org_id ≡ row.org_id) × (ctx.user_id ≡ row.user_id) × (ctx.actor_type ≡ ActorType.agent)

  -- An access token that yields the context of an organization is backed by a valid row and by a
  -- current membership.
  pub authenticate_oauth_access_token-IsBackedAccess :
      (token resource : Text) (s t : Store) (ctx : AuthContext)
      → authenticate_oauth_access_token db io token resource s ≡ (t, ok (org ctx))
      → IsBackedAccess token resource s ctx
  unfolding authenticate_oauth_access_token
  authenticate_oauth_access_token-IsBackedAccess token resource s t ctx h =
      elim (Result-cases (valid_access db io token resource s.oauth.access_tokens)) [
        | inr (x, e) ↦ absurd (ground arith)
        | inl (a, e) ↦
            let (p1, p2, p3, p4) = valid_access_lem token resource s.oauth.access_tokens a e in
            elim (Bool-cases a.all_orgs) [
              | inl every ↦ absurd (ground arith)
              | inr one ↦ elim (Result-cases (member_context db io a s.members)) [
                | inr (x, e2) ↦ absurd (ground arith)
                | inl (c, e2) ↦
                    let same : c ≡ ctx = ground arith in
                    let (word, m, (role, r, p)) =
                      member_context_lem a s.members ctx (e2 ∙ ap ok same) in
                    record {
                      row = a;
                      listed = p1;
                      not_revoked = p2;
                      not_expired = p3;
                      audience = p4;
                      one_org = one;
                      word = word;
                      membership = m;
                      role_read = r ∙ ap (λ c. ok c.org_role) (sym p);
                      principal = rw p (refl, refl, refl);
                    }
              ]
            ]
      ]

  -- A token whose row is revoked is refused.
  pub refused_access :
      (token resource : Text) (s : Store) (a : AccessTokenRow)
      → presented_access db token s.oauth.access_tokens ≡ ok a
      → is_live a.revoked_at ≡ false
      → authenticate_oauth_access_token db io token resource s ≡ (s, err unauthorized)
  unfolding authenticate_oauth_access_token valid_access
  refused_access token resource s a h dead = ground arith

  -- A valid token of a member, for one organization, is accepted.
  pub accepted_access :
      (token resource : Text) (s : Store) (a : AccessTokenRow) (word : String) (role : OrgRole)
      → presented_access db token s.oauth.access_tokens ≡ ok a
      → a.revoked_at ≡ none
      → io.now_utc < a.expires_at
      → a.resource ≡ resource
      → a.all_orgs ≡ false
      → member_role a.org_id a.user_id s.members ≡ some word
      → org_role_from_db word ≡ ok role
      → authenticate_oauth_access_token db io token resource s ≡ (
        touch_access db io a s,
        ok (
            org (record {
              org_id = a.org_id;
              user_id = a.user_id;
              actor_type = ActorType.agent;
              org_role = role;
            })),
      )
  unfolding authenticate_oauth_access_token valid_access member_context
  accepted_access token resource s a word role h1 h2 h3 h4 h5 h6 h7 = ground arith

  -- A token of a family without live tokens is refused.
  pub dead_access :
      (token resource : Text) (client_id user_id org_id : ℕ) (s : Store) (a : AccessTokenRow)
      → presented_access db token s.oauth.access_tokens ≡ ok a
      → any (live_access client_id user_id org_id) s.oauth.access_tokens ≡ false
      → a.client_id ≡ client_id
      → a.user_id ≡ user_id
      → a.org_id ≡ org_id
      → authenticate_oauth_access_token db io token resource s ≡ (s, err unauthorized)
  unfolding presented_access matching
  dead_access token resource client_id user_id org_id s a h dead same_client same_user same_org =
      let (_, listed, _) =
        presented-eq-ok db (λ r. r.token_prefix) (λ r. r.token_hash) access_token_scheme
          unauthorized token s.oauth.access_tokens a h in
      let gone =
        find-filter-any _ _ (live_access client_id user_id org_id) s.oauth.access_tokens a dead
          listed in
      refused_access token resource s a h (ground arith)
