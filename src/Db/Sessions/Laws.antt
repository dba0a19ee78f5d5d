-- ===== src/Db/Sessions/Laws.antt =====
-- A session, and a connector for all organizations, act only in an organization that the user is
-- a member of, with the role of that membership.
use md_manager.Base.{
  ℕ, String, Bool, true, ◌&&◌, ◌||◌, Option, none, some, List, [], ◌∷◌, ◌≡◌, refl, sym, ap, ◌∙◌,
  arith, find, any, subst, ◌==◌, nat_eq, bytes_eq, if◌then◌else◌, Bool-cases, Option-cases, inl,
  inr, All,
}
use md_manager.Fault.{ok, Result-cases}
use md_manager.Text.{Text}
use md_manager.Model.{OrgRole, ActorType, AuthContext, org_role_from_db}
use md_manager.Db.Authentication.{member_role}
use md_manager.Db.Statements.{is_live}
use md_manager.Db.Tables.{Store, MemberRow}
use md_manager.Db.Tables.Accounts.{OrganizationRow}
use md_manager.Db.Sessions.{
  insert_by_time, sort_by_time, UserOrg, list_user_orgs, collect_orgs, joined, authenticate_session,
  chosen_org, authenticate_oauth_user_in_org,
}

-- Sorting keeps the rows.
any-insert_by_time :
    (p : OrganizationRow → Bool) (o : OrganizationRow) (rows : List OrganizationRow)
    → any p (insert_by_time o rows) ≡ (p o || any p rows)
unfolding insert_by_time
any-insert_by_time p o [] = refl
any-insert_by_time p o (r ∷ rows) = let rest = any-insert_by_time p o rows in ground arith

any-sort_by_time :
    (p : OrganizationRow → Bool) (rows : List OrganizationRow)
    → any p (sort_by_time rows) ≡ any p rows
unfolding sort_by_time
any-sort_by_time p [] = refl
any-sort_by_time p (r ∷ rows) =
    any-insert_by_time p r (sort_by_time rows) ∙ ap (λ b. p r || b) (any-sort_by_time p rows)

-- `o.deleted_at IS NULL`
abbrev pub live_org : ℕ → OrganizationRow → Bool
live_org org_id r = r.id == org_id && is_live r.deleted_at

module _ (user_id : ℕ) (members : List MemberRow) (table : List OrganizationRow) where
  -- A live organization with a membership of the user, which gives the role.
  pub record IsMine (org_id : ℕ) (role : OrgRole) : Type 0 where
    pub word : String
    pub membership : member_role org_id user_id members ≡ some word
    pub role_read : org_role_from_db word ≡ ok role
    pub live : any (live_org org_id) table ≡ true

  Within : List OrganizationRow → Type 0
  Within rows = (p : OrganizationRow → Bool) → any p rows ≡ true → any p table ≡ true

  rest-Within :
      (r : OrganizationRow) (rows : List OrganizationRow) → Within (r ∷ rows) → Within rows
  unfolding Within
  rest-Within r rows sub p h = sub p (ground arith)

  first-IsMine :
      (r : OrganizationRow) (rows : List OrganizationRow) (word : String) (role : OrgRole)
      → Within (r ∷ rows)
      → (if is_live r.deleted_at then member_role r.id user_id members else none) ≡ some word
      → org_role_from_db word ≡ ok role
      → IsMine r.id role
  unfolding Within
  first-IsMine r rows word role sub h k = record {
    word = word;
    membership = ground arith;
    role_read = k;
    live = sub (live_org r.id) (ground arith);
  }

  collect_orgs-joined :
      (rows : List OrganizationRow) (orgs : List UserOrg)
      → Within rows
      → collect_orgs (joined user_id members rows) ≡ ok orgs
      → All (λ o. IsMine o.id o.role) orgs
  unfolding joined collect_orgs
  collect_orgs-joined [] [] sub h = tt
  collect_orgs-joined [] (o ∷ orgs) sub h = absurd (ground arith)
  collect_orgs-joined (r ∷ rows) orgs sub h =
      elim (Option-cases
        (if is_live r.deleted_at then member_role r.id user_id members else none)) [
          | inl e ↦ collect_orgs-joined rows orgs (rest-Within r rows sub) (ground arith)
          | inr (word, e) ↦ elim (Result-cases (org_role_from_db word)) [
            | inr (x, e2) ↦ absurd (ground arith)
            | inl (role, e2) ↦ elim (Result-cases (collect_orgs (joined user_id members rows))) [
              | inr (x, e3) ↦ absurd (ground arith)
              | inl (rest, e3) ↦
                  let more = collect_orgs-joined rows rest (rest-Within r rows sub) e3 in
                  let mine = first-IsMine r rows word role sub e e2 in
                  let whole : record { id = r.id; slug = r.slug; name = r.name; role = role } ∷ rest
                      ≡ orgs =
                    ground arith in
                  subst (All (λ o. IsMine o.id o.role)) whole (mine, more)
            ]
          ]
        ]

  find-All :
      (p : UserOrg → Bool) (orgs : List UserOrg) (o : UserOrg)
      → All (λ o. IsMine o.id o.role) orgs
      → find p orgs ≡ some o
      → IsMine o.id o.role
  find-All p [] o all h = absurd (ground arith)
  find-All p (x ∷ orgs) o (mine, all) h = elim (Bool-cases (p x)) [
    | inl here ↦
        (let same : x ≡ o = ground arith in subst {A = UserOrg} (λ y. IsMine y.id y.role) same mine)
    | inr later ↦ find-All p orgs o all (ground arith)
  ]

-- Every organization that is listed is a live one of the user.
pub list_user_orgs-IsMine :
    (user_id : ℕ) (s : Store) (orgs : List UserOrg)
    → list_user_orgs user_id s ≡ ok orgs
    → All (λ o. IsMine user_id s.members s.accounts.organizations o.id o.role) orgs
unfolding list_user_orgs Within
list_user_orgs-IsMine user_id s orgs h =
    collect_orgs-joined user_id s.members s.accounts.organizations
      (sort_by_time s.accounts.organizations) orgs
      (λ p e. ap (λ b. b) (sym (any-sort_by_time p s.accounts.organizations)) ∙ e) h

chosen_org-IsMine :
    (user_id : ℕ) (org_override : Option ℕ) (s : Store) (orgs : List UserOrg) (o : UserOrg)
    → list_user_orgs user_id s ≡ ok orgs
    → chosen_org org_override orgs ≡ some o
    → IsMine user_id s.members s.accounts.organizations o.id o.role
unfolding chosen_org
chosen_org-IsMine user_id none s [] o h k = absurd (ground arith)
chosen_org-IsMine user_id none s (x ∷ orgs) o h k =
    find-All user_id s.members s.accounts.organizations (λ _. true) (x ∷ orgs) o
      (list_user_orgs-IsMine user_id s (x ∷ orgs) h) k
chosen_org-IsMine user_id (some org_id) s orgs o h k =
    find-All user_id s.members s.accounts.organizations (λ o. o.id == org_id) orgs o
      (list_user_orgs-IsMine user_id s orgs h) k

-- A session acts as its user, in a live organization that the user is now a member of, with the
-- role of that membership.
pub authenticate_session-IsMine :
    (user_id : ℕ) (org_override : Option ℕ) (s : Store) (ctx : AuthContext)
    → authenticate_session user_id org_override s ≡ ok ctx
    → (ctx.user_id ≡ user_id)
      × (ctx.actor_type ≡ ActorType.user)
      × IsMine user_id s.members s.accounts.organizations ctx.org_id ctx.org_role
unfolding authenticate_session
authenticate_session-IsMine user_id org_override s ctx h =
    elim (Result-cases (list_user_orgs user_id s)) [
      | inr (x, e) ↦ absurd (ground arith)
      | inl (orgs, e) ↦ elim (Option-cases (chosen_org org_override orgs)) [
        | inl e2 ↦ absurd (ground arith)
        | inr (o, e2) ↦
            let mine = chosen_org-IsMine user_id org_override s orgs o e e2 in
            (
              ground arith,
              ground arith,
              subst (λ c. IsMine user_id s.members s.accounts.organizations c.org_id c.org_role)
                  {x = record {
                    org_id = o.id;
                    user_id = user_id;
                    actor_type = ActorType.user;
                    org_role = o.role;
                  }}
                  {y = ctx} (ground arith) mine,
            )
      ]
    ]

-- A connector for all organizations acts as its user's agent under the same conditions.
pub authenticate_oauth_user_in_org-IsMine :
    (uuid_text : ℕ → Text) (user_id : ℕ) (org_ref : Text) (s : Store) (ctx : AuthContext)
    → authenticate_oauth_user_in_org uuid_text user_id org_ref s ≡ ok ctx
    → (ctx.user_id ≡ user_id)
      × (ctx.actor_type ≡ ActorType.agent)
      × IsMine user_id s.members s.accounts.organizations ctx.org_id ctx.org_role
unfolding authenticate_oauth_user_in_org
authenticate_oauth_user_in_org-IsMine uuid_text user_id org_ref s ctx h =
    let p : UserOrg → Bool = λ o. o.slug == org_ref || uuid_text o.id == org_ref in
    elim (Result-cases (list_user_orgs user_id s)) [
      | inr (x, e) ↦ absurd (ground arith)
      | inl (orgs, e) ↦ elim (Option-cases (find p orgs)) [
        | inl e2 ↦ absurd (ground arith)
        | inr (o, e2) ↦
            let mine =
              find-All user_id s.members s.accounts.organizations p orgs o
                (list_user_orgs-IsMine user_id s orgs e) e2 in
            (
              ground arith,
              ground arith,
              subst (λ c. IsMine user_id s.members s.accounts.organizations c.org_id c.org_role)
                  {x = record {
                    org_id = o.id;
                    user_id = user_id;
                    actor_type = ActorType.agent;
                    org_role = o.role;
                  }}
                  {y = ctx} (ground arith) mine,
            )
      ]
    ]
