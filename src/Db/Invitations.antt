-- ===== src/Db/Invitations.antt =====
-- crates/db/src/social.rs: invitations to an organization, by link and by email. PostgreSQL's
-- `lower` is a parameter.
pub mod Laws
use md_manager.Base.{
  ℕ, ◌+◌, ◌*◌, String, Bool, true, false, not, ◌&&◌, ◌||◌, Option, none, some, List, [], ◌∷◌,
  filter, find, any, ltb, ◌==◌, nat_eq, bytes_eq, if◌then◌else◌,
}
use md_manager.Fault.{not_found, invalid, already_exists, Result, ok, err, ok_or, guard}
use md_manager.Text.{Text, lit, trim, is_empty}
use md_manager.Crypto.{hash_token, token_prefix, verify_token, generate_token, GeneratedKey}
use md_manager.Model.{OrgRole, AuthContext, org_role_as_str, org_role_from_db}
use md_manager.Rbac.{require_admin}
use md_manager.Db.{Db, Inputs, seconds}
use md_manager.Db.Members.{is_membership, is_owner}
use md_manager.Db.Organizations.{Organization, into_organization, is_user}
use md_manager.Db.Rows.{update_rows, insert_row}
use md_manager.Db.Statements.{is_live}
use md_manager.Db.Tables.{Store, MemberRow}
use md_manager.Db.Tables.Accounts.{InvitationRow, OrganizationRow}
use md_manager.Db.Tx.{Tx, pure, query, write, lift, ◌>>=◌, ◌>>◌}

abbrev pub invitation_scheme : Text
invitation_scheme = lit "inv"

pub record Invitation : Type 0 where
  pub id : ℕ
  pub org_id : ℕ
  pub email : Text
  pub role : OrgRole
  pub created_at : ℕ
  pub expires_at : Option ℕ

pub record InvitationCreated : Type 0 where
  pub invitation : Invitation
  pub token : Text

-- `InvitationRow::into_core`
unfoldable pub into_invitation : InvitationRow → Result Invitation
unfolding org_role_from_db
into_invitation r = elim (org_role_from_db r.role) [
  | ok role ↦ ok (record {
    id = r.id;
    org_id = r.org_id;
    email = r.email;
    role = role;
    created_at = r.created_at;
    expires_at = r.expires_at;
  })
  | err e ↦ err e
]

-- `expires_at IS NULL OR expires_at > now()`
abbrev pub not_over : Inputs → Option ℕ → Bool
not_over io none = true
not_over io (some exp) = ltb io.db_now exp

-- `accepted_at IS NULL AND revoked_at IS NULL`, and not expired
abbrev pub is_open : Inputs → InvitationRow → Bool
is_open io i = is_live i.accepted_at && (is_live i.revoked_at && not_over io i.expires_at)

-- `INSERT INTO organization_members … ON CONFLICT DO NOTHING`
unfoldable pub add_member : ℕ → ℕ → String → List MemberRow → List MemberRow
add_member org_id user_id role rows =
    if any (is_membership org_id user_id) rows
    then rows
    else record { org_id = org_id; user_id = user_id; role = role } ∷ rows

-- `UPDATE org_invitations SET accepted_at = now() WHERE id = $1`
unfoldable pub accepted_rows : Inputs → ℕ → List InvitationRow → List InvitationRow
unfolding update_rows
accepted_rows io invite_id =
    update_rows (λ i. i.id == invite_id) (λ i. record i { accepted_at = some io.db_now })

module _ (db : Db) (io : Inputs) where
  -- The row that `create_invitation` inserts.
  unfoldable pub invitation_row : AuthContext → Text → OrgRole → GeneratedKey → InvitationRow
  invitation_row ctx email role token = record {
    id = io.new_id 0;
    org_id = ctx.org_id;
    email = email;
    role = org_role_as_str role;
    token_hash = hash_token db.hashes db.pepper token.secret;
    token_prefix = token.prefix;
    invited_by = ctx.user_id;
    created_at = io.db_now;
    expires_at = some (io.db_now + seconds (14 * 86400));
    accepted_at = none;
    revoked_at = none;
  }

  unfoldable pub insert_invitation : InvitationRow → Tx (Unit {0})
  insert_invitation row = write λ s.
      elim (insert_row "org_invitations_prefix"
        (λ i. i.id == row.id || i.token_prefix == row.token_prefix) row s.accounts.invitations) [
          | ok rows ↦ ok (record s { accounts = record s.accounts { invitations = rows } })
          | err e ↦ err e
        ]

  unfoldable pub create_invitation : AuthContext → Text → OrgRole → Tx InvitationCreated
  create_invitation ctx email role = do
    lift (require_admin ctx)
    lift (guard (not (is_empty (trim email))) (invalid "email is required"))
    lift (guard (not (is_owner role)) (invalid "cannot invite someone as owner"))
    token ← lift (generate_token invitation_scheme (io.random_hex 0))
    let row = invitation_row ctx (trim email) role token
    insert_invitation row
    invitation ← lift (into_invitation row)
    pure (record { invitation = invitation; token = token.secret })

  -- `WHERE id = $1 AND org_id = $2 AND revoked_at IS NULL AND accepted_at IS NULL`
  abbrev pub is_revocable : AuthContext → ℕ → InvitationRow → Bool
  is_revocable ctx invite_id i =
      i.id == invite_id
      && (i.org_id == ctx.org_id && (is_live i.revoked_at && is_live i.accepted_at))

  unfoldable pub mark_invitation_revoked : AuthContext → ℕ → Tx (Unit {0})
  unfolding update_rows
  mark_invitation_revoked ctx invite_id = write λ s.
      if not (any (is_revocable ctx invite_id) s.accounts.invitations)
      then err not_found
      else ok (record s {
        accounts = record s.accounts {
          invitations =
              update_rows (is_revocable ctx invite_id)
                (λ i. record i { revoked_at = some io.db_now }) s.accounts.invitations;
        };
      })

  unfoldable pub revoke_invitation : AuthContext → ℕ → Tx (Unit {0})
  unfolding mark_invitation_revoked
  revoke_invitation ctx invite_id = do
    lift (require_admin ctx)
    mark_invitation_revoked ctx invite_id

  -- The open invitation with the token's prefix, if it has the token's hash.
  unfoldable pub presented_invitation : Text → Store → Result InvitationRow
  unfolding token_prefix verify_token
  presented_invitation token s = elim (token_prefix invitation_scheme token) [
    | err e ↦ err e
    | ok none ↦ err not_found
    | ok (some prefix) ↦
        elim (find (λ i. i.token_prefix == prefix && is_open io i) s.accounts.invitations) [
          | none ↦ err not_found
          | some i ↦
              if verify_token db.hashes db.pepper token i.token_hash then ok i else err not_found
        ]
  ]

  -- The new member; the user is a foreign key.
  unfoldable pub join_org : ℕ → ℕ → String → Tx (Unit {0})
  unfolding add_member
  join_org org_id user_id role = write λ s.
      if not (is_user user_id s)
      then err (invalid "referenced resource does not exist")
      else ok (record s { members = add_member org_id user_id role s.members })

  unfoldable pub mark_accepted : ℕ → Tx (Unit {0})
  unfolding accepted_rows
  mark_accepted invite_id = write λ s. ok (record s {
    accounts = record s.accounts {
      invitations = accepted_rows io invite_id s.accounts.invitations;
    };
  })

  -- The source commits the membership before it marks the invitation; nothing between them fails.
  unfoldable pub accept_invitation_by_token : ℕ → Text → Tx Organization
  accept_invitation_by_token user_id token = do
    invite ← query (presented_invitation token)
    join_org invite.org_id user_id invite.role
    org ← query (λ s. ok_or (find (λ o. o.id == invite.org_id) s.accounts.organizations) not_found)
    mark_accepted invite.id
    pure (into_organization org)

module _ (io : Inputs) where
  -- The loop over the open invitations of an email address.
  unfoldable pub accept_each : ℕ → List InvitationRow → Store → Store
  unfolding add_member accepted_rows
  accept_each user_id [] s = s
  accept_each user_id (i ∷ rest) s = accept_each user_id rest (record s {
    members = add_member i.org_id user_id i.role s.members;
    accounts = record s.accounts { invitations = accepted_rows io i.id s.accounts.invitations };
  })

  unfoldable pub accept_invitations_for : (Text → Text) → ℕ → Text → Store → Store
  unfolding accept_each
  accept_invitations_for lower user_id email s =
      accept_each user_id
        (filter (λ i. lower i.email == lower email && is_open io i) s.accounts.invitations) s
