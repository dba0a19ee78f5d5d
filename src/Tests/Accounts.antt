-- ===== src/Tests/Accounts.antt =====
-- Members, sessions, invitations and share links on concrete inputs.
use md_manager.Base.{
  false, ltb, ℕ, String, none, some, List, [], ◌∷◌, ◌≡◌, ◌≢◌, refl, filter, nat_eq, bytes_eq,
  string_eq, ℕ_discrete, arith,
}
use md_manager.Fault.{Result, ok, err, not_found}
use md_manager.Model.{
  OrgRole, ActorType, AuthContext, rank, capability, org_role_from_db, org_role_as_str,
  role_from_db, actor_type_as_str,
}
use md_manager.Rbac.{require_admin, require, effective_role, fold_max, resolve_doc_role}
use md_manager.Text.{
  lit, len, len_utf8, starts_with, trim, trim_start, trim_end, is_whitespace, contains_char,
}
use md_manager.Crypto.{
  generate_token, generate_share_token, slice_to, hash_token, hmac_hex, token_prefix, verify_token,
}
use md_manager.Db.{Inputs}
use md_manager.Db.Access.{
  team_ids, grant_applies, granted_roles, has_deny, parse_roles, effective_doc_role, may_doc,
  authorize_doc,
}
use md_manager.Db.Authentication.{member_role, authenticate_api_key}
use md_manager.Db.Invitations.{
  InvitationCreated, create_invitation, invitation_row, insert_invitation, into_invitation,
  accept_invitation_by_token, presented_invitation, join_org, mark_accepted, accepted_rows,
  add_member,
}
use md_manager.Db.Invitations.Laws.{
  accept_invitation_by_token-member_role, accept_invitation_by_token-not_found,
}
use md_manager.Db.Lookup.{matching, presented}
use md_manager.Db.Members.{
  owner_row, current_role, assert_not_last_owner, keeps_owner, set_role, delete_member, change_role,
  update_member_role, remove_member,
}
use md_manager.Db.Members.History.{
  MemberRequest, set_member_role, remove, perform_member, serve_members, HasOwner,
  serve_members-HasOwner, perform_member-owner_rows,
}
use md_manager.Db.Members.Owners.{IsKeyed}
use md_manager.Db.Members.Roster.{Steps, roster, serve_members-Steps}
use md_manager.Db.Members.Removal.{remove_member-locked_out}
use md_manager.Db.Oauth.Access.{
  org, authenticate_oauth_access_token, valid_access, presented_access, member_context,
}
use md_manager.Db.Organizations.{Organization, into_organization}
use md_manager.Db.Rows.{update_rows, insert_row}
use md_manager.Db.Sessions.{
  insert_by_time, sort_by_time, joined, collect_orgs, list_user_orgs, chosen_org,
  authenticate_session, authenticate_oauth_user_in_org,
}
use md_manager.Db.Sessions.Laws.{IsMine, authenticate_session-IsMine}
use md_manager.Db.Shares.{
  Outside, ShareLinkCreated, share_link_info, shared_document, normalized, recipient_emails,
  add_recipients, link_expiry, check_expiry, link_row, insert_link, insert_recipients,
  create_share_link, mark_link_revoked, revoke_share_link,
}
use md_manager.Db.Shares.Laws.{IsShown, resolve_share_link-IsShown}
use md_manager.Db.Shares.Links.{create_share_link-resolve, revoke_share_link-not_found}
use md_manager.Db.Shares.Resolve.{
  presented_link, members_gate, emails_gate, audience_gate, resolve_share_link,
}
use md_manager.Db.Statements.{audit}
use md_manager.Db.Tables.{Store}
use md_manager.Db.Tables.Accounts.{InvitationRow, ShareLinkRow}
use md_manager.Db.Tx.{◌>>=◌, commit}
use md_manager.Db.Versions.{find_live}
use md_manager.Tests.Data.{db, io, io_later, alice, carol, plan, store}

-- The operations: a proof that opens this one opens them all.
unfoldable run : ℕ → ℕ
unfolding require_admin require effective_role capability rank fold_max resolve_doc_role
    generate_token generate_share_token slice_to hash_token hmac_hex token_prefix verify_token
    team_ids grant_applies granted_roles has_deny parse_roles effective_doc_role may_doc
    authorize_doc member_role create_invitation invitation_row insert_invitation into_invitation
    accept_invitation_by_token presented_invitation join_org mark_accepted accepted_rows add_member
    into_organization matching presented current_role assert_not_last_owner keeps_owner set_role
    delete_member change_role update_member_role remove_member perform_member serve_members
    insert_by_time sort_by_time joined collect_orgs list_user_orgs chosen_org authenticate_session
    share_link_info shared_document normalized recipient_emails add_recipients link_expiry
    check_expiry link_row insert_link insert_recipients create_share_link mark_link_revoked
    revoke_share_link presented_link members_gate emails_gate audience_gate resolve_share_link
    find_live audit ◌>>=◌ commit update_rows insert_row len len_utf8 starts_with trim trim_start
    trim_end is_whitespace contains_char org_role_from_db org_role_as_str role_from_db
    actor_type_as_str ℕ_discrete bytes_eq string_eq
run n = n

abbrev dana : AuthContext
dana = record { org_id = 1; user_id = 13; actor_type = ActorType.user; org_role = OrgRole.owner }

-- An organization with an owner and a member, and a user who is in none.
abbrev team : Store
team = record store {
  members =
      record { org_id = 1; user_id = 13; role = "owner" }
      ∷ record { org_id = 1; user_id = 12; role = "member" }
      ∷ [];
  accounts = record store.accounts {
    users =
        record {
          id = 30;
          email = lit "erin@x.org";
          display_name = lit "Erin";
          google_sub = none;
          logto_sub = none;
        }
        ∷ [];
  };
}

abbrev left {ℓ} : {A : Type ℓ} → Result (A × Store) → Store
left (ok (a, t)) = t
left (err e) = store

team-IsKeyed : IsKeyed team.members
team-IsKeyed = λ o u. ground arith

-- The same with an access token of the member, who uses it before the removal.
abbrev connected : Store
connected = record team {
  oauth = record team.oauth {
    access_tokens =
        record {
          id = 40;
          token_prefix = lit "mo_89abcdef";
          token_hash = lit "peppermo_89abcdef01";
          client_id = 1;
          user_id = 12;
          org_id = 1;
          scope = lit "mcp";
          resource = lit "https://mcp";
          all_orgs = false;
          expires_at = 9000;
          last_used_at = none;
          revoked_at = none;
        }
        ∷ [];
  };
}

abbrev agent_of_member : AuthContext
agent_of_member = record {
  org_id = 1;
  user_id = 12;
  actor_type = ActorType.agent;
  org_role = OrgRole.member;
}

connected_before :
    (authenticate_oauth_access_token db io_later
      (lit "mo_89abcdef01")
      (lit "https://mcp")
      connected).1
    ≡ ok (org agent_of_member)
unfolding run authenticate_oauth_access_token valid_access presented_access member_context
connected_before = refl

abbrev removal : Result (Unit {0} × Store)
removal = remove_member io dana 12 connected

locked_out_example :
    ((authenticate_api_key db io_later (lit "mk_89abcdef01") (left removal)).1 ≢ ok agent_of_member)
    × ((authenticate_oauth_access_token db io_later
          (lit "mo_89abcdef01")
          (lit "https://mcp")
          (left removal)).1
        ≢ ok (org agent_of_member))
    × (authenticate_oauth_user_in_org (λ k. []) 12 (lit "acme") (left removal) ≢ ok agent_of_member)
unfolding run
locked_out_example =
    remove_member-locked_out db io io_later dana 12 connected (left removal) refl (λ k. [])
      (lit "mk_89abcdef01") (lit "mo_89abcdef01") (lit "https://mcp") (lit "acme") 12
      agent_of_member refl refl

abbrev history : List (Inputs × AuthContext × MemberRequest)
history =
    (io, dana, set_member_role 12 OrgRole.owner)
    ∷ (io_later, dana, remove 13)
    ∷ (io_later, dana, remove 12)
    ∷ []

owners_example : HasOwner 1 (serve_members history team)
unfolding ℕ_discrete string_eq
owners_example =
    serve_members-HasOwner 1 history team (record { key = team-IsKeyed; owned = omega arith })

history_example : Steps history (roster team.members) (roster (serve_members history team).members)
history_example = serve_members-Steps history team

abbrev demotion : Result (Unit {0} × Store)
demotion = perform_member io carol (set_member_role 12 OrgRole.viewer) team

owner_rows_example :
    filter (owner_row 1) (left demotion).members ≡ filter (owner_row 1) team.members
unfolding run
owner_rows_example =
    perform_member-owner_rows io carol (set_member_role 12 OrgRole.viewer) 1 team (left demotion)
      team-IsKeyed refl refl

session_example :
    (dana.user_id ≡ 13)
    × (dana.actor_type ≡ ActorType.user)
    × IsMine 13 team.members team.accounts.organizations 1 OrgRole.owner
unfolding run
session_example = authenticate_session-IsMine 13 none team dana refl

abbrev inviting : Result (InvitationCreated × Store)
inviting = create_invitation db io dana (lit "erin@x.org") OrgRole.viewer team

abbrev joining : Result (Organization × Store)
joining = accept_invitation_by_token db io_later 30 (lit "inv_0123456789ab") (left inviting)

abbrev org_of : Result (Organization × Store) → Organization
org_of (ok (o, t)) = o
org_of (err e) = record { id = 0; slug = []; name = []; created_at = 0 }

abbrev invite_of : Result InvitationRow → InvitationRow
invite_of (ok i) = i
invite_of (err e) = record {
  id = 0;
  org_id = 0;
  email = [];
  role = "";
  token_hash = [];
  token_prefix = [];
  invited_by = 0;
  created_at = 0;
  expires_at = none;
  accepted_at = none;
  revoked_at = none;
}

abbrev invite : InvitationRow
invite = invite_of (presented_invitation db io_later (lit "inv_0123456789ab") (left inviting))

joined_example :
    ((member_role invite.org_id 30 (left inviting).members ≡ none)
      → member_role invite.org_id 30 (left joining).members ≡ some invite.role)
    × ((o u : ℕ) (word : String)
        → member_role o u (left inviting).members ≡ some word
        → member_role o u (left joining).members ≡ some word)
unfolding run
joined_example =
    accept_invitation_by_token-member_role db io_later 30 (lit "inv_0123456789ab") (left inviting)
      (left joining) (org_of joining) invite refl refl

accepted_example :
    accept_invitation_by_token db io 12 (lit "inv_0123456789ab") (left joining) ≡ err not_found
unfolding run
accepted_example =
    accept_invitation_by_token-not_found db io_later io 30 12 (lit "inv_0123456789ab")
      (left inviting) (left joining) (org_of joining) (λ prefix. ground arith) refl

abbrev outside : Outside
outside = record { to_lowercase = λ t. t; lower = λ t. t; fits = λ now days. ltb days 4000000 }

abbrev sharing : Result (ShareLinkCreated × Store)
sharing = create_share_link outside db io alice 5 "public" [] (some 7) store

abbrev shared_of : Result (ShareLinkCreated × Store) → ShareLinkCreated
shared_of (ok (c, t)) = c
shared_of (err e) = record {
  info = record {
    id = 0;
    document_id = 0;
    token_prefix = [];
    audience = "";
    created_at = 0;
    expires_at = none;
    revoked_at = none;
  };
  token = [];
}

shared_example :
    resolve_share_link outside db io_later (shared_of sharing).token none (left sharing)
    ≡ ok (shared_document plan)
unfolding run
shared_example =
    create_share_link-resolve outside db io alice io_later 5 [] (some 7) none (lit "01234567")
      (lit "89ab") store (left sharing) (shared_of sharing) plan refl refl refl refl refl

shown_example :
    IsShown outside db io_later (lit "sl_0123456789ab") none (left sharing) (shared_document plan)
unfolding run
shown_example =
    resolve_share_link-IsShown outside db io_later (lit "sl_0123456789ab") none (left sharing)
      (shared_document plan) refl

abbrev unsharing : Result (Unit {0} × Store)
unsharing = revoke_share_link outside db io_later alice 100 (left sharing)

abbrev link_of : Result ShareLinkRow → ShareLinkRow
link_of (ok l) = l
link_of (err e) = record {
  id = 0;
  org_id = 0;
  document_id = 0;
  token_prefix = [];
  token_hash = [];
  audience = "";
  created_by = 0;
  created_at = 0;
  expires_at = none;
  revoked_at = none;
}

unshared_example :
    resolve_share_link outside db io (lit "sl_0123456789ab") none (left unsharing) ≡ err not_found
unfolding run
unshared_example =
    revoke_share_link-not_found outside db io_later alice io 100 (lit "sl_0123456789ab") none
      (left sharing) (left unsharing)
      (link_of (presented_link db (lit "sl_0123456789ab") (left unsharing).accounts.share_links))
      refl refl refl refl
