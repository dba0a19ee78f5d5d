-- ===== src/Db/Members/Removal.antt =====
-- A removed member is locked out: neither a key nor a connector acts for the member any more.
use md_manager.Base.{ℕ, Bool, none, List, [], ◌∷◌, ◌≡◌, ◌≢◌, refl, ap, ◌∙◌, arith, find, nat_eq}
use md_manager.Fault.{ok}
use md_manager.Text.{Text}
use md_manager.Model.{AuthContext}
use md_manager.Db.{Db, Inputs}
use md_manager.Db.Authentication.{member_role, authenticate_api_key}
use md_manager.Db.Authentication.Laws.{authenticate_api_key-IsBacked}
use md_manager.Db.Oauth.Access.{org, authenticate_oauth_access_token}
use md_manager.Db.Oauth.Access.Laws.{authenticate_oauth_access_token-IsBackedAccess}
use md_manager.Db.Rows.{delete_rows}
use md_manager.Db.Sessions.{authenticate_oauth_user_in_org}
use md_manager.Db.Sessions.Laws.{authenticate_oauth_user_in_org-IsMine}
use md_manager.Db.Members.Laws.{remove_member-IsRemoved}
use md_manager.Db.Tables.{Store, MemberRow}
use md_manager.Db.Members.{remove_member, is_membership}

find-delete_rows :
    (p : MemberRow → Bool) (rows : List MemberRow) → find p (delete_rows p rows) ≡ none
find-delete_rows p [] = refl
find-delete_rows p (m ∷ rows) = ground (arith, find-delete_rows p rows)

pub member_role-delete_rows :
    (org_id user_id : ℕ) (rows : List MemberRow)
    → member_role org_id user_id (delete_rows (is_membership org_id user_id) rows) ≡ none
unfolding member_role
member_role-delete_rows org_id user_id rows =
    rw (find-delete_rows (is_membership org_id user_id) rows, member_role) refl

pair : {A B : Type 0} {x : A × B} {b : B} → x.1 ≡ b → x ≡ (x.0, b)
pair {A} {B} {x} e = ap (λ y. (x.0, y)) e

-- No API key and no access token acts for a removed member in the organization: whatever is
-- presented, at whatever time, neither a key, nor a token for one organization, nor the user of a
-- token for all organizations with whatever text names the organization, yields a context of the
-- member in that organization.
pub remove_member-locked_out :
    (db : Db) (io io' : Inputs) (ctx : AuthContext) (target : ℕ) (s t : Store)
    → remove_member io ctx target s ≡ ok (tt, t)
    → (uuid_text : ℕ → Text) (secret token resource org_ref : Text) (user_id : ℕ) (c : AuthContext)
    → c.org_id ≡ ctx.org_id
    → c.user_id ≡ target
    → ((authenticate_api_key db io' secret t).1 ≢ ok c)
      × ((authenticate_oauth_access_token db io' token resource t).1 ≢ ok (org c))
      × (authenticate_oauth_user_in_org uuid_text user_id org_ref t ≢ ok c)
remove_member-locked_out db io io' ctx target s t h uuid_text secret token resource org_ref user_id
      c same_org same_user =
    let gone : member_role ctx.org_id target t.members ≡ none =
      ap (member_role ctx.org_id target) (remove_member-IsRemoved io ctx target s t h).members
      ∙ member_role-delete_rows ctx.org_id target s.members in
    (
      (λ e.
          let b = authenticate_api_key-IsBacked db io' secret t _ c (pair e) in
          let m = b.membership in let (p1, p2, _) = b.principal in ground arith),
      (λ e.
          let b =
            authenticate_oauth_access_token-IsBackedAccess db io' token resource t _ c (pair e) in
          let m = b.membership in let (p1, p2, _) = b.principal in ground arith),
      (λ e.
          let (p, _, mine) =
            authenticate_oauth_user_in_org-IsMine uuid_text user_id org_ref t c e in
          let m = mine.membership in ground arith),
    )
