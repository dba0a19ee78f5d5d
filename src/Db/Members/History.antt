-- ===== src/Db/Members/History.antt =====
-- Histories of role changes and removals: an organization that has an owner keeps one, and only
-- owners decide who owns it.
use md_manager.Base.{
  ℕ, ◌≤◌, false, List, [], ◌∷◌, ◌≡◌, refl, arith, filter, ◌==◌, nat_eq, string_eq, Bool-cases, inl,
  inr,
}
use md_manager.Fault.{ok}
use md_manager.Model.{OrgRole, AuthContext, rank, org_role_as_str}
use md_manager.Db.{Inputs}
use md_manager.Db.Rows.Counts.{single-delete_rows, single-update_rows}
use md_manager.Db.Tables.{Store}
use md_manager.Db.Tx.{Tx, commit, commit_elim}
use md_manager.Db.Members.{
  remove_member, update_member_role, is_membership, count_owners, is_owner, owner_row,
}
use md_manager.Db.Members.Laws.{remove_member-IsRemoved, update_member_role-IsChanged}
use md_manager.Db.Members.Owners.{
  IsKeyed, remove_member-owned, update_member_role-owned, delete_rows-IsKeyed, update_rows-IsKeyed,
  current_role_lem, owner_row_plain,
}

-- The requests that change the membership of existing members.
pub data MemberRequest : Type 0 where
  set_member_role : ℕ → OrgRole → MemberRequest
  remove : ℕ → MemberRequest

unfoldable pub perform_member : Inputs → AuthContext → MemberRequest → Tx (Unit {0})
perform_member io ctx (set_member_role target role) = update_member_role io ctx target role
perform_member io ctx (remove target) = remove_member io ctx target

unfoldable pub serve_members : List (Inputs × AuthContext × MemberRequest) → Store → Store
unfolding perform_member commit
serve_members [] s = s
serve_members ((io, ctx, r) ∷ rest) s = serve_members rest (commit (perform_member io ctx r) s).0

-- What an organization's roster guarantees.
pub record HasOwner (o : ℕ) (s : Store) : Type 0 where
  pub key : IsKeyed s.members
  pub owned : 1 ≤ count_owners o s.members

perform_member-HasOwner :
    (io : Inputs) (ctx : AuthContext) (r : MemberRequest) (o : ℕ) (s t : Store) {u : Unit {0}}
    → HasOwner o s
    → perform_member io ctx r s ≡ ok (u, t)
    → HasOwner o t
unfolding perform_member
perform_member-HasOwner io ctx (set_member_role target role) o s t x h =
    let y = update_member_role-IsChanged io ctx target s t role h in
    record {
      key = rw y.members (elim (Bool-cases (rank y.current == rank role)) [
        | inl same ↦ rw same x.key
        | inr differs ↦ rw differs (update_rows-IsKeyed _ _ s.members x.key)
      ]);
      owned = update_member_role-owned io ctx target s t x.key o x.owned role h;
    }
perform_member-HasOwner io ctx (remove target) o s t x h =
    let y = remove_member-IsRemoved io ctx target s t h in
    record {
      key = rw y.members (delete_rows-IsKeyed _ s.members x.key);
      owned = remove_member-owned io ctx target s t x.key o x.owned h;
    }

perform_member-kept :
    (io : Inputs) (ctx : AuthContext) (r : MemberRequest) (o : ℕ) (s : Store)
    → HasOwner o s
    → HasOwner o (commit (perform_member io ctx r) s).0
perform_member-kept io ctx r o s x =
    commit_elim (HasOwner o) (perform_member io ctx r) s x
      (λ a t e. perform_member-HasOwner io ctx r o s t x e)

-- An organization with an owner has one after every history of role changes and removals, by
-- whatever callers, of its own or of others, and whether the requests commit or fail.
pub serve_members-HasOwner :
    (o : ℕ) (history : List (Inputs × AuthContext × MemberRequest)) (s : Store)
    → HasOwner o s
    → HasOwner o (serve_members history s)
unfolding serve_members
serve_members-HasOwner o [] s x = x
serve_members-HasOwner o ((io, ctx, r) ∷ rest) s x =
    serve_members-HasOwner o rest _ (perform_member-kept io ctx r o s x)

-- Only owners decide who owns an organization: a request by a caller who is not an owner leaves
-- every organization's owner rows as they are, in order, where members are listed once.
pub perform_member-owner_rows :
    (io : Inputs) (ctx : AuthContext) (r : MemberRequest) (o : ℕ) (s t : Store)
    → IsKeyed s.members
    → is_owner ctx.org_role ≡ false
    → perform_member io ctx r s ≡ ok (tt, t)
    → filter (owner_row o) t.members ≡ filter (owner_row o) s.members
unfolding perform_member
perform_member-owner_rows io ctx (remove target) o s t key plain h =
    let x = remove_member-IsRemoved io ctx target s t h in
    let (m, found, apart) = current_role_lem ctx.org_id target s x.current x.current_read in
    let a = x.allowed in
    rw x.members (
      single-delete_rows (is_membership ctx.org_id target) (owner_row o) s.members m found
        (key ctx.org_id target) (apart o (ground arith)))
perform_member-owner_rows io ctx (set_member_role target role) o s t key plain h =
    let x = update_member_role-IsChanged io ctx target s t role h in
    let (m, found, apart) = current_role_lem ctx.org_id target s x.current x.current_read in
    let a = x.allowed in
    let kept =
      single-update_rows (is_membership ctx.org_id target) (owner_row o)
        (λ m. record m { role = org_role_as_str role }) s.members m found (key ctx.org_id target)
        (apart o (ground arith)) (owner_row_plain o m role (ground arith)) in
    rw x.members (elim (Bool-cases (rank x.current == rank role)) [
      | inl same ↦ rw same refl
      | inr differs ↦ rw differs kept
    ])
