-- ===== src/Db/Members/Laws.antt =====
-- What a change of a role and a removal have checked and done once they have succeeded.
use md_manager.Base.{
  ℕ, ◌≤◌, Bool, true, false, not, ◌&&◌, ◌||◌, ◌≡◌, sym, ap, ◌∙◌, arith, ◌==◌, nat_eq, if◌then◌else◌,
  Bool-cases, inl, inr,
}
use md_manager.Fault.{ok}
use md_manager.Model.{OrgRole, AuthContext, rank, org_role_as_str}
use md_manager.Rbac.{require_admin}
use md_manager.Db.{Inputs}
use md_manager.Db.Rows.{update_rows, delete_rows}
use md_manager.Db.Statements.Laws.{write-eq-ok, audit_lem}
use md_manager.Db.Tables.{Store}
use md_manager.Db.Tx.{bind_elim, query-eq-ok, pure-eq-ok}
use md_manager.Db.Members.{
  remove_member, update_member_role, change_role, delete_member, set_role, is_membership,
  current_role, keeps_owner, assert_not_last_owner, count_owners, is_owner,
}

keeps_owner_lem :
    (loses : Bool) (org_id : ℕ) (s : Store) {u : Unit {0}}
    → keeps_owner loses org_id s ≡ ok u
    → loses ≡ true
    → 2 ≤ count_owners org_id s.members
unfolding keeps_owner assert_not_last_owner
keeps_owner_lem loses org_id s h e = ground arith

module _ (io : Inputs) (ctx : AuthContext) (target : ℕ) (s t : Store) {u : Unit {0}} where
  pub record IsRemoved : Type 0 where
    pub admin : require_admin ctx ≡ ok tt
    pub current : OrgRole
    pub current_read : current_role ctx.org_id target s ≡ ok current
    pub allowed : (is_owner current && not (is_owner ctx.org_role)) ≡ false
    pub spare : is_owner current ≡ true → 2 ≤ count_owners ctx.org_id s.members
    pub members : t.members ≡ delete_rows (is_membership ctx.org_id target) s.members

  pub remove_member-IsRemoved : remove_member io ctx target s ≡ ok (u, t) → IsRemoved
  unfolding remove_member delete_member
  remove_member-IsRemoved h = bind_elim _ _ _ h λ _ s1 e1 h1. bind_elim _ _ _ h1 λ current s2 e2 h2.
      bind_elim _ _ _ h2 λ _ s3 e3 h3. bind_elim _ _ _ h3 λ _ s4 e4 h4.
        bind_elim _ _ _ h4 λ _ s5 e5 h5.
          let (q1, p1) = query-eq-ok _ s e1 in
          let (q2, p2) = query-eq-ok _ s1 e2 in
          let (q3, p3) = query-eq-ok _ s2 e3 in
          let (q4, p4) = query-eq-ok _ s3 e4 in
          let w = write-eq-ok _ s4 e5 in
          let a = audit_lem ctx s5 io (io.new_id 0) _ _ _ h5 in
          let back3 : s3 ≡ s = p3 ∙ p2 ∙ p1 in
          let back4 : s4 ≡ s = p4 ∙ back3 in
          let spare = keeps_owner_lem (is_owner current) ctx.org_id s3 q4 in
          record {
            admin = q1;
            current = current;
            current_read = ap (current_role ctx.org_id target) (sym p1) ∙ q2;
            allowed = ground arith;
            spare = rw (sym back3) spare;
            members =
                ap (λ x. x.members) a
                ∙ ground arith
                ∙ ap (λ x. delete_rows (is_membership ctx.org_id target) x.members) back4;
          }

  pub record IsChanged (new_role : OrgRole) : Type 0 where
    pub admin : require_admin ctx ≡ ok tt
    pub current : OrgRole
    pub current_read : current_role ctx.org_id target s ≡ ok current
    pub allowed : ((is_owner current || is_owner new_role) && not (is_owner ctx.org_role)) ≡ false
    pub spare :
        (is_owner current && not (is_owner new_role)) ≡ true → 2 ≤ count_owners ctx.org_id s.members
    pub members : t.members ≡ (
        if rank current == rank new_role
        then s.members
        else update_rows
            (is_membership ctx.org_id target)
            (λ m. record m { role = org_role_as_str new_role })
            s.members)

  change_role_lem :
      (current new_role : OrgRole) (s' : Store)
      → change_role io ctx target current new_role s' ≡ ok (u, t)
      → t.members ≡ (
          if rank current == rank new_role
          then s'.members
          else update_rows
              (is_membership ctx.org_id target)
              (λ m. record m { role = org_role_as_str new_role })
              s'.members)
  unfolding change_role set_role
  change_role_lem current new_role s' h = elim (Bool-cases (rank current == rank new_role)) [
    | inl same ↦ (let p = pure-eq-ok tt u s' t (rw same at h) in rw same (ap (λ x. x.members) p.1))
    | inr differs ↦ bind_elim _ _ _ (rw differs at h) λ _ s1 e1 h1.
        let w = write-eq-ok _ s' e1 in
        let a = audit_lem ctx s1 io (io.new_id 0) _ _ _ h1 in
        rw differs (ap (λ x. x.members) a ∙ ground arith)
  ]

  pub update_member_role-IsChanged :
      (new_role : OrgRole)
      → update_member_role io ctx target new_role s ≡ ok (u, t)
      → IsChanged new_role
  unfolding update_member_role
  update_member_role-IsChanged new_role h = bind_elim _ _ _ h λ _ s1 e1 h1.
      bind_elim _ _ _ h1 λ current s2 e2 h2. bind_elim _ _ _ h2 λ _ s3 e3 h3.
        bind_elim _ _ _ h3 λ _ s4 e4 h4.
          let (q1, p1) = query-eq-ok _ s e1 in
          let (q2, p2) = query-eq-ok _ s1 e2 in
          let (q3, p3) = query-eq-ok _ s2 e3 in
          let (q4, p4) = query-eq-ok _ s3 e4 in
          let back3 : s3 ≡ s = p3 ∙ p2 ∙ p1 in
          let back4 : s4 ≡ s = p4 ∙ back3 in
          let spare =
            keeps_owner_lem (is_owner current && not (is_owner new_role)) ctx.org_id s3 q4 in
          record {
            admin = q1;
            current = current;
            current_read = ap (current_role ctx.org_id target) (sym p1) ∙ q2;
            allowed = ground arith;
            spare = rw (sym back3) spare;
            members = rw (sym back4) (change_role_lem current new_role s4 h4);
          }
