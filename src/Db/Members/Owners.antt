-- ===== src/Db/Members/Owners.antt =====
-- An owner is left by every change of a role and by every removal.
use md_manager.Base.{
  ℕ, ◌≤◌, String, Bool, true, false, some, List, ◌≡◌, refl, arith, length, filter, find, ◌==◌,
  nat_eq, string_eq, Bool-cases, inl, inr, Option-cases,
}
use md_manager.Fault.{ok}
use md_manager.Model.{OrgRole, AuthContext, rank, org_role_as_str, org_role_from_db}
use md_manager.Db.{Inputs}
use md_manager.Db.Authentication.{member_role}
use md_manager.Db.Rows.{update_rows, delete_rows}
use md_manager.Db.Rows.Counts.{
  count-delete_rows, count-update_rows, keep-delete_rows, keep-update_rows, fewer-delete_rows,
  same-update_rows, single-delete_rows, single-update_rows,
}
use md_manager.Db.Tables.{Store, MemberRow}
use md_manager.Db.Members.{
  remove_member, update_member_role, is_membership, current_role, count_owners, is_owner, owner_row,
}
use md_manager.Db.Members.Laws.{remove_member-IsRemoved, update_member_role-IsChanged}

-- The primary key of `organization_members`.
abbrev pub IsKeyed : List MemberRow → Type 0
IsKeyed rows = (org_id user_id : ℕ) → length (filter (is_membership org_id user_id) rows) ≤ 1

-- The row whose role was read.
pub current_role_lem :
    (org_id user_id : ℕ) (s : Store) (current : OrgRole)
    → current_role org_id user_id s ≡ ok current
    → (m : MemberRow) × (find (is_membership org_id user_id) s.members ≡ some m)
      × ((o : ℕ) → is_owner current ≡ false → owner_row o m ≡ false)
unfolding current_role member_role org_role_from_db
current_role_lem org_id user_id s current h =
    elim (Option-cases (find (is_membership org_id user_id) s.members)) [
      | inl e ↦ absurd (ground arith)
      | inr (m, e) ↦ (m, e, λ o not_owner. ground arith)
    ]

owner_row_stays :
    (o : ℕ) (m : MemberRow) (role : OrgRole)
    → is_owner role ≡ true
    → owner_row o m ≡ true
    → owner_row o (record m { role = org_role_as_str role }) ≡ true
unfolding org_role_as_str
owner_row_stays o m OrgRole.owner e h = ground arith
owner_row_stays o m OrgRole.admin e h = absurd (ground arith)
owner_row_stays o m OrgRole.member e h = absurd (ground arith)
owner_row_stays o m OrgRole.viewer e h = absurd (ground arith)

pub owner_row_plain :
    (o : ℕ) (m : MemberRow) (role : OrgRole)
    → is_owner role ≡ false
    → owner_row o (record m { role = org_role_as_str role }) ≡ false
unfolding org_role_as_str string_eq
owner_row_plain o m OrgRole.owner e = absurd (ground arith)
owner_row_plain o m OrgRole.admin e = ground arith
owner_row_plain o m OrgRole.member e = ground arith
owner_row_plain o m OrgRole.viewer e = ground arith

module _ (io : Inputs) (ctx : AuthContext) (target : ℕ) (s t : Store) {u : Unit {0}}
    (key : IsKeyed s.members) (o : ℕ) (owned : 1 ≤ count_owners o s.members) where
  pub remove_member-owned : remove_member io ctx target s ≡ ok (u, t) → 1 ≤ count_owners o t.members
  remove_member-owned h =
      let x = remove_member-IsRemoved io ctx target s t h in
      let (m, found, plain) = current_role_lem ctx.org_id target s x.current x.current_read in
      let p = is_membership ctx.org_id target in
      let lost = count-delete_rows p (owner_row o) s.members in
      let one = key ctx.org_id target in
      rw x.members (elim (Bool-cases (o == ctx.org_id)) [
        | inr other ↦
            (let k = keep-delete_rows p (owner_row o) s.members (λ r e. ground arith) in
              omega arith)
        | inl same ↦ elim (Bool-cases (is_owner x.current)) [
          | inl yes' ↦ (let two = x.spare yes' in ground arith)
          | inr plain' ↦
              (let k = single-delete_rows p (owner_row o) s.members m found one (plain o plain') in
                rw k owned)
        ]
      ])

  pub update_member_role-owned :
      (new_role : OrgRole)
      → update_member_role io ctx target new_role s ≡ ok (u, t)
      → 1 ≤ count_owners o t.members
  update_member_role-owned new_role h =
      let x = update_member_role-IsChanged io ctx target s t new_role h in
      let (m, found, plain) = current_role_lem ctx.org_id target s x.current x.current_read in
      let p = is_membership ctx.org_id target in
      let f : MemberRow → MemberRow = λ m. record m { role = org_role_as_str new_role } in
      let kept : 1 ≤ count_owners o (update_rows p f s.members) =
        elim (Bool-cases (o == ctx.org_id)) [
          | inr other ↦
              (let k = keep-update_rows p (owner_row o) f s.members (λ r e e'. ground arith) in
                omega arith)
          | inl same ↦ elim (Bool-cases (is_owner new_role)) [
            | inl owns ↦
                (let k =
                    keep-update_rows p (owner_row o) f s.members
                      (λ r e e'. owner_row_stays o r new_role owns e') in
                  omega arith)
            | inr plain' ↦ elim (Bool-cases (is_owner x.current)) [
              | inl owned' ↦
                  (let two = x.spare (rw (owned', plain') refl) in
                    let lost = count-update_rows p (owner_row o) f s.members in
                    let one = key ctx.org_id target in ground arith)
              | inr plain'' ↦
                  (let k =
                      single-update_rows p (owner_row o) f s.members m found (key ctx.org_id target)
                        (plain o plain'') (owner_row_plain o m new_role plain') in
                    rw k owned)
            ]
          ]
        ] in
      rw x.members (elim (Bool-cases (rank x.current == rank new_role)) [
        | inl same ↦ rw same owned
        | inr differs ↦ rw differs kept
      ])

-- The key stays.
pub delete_rows-IsKeyed :
    (p : MemberRow → Bool) (rows : List MemberRow) → IsKeyed rows → IsKeyed (delete_rows p rows)
delete_rows-IsKeyed p rows key org_id user_id =
    let k = key org_id user_id in
    let fewer = fewer-delete_rows p (is_membership org_id user_id) rows in omega arith

pub update_rows-IsKeyed :
    (p : MemberRow → Bool) (role : String) (rows : List MemberRow)
    → IsKeyed rows
    → IsKeyed (update_rows p (λ m. record m { role = role }) rows)
update_rows-IsKeyed p role rows key org_id user_id =
    rw
      (same-update_rows p (is_membership org_id user_id) (λ m. record m { role = role }) rows
        (λ r. refl))
      (key org_id user_id)
