-- ===== src/Db/Members/Roster.antt =====
-- The table of members as an abstract roster, and role changes and removals as its steps.
use md_manager.Base.{
  ℕ, String, false, ◌&&◌, Option, none, some, List, [], ◌∷◌, ◌≡◌, ◌⊎◌, refl, sym, ap, ◌∙◌, arith,
  find, ◌==◌, nat_eq, if◌then◌else◌, Bool-cases, Option-cases, inl, inr, subst,
}
use md_manager.Fault.{ok}
use md_manager.Model.{OrgRole, AuthContext, capability, rank, org_role_as_str, org_role_from_db}
use md_manager.Model.RoundTrip.{org_role_from_db_iff}
use md_manager.Rbac.{require_admin, require, effective_role}
use md_manager.Db.{Inputs}
use md_manager.Db.Authentication.{member_role}
use md_manager.Db.Rows.{update_rows, delete_rows}
use md_manager.Db.Rows.Laws.{find-update_rows}
use md_manager.Db.Invitations.Laws.{role_row}
use md_manager.Db.Members.Removal.{member_role-delete_rows}
use md_manager.Db.Tables.{Store, MemberRow}
use md_manager.Db.Tx.{commit, commit_elim}
use md_manager.Db.Members.{is_membership, current_role}
use md_manager.Db.Members.History.{
  MemberRequest, set_member_role, remove, perform_member, serve_members,
}
use md_manager.Db.Members.Laws.{remove_member-IsRemoved, update_member_role-IsChanged, IsChanged}

-- The role of each user in each organization, as it is stored; order and rows are forgotten.
abbrev pub Roster : Type 0
Roster = ℕ → ℕ → Option String

abbrev pub roster : List MemberRow → Roster
roster rows o u = member_role o u rows

-- The roster with one entry replaced.
abbrev pub set_at : ℕ → ℕ → Option String → Roster → Roster
set_at org_id user_id entry f o u = if o == org_id && u == user_id then entry else f o u

-- Only owners decide who owns an organization.
abbrev pub OwnersDecide : AuthContext → OrgRole → Type 0
OwnersDecide ctx role = role ≡ OrgRole.owner → ctx.org_role ≡ OrgRole.owner

abbrev pub Administers : AuthContext → Type 0
Administers ctx = (ctx.org_role ≡ OrgRole.owner) ⊎ (ctx.org_role ≡ OrgRole.admin)

-- What a caller's request may do to the roster: the caller, an owner or an administrator of the
-- organization, gives the member that the request names the role that it names, or takes the member
-- out, and is an owner where the role that is lost or given is the owner's.
pub data Step : AuthContext → MemberRequest → Roster → Roster → Type 0 where
  change :
      (ctx : AuthContext) (target : ℕ) (current new_role : OrgRole) (f : Roster)
      → Administers ctx
      → f ctx.org_id target ≡ some (org_role_as_str current)
      → OwnersDecide ctx current
      → OwnersDecide ctx new_role
      → Step ctx
          (set_member_role target new_role)
          f
          (set_at ctx.org_id target (some (org_role_as_str new_role)) f)
  leave :
      (ctx : AuthContext) (target : ℕ) (current : OrgRole) (f : Roster)
      → Administers ctx
      → f ctx.org_id target ≡ some (org_role_as_str current)
      → OwnersDecide ctx current
      → Step ctx (remove target) f (set_at ctx.org_id target none f)

-- A history on the roster: each request is a step of its own caller, or is refused.
pub data Steps : List (Inputs × AuthContext × MemberRequest) → Roster → Roster → Type 0 where
  done : (f : Roster) → Steps [] f f
  next :
      (io : Inputs) (ctx : AuthContext) (r : MemberRequest)
      (rest : List (Inputs × AuthContext × MemberRequest)) (f g h : Roster)
      → Step ctx r f g
      → Steps rest g h
      → Steps ((io, ctx, r) ∷ rest) f h
  refused :
      (io : Inputs) (ctx : AuthContext) (r : MemberRequest)
      (rest : List (Inputs × AuthContext × MemberRequest)) (f h : Roster)
      → Steps rest f h
      → Steps ((io, ctx, r) ∷ rest) f h

require_admin-Administers : (ctx : AuthContext) → require_admin ctx ≡ ok tt → Administers ctx
unfolding require_admin require effective_role capability
require_admin-Administers ctx h = ground arith

module _ (org_id user_id o u : ℕ) where
  -- The other entries are left alone.
  other-delete_rows :
      (rows : List MemberRow)
      → (o == org_id && u == user_id) ≡ false
      → find (is_membership o u) (delete_rows (is_membership org_id user_id) rows)
        ≡ find (is_membership o u) rows
  other-delete_rows [] other = refl
  other-delete_rows (m ∷ rows) other = let rest = other-delete_rows rows other in ground arith

  other-update_rows :
      (role : String) (rows : List MemberRow)
      → (o == org_id && u == user_id) ≡ false
      → find
          (is_membership o u)
          (update_rows (is_membership org_id user_id) (λ m. record m { role = role }) rows)
        ≡ find (is_membership o u) rows
  unfolding update_rows
  other-update_rows role [] other = refl
  other-update_rows role (m ∷ rows) other =
      let rest = other-update_rows role rows other in ground arith

-- The role of the row that is found.
abbrev role_of : Option MemberRow → Option String
role_of none = none
role_of (some m) = some m.role

member_role-find :
    (o u : ℕ) (rows : List MemberRow)
    → member_role o u rows ≡ role_of (find (is_membership o u) rows)
unfolding member_role
member_role-find o u rows = elim (Option-cases (find (is_membership o u) rows)) [
  | inl e ↦ ground arith
  | inr (m, e) ↦ ground arith
]

roster-delete_rows :
    (org_id user_id : ℕ) (rows : List MemberRow) (o u : ℕ)
    → roster (delete_rows (is_membership org_id user_id) rows) o u
      ≡ set_at org_id user_id none (roster rows) o u
roster-delete_rows org_id user_id rows o u = elim (Bool-cases (o == org_id && u == user_id)) [
  | inr other ↦
      member_role-find o u _
      ∙ ap role_of (other-delete_rows org_id user_id o u rows other)
      ∙ sym (member_role-find o u rows)
      ∙ rw other refl
  | inl here ↦
      let same_org : org_id ≡ o = ground arith in
      let same_user : user_id ≡ u = ground arith in
      subst (λ x. roster (delete_rows (is_membership org_id user_id) rows) x u ≡ none) same_org
        (subst (λ y. roster (delete_rows (is_membership org_id user_id) rows) org_id y ≡ none)
          same_user (member_role-delete_rows org_id user_id rows))
      ∙ rw here refl
]

roster-update_rows :
    (org_id user_id : ℕ) (role : String) (rows : List MemberRow) (m : MemberRow)
    → find (is_membership org_id user_id) rows ≡ some m
    → (o u : ℕ)
    → roster (update_rows (is_membership org_id user_id) (λ m. record m { role = role }) rows) o u
      ≡ set_at org_id user_id (some role) (roster rows) o u
roster-update_rows org_id user_id role rows m h o u =
    let after =
      update_rows (is_membership org_id user_id) (λ (m : MemberRow). record m { role = role })
        rows in
    elim (Bool-cases (o == org_id && u == user_id)) [
      | inr other ↦
          member_role-find o u _
          ∙ ap role_of (other-update_rows org_id user_id o u role rows other)
          ∙ sym (member_role-find o u rows)
          ∙ rw other refl
      | inl here ↦
          let same_org : org_id ≡ o = ground arith in
          let same_user : user_id ≡ u = ground arith in
          let found =
            find-update_rows (is_membership org_id user_id) (is_membership org_id user_id)
              (λ m. record m { role = role }) rows m (λ x e. e) (λ x. refl) h in
          subst (λ x. roster after x u ≡ some role) same_org
            (subst (λ y. roster after org_id y ≡ some role) same_user
              (member_role-find org_id user_id after ∙ ap role_of found))
          ∙ rw here refl
    ]

-- The entry that was read.
current_role-roster :
    (org_id user_id : ℕ) (s : Store) (current : OrgRole)
    → current_role org_id user_id s ≡ ok current
    → (m : MemberRow) × (find (is_membership org_id user_id) s.members ≡ some m)
      × (roster s.members org_id user_id ≡ some (org_role_as_str current))
unfolding current_role
current_role-roster org_id user_id s current h =
    elim (Option-cases (member_role org_id user_id s.members)) [
      | inl e ↦ absurd (ground arith)
      | inr (word, e) ↦
          let read : org_role_from_db word ≡ ok current = ground arith in
          let (m, found, _) = role_row org_id user_id s.members word e in
          (m, found, e ∙ ap some (sym ((org_role_from_db_iff word current).0 read)))
    ]

-- Setting an entry to what it is changes nothing.
set_at_same :
    (org_id user_id : ℕ) (entry : Option String) (f : Roster) (o u : ℕ)
    → f org_id user_id ≡ entry
    → f o u ≡ set_at org_id user_id entry f o u
set_at_same org_id user_id entry f o u h = ground arith

same_rank : (a b : OrgRole) → rank a ≡ rank b → a ≡ b
unfolding rank
same_rank a b h = ground arith

-- The roster after a change of a role, whether or not a row is written.
roster-IsChanged :
    (target : ℕ) (io : Inputs) (ctx : AuthContext) (s t : Store) (role : OrgRole) {w : Unit {0}}
    → (x : IsChanged io ctx target s t {u = w} role) → (o u : ℕ)
    → set_at ctx.org_id target (some (org_role_as_str role)) (roster s.members) o u
      ≡ roster t.members o u
roster-IsChanged target io ctx s t role x o u =
    let (m, found, entry) = current_role-roster ctx.org_id target s x.current x.current_read in
    rw x.members (elim (Bool-cases (rank x.current == rank role)) [
      | inl same ↦
          let equal = same_rank x.current role (ground arith) in
          rw same (
            sym (
              set_at_same ctx.org_id target _ (roster s.members) o u
                (entry ∙ ap (λ r. some (org_role_as_str r)) equal)))
      | inr differs ↦
          rw differs (
            sym (roster-update_rows ctx.org_id target (org_role_as_str role) s.members m found o u))
    ])

-- Every request that commits is a step of the abstract roster.
perform_member-Step :
    (io : Inputs) (ctx : AuthContext) (r : MemberRequest) (s t : Store) {w : Unit {0}}
    → perform_member io ctx r s ≡ ok (w, t)
    → Step ctx r (roster s.members) (roster t.members)
unfolding perform_member
perform_member-Step io ctx (set_member_role target role) s t h =
    let x = update_member_role-IsChanged io ctx target s t role h in
    let (m, found, entry) = current_role-roster ctx.org_id target s x.current x.current_read in
    let after : set_at ctx.org_id target (some (org_role_as_str role)) (roster s.members)
        ≡ roster t.members =
      λ i o u. roster-IsChanged target io ctx s t role x o u i in
    let allowed = x.allowed in
    subst (Step ctx (set_member_role target role) (roster s.members)) after (
      change ctx target x.current role (roster s.members) (require_admin-Administers ctx x.admin)
        entry (λ e. ground arith) (λ e. ground arith))
perform_member-Step io ctx (remove target) s t h =
    let x = remove_member-IsRemoved io ctx target s t h in
    let (m, found, entry) = current_role-roster ctx.org_id target s x.current x.current_read in
    let after : set_at ctx.org_id target none (roster s.members) ≡ roster t.members = λ i o u.
      (sym (roster-delete_rows ctx.org_id target s.members o u)
          ∙ ap (λ rows. roster rows o u) (sym x.members))
        i in
    let allowed = x.allowed in
    subst (Step ctx (remove target) (roster s.members)) after (
      leave ctx target x.current (roster s.members) (require_admin-Administers ctx x.admin) entry
        (λ e. ground arith))

-- A history of role changes and removals takes the stored members along the abstract roster: each
-- request is a step that its own caller is entitled to, on the member and to the role that it names,
-- or leaves the roster as it is.
pub serve_members-Steps :
    (history : List (Inputs × AuthContext × MemberRequest)) (s : Store)
    → Steps history (roster s.members) (roster (serve_members history s).members)
unfolding serve_members
serve_members-Steps [] s = done (roster s.members)
serve_members-Steps ((io, ctx, r) ∷ rest) s =
    commit_elim
      (λ t.
        (h : Roster)
        → Steps rest (roster t.members) h
        → Steps ((io, ctx, r) ∷ rest) (roster s.members) h)
      (perform_member io ctx r) s (λ h later. refused io ctx r rest _ h later)
      (λ a t e h later. next io ctx r rest _ _ h (perform_member-Step io ctx r s t e) later) _
      (serve_members-Steps rest (commit (perform_member io ctx r) s).0)
