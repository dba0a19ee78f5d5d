-- ===== src/Rbac/Resolution.antt =====
-- What a caller may do with a document, independently of how `resolve_doc_role` computes it.
use md_manager.Base.{true, false, List, [], ◌∷◌, ◌≡◌, ◌⊎◌, ◌↔◌, ◌≤◌, ◌||◌, ◌&&◌, arith, any}
use md_manager.Model.{OrgRole, Role, capability, min_role, max_role, role_level, at_least}
use md_manager.Rbac.{DocAccess, fold_max, resolve_doc_role, is_privileged, is_viewer}

pub at_least-fold_max :
    (acc : Role) (rs : List Role) (need : Role)
    → at_least (fold_max acc rs) need ≡ (at_least acc need || any (λ r. at_least r need) rs)
unfolding fold_max
at_least-fold_max acc [] need = ground arith
at_least-fold_max acc (r ∷ rs) need = ground (arith, at_least-fold_max (max_role acc r) rs need)

-- Who may act with permission `need`, as the three rules of the access plan put it.
pub record IsAllowed (a : DocAccess) (need : Role) : Type 0 where
  pub not_denied : (a.denied ≡ false) ⊎ (is_privileged a.org_role ≡ true)
  pub granted :
      (at_least (capability a.org_role) need ≡ true)
      ⊎ (any (λ r. at_least r need) a.grant_roles ≡ true)
  pub under_ceiling : (is_viewer a.org_role ≡ false) ⊎ (role_level need ≤ 1)

resolve_doc_role-IsAllowed :
    (a : DocAccess) (need : Role)
    → 1 ≤ role_level need
    → at_least (resolve_doc_role a) need ≡ true
    → IsAllowed a need
unfolding resolve_doc_role
resolve_doc_role-IsAllowed a need some_need h =
    ground (arith, at_least-fold_max (capability a.org_role) a.grant_roles need)

IsAllowed-resolve_doc_role :
    (a : DocAccess) (need : Role) → IsAllowed a need → at_least (resolve_doc_role a) need ≡ true
unfolding resolve_doc_role
IsAllowed-resolve_doc_role a need h =
    ground (arith, at_least-fold_max (capability a.org_role) a.grant_roles need)

-- The resolved role reaches a permission above `none` exactly when all three rules allow it: the
-- caller is not denied, or is an owner or admin; the org role or some grant gives the permission;
-- and an org viewer asks for no more than `viewer`.
pub resolve_doc_role_iff :
    (a : DocAccess) (need : Role)
    → 1 ≤ role_level need
    → (at_least (resolve_doc_role a) need ≡ true) ↔ IsAllowed a need
resolve_doc_role_iff a need some_need =
    (resolve_doc_role-IsAllowed a need some_need, IsAllowed-resolve_doc_role a need)

-- An API key clamped to its creator's role may do what both roles may do, and no more.
pub min_role_meet :
    (a b : OrgRole) (need : Role)
    → at_least (capability (min_role a b)) need
      ≡ (at_least (capability a) need && at_least (capability b) need)
unfolding min_role capability
min_role_meet OrgRole.owner b need = ground arith
min_role_meet _ b need = ground arith
