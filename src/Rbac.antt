-- ===== src/Rbac.antt =====
-- crates/core/src/rbac.rs: the permission checks and the resolution of a document role.
pub mod Resolution
use md_manager.Base.{Bool, true, false, List, [], ◌∷◌, not, ◌&&◌, ltb, if◌then◌else◌}
use md_manager.Fault.{Result, ok, err, forbidden}
use md_manager.Model.{OrgRole, Role, AuthContext, capability, role_level, at_least, max_role}

-- `iter.fold(init, Role::max)`
unfoldable pub fold_max : Role → List Role → Role
fold_max acc [] = acc
fold_max acc (r ∷ rs) = fold_max (max_role acc r) rs

-- `iter().copied().max().unwrap_or(Role::None)`
pub most_permissive : List Role → Role
unfolding fold_max
most_permissive [] = Role.none
most_permissive (r ∷ rs) = fold_max r rs

unfoldable pub effective_role : AuthContext → Role
unfolding capability
effective_role ctx = capability ctx.org_role

unfoldable pub require : Role → Role → Result (Unit {0})
require have need = if at_least have need then ok tt else err forbidden

unfoldable pub require_read : AuthContext → Result (Unit {0})
unfolding require effective_role
require_read ctx = require (effective_role ctx) Role.viewer

unfoldable pub require_write : AuthContext → Result (Unit {0})
unfolding require effective_role
require_write ctx = require (effective_role ctx) Role.editor

unfoldable pub require_admin : AuthContext → Result (Unit {0})
unfolding require effective_role
require_admin ctx = require (effective_role ctx) Role.admin

pub record DocAccess : Type 0 where
  pub org_role : OrgRole
  pub grant_roles : List Role
  pub denied : Bool

-- `matches!(org_role, OrgRole::Owner | OrgRole::Admin)`
abbrev pub is_privileged : OrgRole → Bool
is_privileged OrgRole.owner = true
is_privileged OrgRole.admin = true
is_privileged OrgRole.member = false
is_privileged OrgRole.viewer = false

-- `matches!(org_role, OrgRole::Viewer)`
abbrev pub is_viewer : OrgRole → Bool
is_viewer OrgRole.viewer = true
is_viewer OrgRole.owner = false
is_viewer OrgRole.admin = false
is_viewer OrgRole.member = false

unfoldable pub resolve_doc_role : DocAccess → Role
unfolding fold_max capability
resolve_doc_role access =
    if access.denied && not (is_privileged access.org_role)
    then Role.none
    else let effective = fold_max (capability access.org_role) access.grant_roles in
      if is_viewer access.org_role && ltb (role_level Role.viewer) (role_level effective)
      then Role.viewer
      else effective
