-- ===== src/Model.antt =====
-- crates/core/src/model.rs: the role enums, the actor and version kinds, and the request context.
-- The database stores each enum as text: `as_str` writes it and `from_db` reads it back.
pub mod RoundTrip
use md_manager.Base.{ℕ, zero, suc, String, ◌<>◌, ◌≤◌, Bool, leb, ◌==◌, string_eq, if◌then◌else◌}
use md_manager.Fault.{Error, invalid, Result, ok, err}

-- `OrgRole`
pub data OrgRole : Type 0 where
  owner admin member viewer : OrgRole

-- `Role`, the lattice of document permissions, in declaration order.
pub data Role : Type 0 where
  none viewer commenter editor admin : Role

-- `ActorType`
pub data ActorType : Type 0 where
  user agent : ActorType

-- `VersionKind`
pub data VersionKind : Type 0 where
  checkpoint autosave : VersionKind

unfoldable pub org_role_as_str : OrgRole → String
org_role_as_str OrgRole.owner = "owner"
org_role_as_str OrgRole.admin = "admin"
org_role_as_str OrgRole.member = "member"
org_role_as_str OrgRole.viewer = "viewer"

unfoldable pub org_role_from_db : String → Result OrgRole
org_role_from_db s =
    if s == "owner"
    then ok OrgRole.owner
    else if s == "admin"
    then ok OrgRole.admin
    else if s == "member"
    then ok OrgRole.member
    else if s == "viewer"
    then ok OrgRole.viewer
    else err (invalid ("unknown org role: " <> s))

-- `OrgRole::capability`
unfoldable pub capability : OrgRole → Role
capability OrgRole.owner = Role.admin
capability OrgRole.admin = Role.admin
capability OrgRole.member = Role.editor
capability OrgRole.viewer = Role.viewer

-- `OrgRole::rank`
unfoldable pub rank : OrgRole → ℕ
rank OrgRole.owner = 4
rank OrgRole.admin = 3
rank OrgRole.member = 2
rank OrgRole.viewer = 1

-- `OrgRole::min`
unfoldable pub min_role : OrgRole → OrgRole → OrgRole
unfolding rank
min_role self other = if leb (rank self) (rank other) then self else other

unfoldable pub role_as_str : Role → String
role_as_str Role.none = "none"
role_as_str Role.viewer = "viewer"
role_as_str Role.commenter = "commenter"
role_as_str Role.editor = "editor"
role_as_str Role.admin = "admin"

unfoldable pub role_from_db : String → Result Role
role_from_db s =
    if s == "none"
    then ok Role.none
    else if s == "viewer"
    then ok Role.viewer
    else if s == "commenter"
    then ok Role.commenter
    else if s == "editor"
    then ok Role.editor
    else if s == "admin"
    then ok Role.admin
    else err (invalid ("unknown role: " <> s))

-- The derived order of `Role`: the position of the constructor.
abbrev pub role_level : Role → ℕ
role_level Role.none = 0
role_level Role.viewer = 1
role_level Role.commenter = 2
role_level Role.editor = 3
role_level Role.admin = 4

-- `a >= b` on roles
abbrev pub at_least : Role → Role → Bool
at_least a b = leb (role_level b) (role_level a)

-- `Role::max`, of the derived `Ord`: the second argument where they are equal.
abbrev pub max_role : Role → Role → Role
max_role a b = if leb (role_level a) (role_level b) then b else a

unfoldable pub actor_type_as_str : ActorType → String
actor_type_as_str ActorType.user = "user"
actor_type_as_str ActorType.agent = "agent"

unfoldable pub actor_type_from_db : String → Result ActorType
actor_type_from_db s =
    if s == "user"
    then ok ActorType.user
    else if s == "agent"
    then ok ActorType.agent
    else err (invalid ("unknown actor type: " <> s))

unfoldable pub version_kind_as_str : VersionKind → String
version_kind_as_str VersionKind.checkpoint = "checkpoint"
version_kind_as_str VersionKind.autosave = "autosave"

unfoldable pub version_kind_from_db : String → Result VersionKind
version_kind_from_db s =
    if s == "checkpoint"
    then ok VersionKind.checkpoint
    else if s == "autosave"
    then ok VersionKind.autosave
    else err (invalid ("unknown version kind: " <> s))

-- `AuthContext`, the resolved principal of a request. Identifiers (`Uuid`) are numbers.
pub record AuthContext : Type 0 where
  pub org_id : ℕ
  pub user_id : ℕ
  pub actor_type : ActorType
  pub org_role : OrgRole
