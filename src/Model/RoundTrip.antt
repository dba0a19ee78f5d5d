-- ===== src/Model/RoundTrip.antt =====
-- What the database reads back is what was written, and only the written words are read.
use md_manager.Base.{String, ◌≡◌, refl, arith, ◌↔◌, string_eq}
use md_manager.Fault.{ok}
use md_manager.Model.{
  OrgRole, Role, ActorType, VersionKind, org_role_as_str, org_role_from_db, role_as_str,
  role_from_db, actor_type_as_str, actor_type_from_db, version_kind_as_str, version_kind_from_db,
}

pub role_round_trip : (r : Role) → role_from_db (role_as_str r) ≡ ok r
unfolding role_from_db role_as_str string_eq
role_round_trip Role.none = refl
role_round_trip Role.viewer = refl
role_round_trip Role.commenter = refl
role_round_trip Role.editor = refl
role_round_trip Role.admin = refl

role_from_db_iff : (s : String) (r : Role) → (role_from_db s ≡ ok r) ↔ (role_as_str r ≡ s)
unfolding role_from_db role_as_str
role_from_db_iff s r = (λ h. ground arith, λ e. rw (← e) (role_round_trip r))

pub org_role_round_trip : (r : OrgRole) → org_role_from_db (org_role_as_str r) ≡ ok r
unfolding org_role_from_db org_role_as_str string_eq
org_role_round_trip OrgRole.owner = refl
org_role_round_trip OrgRole.admin = refl
org_role_round_trip OrgRole.member = refl
org_role_round_trip OrgRole.viewer = refl

pub org_role_from_db_iff :
    (s : String) (r : OrgRole) → (org_role_from_db s ≡ ok r) ↔ (org_role_as_str r ≡ s)
unfolding org_role_from_db org_role_as_str
org_role_from_db_iff s r = (λ h. ground arith, λ e. rw (← e) (org_role_round_trip r))

actor_type_round_trip : (a : ActorType) → actor_type_from_db (actor_type_as_str a) ≡ ok a
unfolding actor_type_from_db actor_type_as_str string_eq
actor_type_round_trip ActorType.user = refl
actor_type_round_trip ActorType.agent = refl

actor_type_from_db_iff :
    (s : String) (a : ActorType) → (actor_type_from_db s ≡ ok a) ↔ (actor_type_as_str a ≡ s)
unfolding actor_type_from_db actor_type_as_str
actor_type_from_db_iff s a = (λ h. ground arith, λ e. rw (← e) (actor_type_round_trip a))

version_kind_round_trip : (k : VersionKind) → version_kind_from_db (version_kind_as_str k) ≡ ok k
unfolding version_kind_from_db version_kind_as_str string_eq
version_kind_round_trip VersionKind.checkpoint = refl
version_kind_round_trip VersionKind.autosave = refl

version_kind_from_db_iff :
    (s : String) (k : VersionKind) → (version_kind_from_db s ≡ ok k) ↔ (version_kind_as_str k ≡ s)
unfolding version_kind_from_db version_kind_as_str
version_kind_from_db_iff s k = (λ h. ground arith, λ e. rw (← e) (version_kind_round_trip k))

-- For each of the four enums kept as text in the database, a word reads back as a value exactly
-- when it is the word that the value is written as.
pub from_db_iff :
    (s : String)
    → ((r : Role) → (role_from_db s ≡ ok r) ↔ (role_as_str r ≡ s))
      × ((r : OrgRole) → (org_role_from_db s ≡ ok r) ↔ (org_role_as_str r ≡ s))
      × ((a : ActorType) → (actor_type_from_db s ≡ ok a) ↔ (actor_type_as_str a ≡ s))
      × ((k : VersionKind) → (version_kind_from_db s ≡ ok k) ↔ (version_kind_as_str k ≡ s))
from_db_iff s = (
  role_from_db_iff s,
  org_role_from_db_iff s,
  actor_type_from_db_iff s,
  version_kind_from_db_iff s,
)
