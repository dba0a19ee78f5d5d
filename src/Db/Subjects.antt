-- ===== src/Db/Subjects.antt =====
-- crates/db/src/auth.rs: the subjects of an external issuer (Logto) and the users they stand for.
use md_manager.Base.{
  ℕ, Bool, false, not, ◌&&◌, none, some, List, find, any, ◌==◌, nat_eq, bytes_eq, if◌then◌else◌,
}
use md_manager.Fault.{unauthorized, forbidden, already_exists, Result, ok, err, ok_or, ◌>>=◌}
use md_manager.Text.{Text}
use md_manager.Model.{ActorType, AuthContext, org_role_from_db}
use md_manager.Db.Authentication.{member_role}
use md_manager.Db.Rows.{update_rows}
use md_manager.Db.Tables.{Store}
use md_manager.Db.Tables.Accounts.{UserRow}
use md_manager.Db.Tx.{Tx, write}

abbrev pub has_logto_sub : Text → UserRow → Bool
has_logto_sub logto_sub u = elim u.logto_sub [ none ↦ false | some g ↦ g == logto_sub ]

-- The role is read within the organization that the token claims.
unfoldable pub authenticate_oauth : Text → ℕ → Store → Result AuthContext
unfolding member_role org_role_from_db
authenticate_oauth logto_sub org_id s = do
  user ← ok_or (find (has_logto_sub logto_sub) s.accounts.users) unauthorized
  word ← ok_or (member_role org_id user.id s.members) forbidden
  role ← org_role_from_db word
  ok (record { org_id = org_id; user_id = user.id; actor_type = ActorType.user; org_role = role })

abbrev put_users : List UserRow → Store → Store
put_users rows s = record s { accounts = record s.accounts { users = rows } }

-- A subject belongs to one user, and a user that is missing is no error.
unfoldable pub link_logto_sub : ℕ → Text → Tx (Unit {0})
unfolding update_rows
link_logto_sub user_id logto_sub = write λ s.
    if any (λ u. u.id == user_id) s.accounts.users
      && any (λ u. not (u.id == user_id) && has_logto_sub logto_sub u) s.accounts.users
    then err (already_exists "users_logto_sub_uniq")
    else ok (
        put_users
          (update_rows (λ u. u.id == user_id) (λ u. record u { logto_sub = some logto_sub })
            s.accounts.users)
          s)
