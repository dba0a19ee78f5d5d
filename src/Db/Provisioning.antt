-- ===== src/Db/Provisioning.antt =====
-- crates/db/src/social.rs, `provision_google_user`: the sign-in of a verified Google identity. The
-- hex digits of an identifier (crate uuid) and PostgreSQL's `lower` are parameters.
use md_manager.Base.{
  ℕ, ◌+◌, Bool, false, ◌&&◌, ◌||◌, none, some, List, [], ◌∷◌, ◌++◌, map, filter, find, take, leb,
  ◌==◌, nat_eq, bytes_eq, if◌then◌else◌,
}
use md_manager.Fault.{invalid, unauthorized, Result, ok, err, ◌>>=◌}
use md_manager.Text.{Text, lit, trim, is_empty}
use md_manager.Crypto.{slice_to}
use md_manager.Oauth.{take_until}
use md_manager.Validate.{is_ascii_lowercase, is_ascii_digit}
use md_manager.Db.{Inputs}
use md_manager.Db.Invitations.{accept_invitations_for}
use md_manager.Db.Organizations.{create_org_for}
use md_manager.Db.Rows.{update_rows, insert_row}
use md_manager.Db.Sessions.{UserOrg, list_user_orgs}
use md_manager.Db.Tables.{Store}
use md_manager.Db.Tables.Accounts.{UserRow}
use md_manager.Db.Tx.{commit}

-- What the sign-in takes from outside.
pub record Formats : Type 0 where
  pub lower : Text → Text
  -- `Uuid::simple`
  pub simple : ℕ → Text

pub record ProvisionedUser : Type 0 where
  pub user_id : ℕ
  pub email : Text
  pub display_name : Text
  pub orgs : List UserOrg

-- `email.split('@').next().unwrap_or("user")`
abbrev pub local_part : Text → Text
local_part email = take_until (λ c. c == b'@') email

abbrev pub is_ascii_uppercase : ℕ → Bool
is_ascii_uppercase c = leb b'A' c && leb c b'Z'

abbrev pub is_ascii_alphanumeric : ℕ → Bool
is_ascii_alphanumeric c = is_ascii_lowercase c || is_ascii_digit c || is_ascii_uppercase c

abbrev pub to_ascii_lowercase : ℕ → ℕ
to_ascii_lowercase c = if is_ascii_uppercase c then c + 32 else c

-- The letters and digits of the slug.
unfoldable pub slug_base : Text → Text
unfolding take_until is_ascii_lowercase is_ascii_digit
slug_base email =
    let base = take 40 (map to_ascii_lowercase (filter is_ascii_alphanumeric (local_part email))) in
    if is_empty base then lit "org" else base

unfoldable pub personal_org_slug : (ℕ → Text) → ℕ → Text → Result Text
unfolding slug_base slice_to
personal_org_slug simple user_id email = do
  digits ← slice_to (simple user_id) 6
  ok (slug_base email ++ b'-' ∷ digits)

unfoldable pub display_of : Text → Text → Text
unfolding take_until trim
display_of email name = if is_empty (trim name) then local_part email else trim name

abbrev pub has_sub : Text → UserRow → Bool
has_sub google_sub u = elim u.google_sub [ none ↦ false | some g ↦ g == google_sub ]

-- `CASE WHEN display_name = '' THEN $1 ELSE display_name END`
abbrev pub named : Text → UserRow → UserRow
named display u = if is_empty u.display_name then record u { display_name = display } else u

abbrev pub put_users : List UserRow → Store → Store
put_users rows s = record s { accounts = record s.accounts { users = rows } }

module _ (formats : Formats) (io : Inputs) where
  abbrev pub has_email : Text → UserRow → Bool
  has_email email u = formats.lower u.email == formats.lower email

  -- Nobody has the identity: the user with the email is linked, unless another identity has it, and
  -- where there is none a new user is inserted.
  unfoldable pub link_or_create : Text → Text → Text → Store → Store × Result (ℕ × Text)
  unfolding update_rows insert_row
  link_or_create google_sub email display s = elim (find (has_email email) s.accounts.users) [
    | some u ↦ elim u.google_sub [
      | some other ↦ (s, err unauthorized)
      | none ↦ (
        put_users
            (update_rows (λ v. v.id == u.id)
              (λ v. record (named display v) { google_sub = some google_sub }) s.accounts.users)
            s,
        ok (u.id, u.email),
      )
    ]
    | none ↦
        elim (insert_row "users_pkey" (λ v. v.id == io.new_id 1 || v.email == email)
          (record {
            id = io.new_id 1;
            email = email;
            display_name = display;
            google_sub = some google_sub;
            logto_sub = none;
          })
          s.accounts.users) [
            | ok rows ↦ (put_users rows s, ok (io.new_id 1, email))
            | err e ↦ (s, err e)
          ]
  ]

  -- The user of the identity: the one that has it, or else by email.
  unfoldable pub find_or_create : Text → Text → Text → Store → Store × Result (ℕ × Text)
  unfolding update_rows link_or_create
  find_or_create google_sub email display s = elim (find (has_sub google_sub) s.accounts.users) [
    | some u ↦ (
      put_users (update_rows (λ v. v.id == u.id) (named display) s.accounts.users) s,
      ok (u.id, u.email),
    )
    | none ↦ link_or_create google_sub email display s
  ]

  abbrev provisioned : ℕ → Text → Text → Result (List UserOrg) → Result ProvisionedUser
  provisioned user_id email display (ok orgs) =
      ok (record { user_id = user_id; email = email; display_name = display; orgs = orgs })
  provisioned user_id email display (err e) = err e

  -- The personal organization of a user without one. Each statement so far was committed.
  unfoldable pub with_personal_org : ℕ → Text → Text → Store → Store × Result ProvisionedUser
  unfolding personal_org_slug commit list_user_orgs
  with_personal_org user_id email display s =
      elim (personal_org_slug formats.simple user_id email) [
        | err e ↦ (s, err e)
        | ok slug ↦
            let (t, r) = commit (create_org_for io user_id slug (display ++ lit "'s Org")) s in
            elim r [
              | err e ↦ (t, err e)
              | ok org ↦ (t, provisioned user_id email display (list_user_orgs user_id t))
            ]
      ]

  abbrev land : ℕ → Text → Text → Result (List UserOrg) → Store → Store × Result ProvisionedUser
  land user_id email display (err e) s = (s, err e)
  land user_id email display (ok []) s = with_personal_org user_id email display s
  land user_id email display (ok (o ∷ rest)) s =
      (s, provisioned user_id email display (ok (o ∷ rest)))

  unfoldable pub provision_google_user : Text → Text → Text → Store → Store × Result ProvisionedUser
  unfolding trim find_or_create accept_invitations_for list_user_orgs with_personal_org
  provision_google_user google_sub email name s =
      if is_empty (trim email)
      then (s, err (invalid "google account has no email"))
      else let display = display_of (trim email) name in
        let (t, r) = find_or_create google_sub (trim email) display s in
        elim r [
          | err e ↦ (t, err e)
          | ok (user_id, user_email) ↦
              let u : Store = accept_invitations_for io formats.lower user_id user_email t in
              land user_id user_email display (list_user_orgs user_id u) u
        ]
