-- ===== src/Db/Invitations/Laws.antt =====
-- An invitation is accepted once, and gives its role to a new member only.
use md_manager.Base.{
  ℕ, ◌≤◌, String, Bool, true, false, ◌&&◌, none, some, List, [], ◌∷◌, ◌≡◌, ◌≢◌, refl, ap, ◌∙◌,
  arith, length, filter, find, any, ◌==◌, nat_eq, bytes_eq, Bool-cases, Option-cases, inl, inr,
}
use md_manager.Fault.{not_found, ok, err, Result-cases}
use md_manager.Text.{Text}
use md_manager.Crypto.{token_prefix, verify_token}
use md_manager.Db.{Db, Inputs}
use md_manager.Db.Authentication.{member_role}
use md_manager.Db.Invitations.{
  accept_invitation_by_token, presented_invitation, join_org, mark_accepted, add_member,
  accepted_rows, is_open, invitation_scheme,
}
use md_manager.Db.Members.{is_membership}
use md_manager.Db.Organizations.{Organization}
use md_manager.Db.Rows.{update_rows}
use md_manager.Db.Rows.Laws.{find_holds}
use md_manager.Db.Statements.Laws.{write-eq-ok}
use md_manager.Db.Tables.{Store, MemberRow}
use md_manager.Db.Tables.Accounts.{InvitationRow}
use md_manager.Db.Tx.{bind_elim, query-eq-ok, pure-eq-ok, bind_err, query_err}

-- The unique index on the lookup prefix.
abbrev pub IsIndexed : List InvitationRow → Type 0
IsIndexed rows = (prefix : Text) → length (filter (λ i. i.token_prefix == prefix) rows) ≤ 1

module _ (io : Inputs) (prefix : Text) where
  absent :
      (p : InvitationRow → Bool) (io' : Inputs) (rows : List InvitationRow)
      (f : InvitationRow → InvitationRow)
      → length (filter (λ i. i.token_prefix == prefix) rows) ≤ 0
      → ((i : InvitationRow) → (f i).token_prefix ≡ i.token_prefix)
      → find (λ i. i.token_prefix == prefix && is_open io' i) (update_rows p f rows) ≡ none
  unfolding update_rows
  absent p io' [] f few same = refl
  absent p io' (i ∷ rows) f few same = ground (arith, absent p io' rows f, same i)

  not_found_in :
      (rows : List InvitationRow)
      → length (filter (λ i. i.token_prefix == prefix) rows) ≤ 0
      → find (λ i. i.token_prefix == prefix && is_open io i) rows ≡ none
  not_found_in [] few = refl
  not_found_in (r ∷ rows) few = ground (arith, not_found_in rows)

  -- The invitation that is accepted is the only one under its prefix, and it is open no more.
  used_invitation :
      (io' : Inputs) (rows : List InvitationRow) (i : InvitationRow)
      → length (filter (λ i. i.token_prefix == prefix) rows) ≤ 1
      → find (λ i. i.token_prefix == prefix && is_open io i) rows ≡ some i
      → find (λ i. i.token_prefix == prefix && is_open io' i) (accepted_rows io i.id rows) ≡ none
  unfolding accepted_rows update_rows
  used_invitation io' [] i one h = absurd (ground arith)
  used_invitation io' (r ∷ rows) i one h = elim (Bool-cases (r.token_prefix == prefix)) [
    | inr other ↦ (let later = used_invitation io' rows i in ground arith)
    | inl here ↦
        let few : length (filter (λ i. i.token_prefix == prefix) rows) ≤ 0 = ground arith in
        let gone =
          absent (λ j. j.id == i.id) io' rows (λ j. record j { accepted_at = some io.db_now }) few
            (λ i. refl) in
        let none_there = not_found_in rows few in
        elim (Bool-cases (is_open io r)) [
          | inl usable ↦
              (let same : r ≡ i = ground arith in
                let id : (r.id == i.id) ≡ true = ground arith in ground arith)
          | inr shut ↦ absurd (ground arith)
        ]
  ]

presented_invitation_lem :
    (db : Db) (io : Inputs) (token : Text) (s : Store) (i : InvitationRow)
    → presented_invitation db io token s ≡ ok i
    → (prefix : Text) × (token_prefix invitation_scheme token ≡ ok (some prefix))
      × (find (λ i. i.token_prefix == prefix && is_open io i) s.accounts.invitations ≡ some i)
      × (verify_token db.hashes db.pepper token i.token_hash ≡ true)
unfolding presented_invitation
presented_invitation_lem db io token s i h =
    elim (Result-cases (token_prefix invitation_scheme token)) [
      | inr (x, e) ↦ absurd (ground arith)
      | inl (none, e) ↦ absurd (ground arith)
      | inl (some prefix, e) ↦
          elim (Option-cases
            (find (λ i. i.token_prefix == prefix && is_open io i) s.accounts.invitations)) [
              | inl e2 ↦ absurd (ground arith)
              | inr (j, e2) ↦
                  elim (Bool-cases (verify_token db.hashes db.pepper token j.token_hash)) [
                    | inr bad ↦ absurd (ground arith)
                    | inl good ↦
                        (let same : j ≡ i = ground arith in (prefix, e, ground arith, ground arith))
                  ]
            ]
    ]

any-find :
    (p q : MemberRow → Bool) (rows : List MemberRow) (m : MemberRow)
    → any q rows ≡ false
    → find p rows ≡ some m
    → q m ≡ false
any-find p q [] m gone h = absurd (ground arith)
any-find p q (r ∷ rows) m gone h = ground (arith, any-find p q rows m)

find-any : (p : MemberRow → Bool) (rows : List MemberRow) → any p rows ≡ true → find p rows ≢ none
find-any p [] h = absurd (ground arith)
find-any p (r ∷ rows) h = λ e. ground (arith, find-any p rows)

module _ (org_id user_id : ℕ) (role : String) (rows : List MemberRow) where
  abbrev new_member : MemberRow
  new_member = record { org_id = org_id; user_id = user_id; role = role }

  add_member_there :
      any (is_membership org_id user_id) rows ≡ true → add_member org_id user_id role rows ≡ rows
  unfolding add_member
  add_member_there h = rw h refl

  add_member_new :
      any (is_membership org_id user_id) rows ≡ false
      → add_member org_id user_id role rows ≡ new_member ∷ rows
  unfolding add_member
  add_member_new h = rw h refl

  skip_other :
      (o u : ℕ) (m : MemberRow)
      → (org_id == o && user_id == u) ≡ false
      → find (is_membership o u) rows ≡ some m
      → find (is_membership o u) (new_member ∷ rows) ≡ some m
  skip_other o u m other h = rw other h

  found_first : find (is_membership org_id user_id) (new_member ∷ rows) ≡ some new_member
  found_first = ground arith

  -- A membership that is there stays.
  kept_member :
      (o u : ℕ) (m : MemberRow)
      → find (is_membership o u) rows ≡ some m
      → find (is_membership o u) (add_member org_id user_id role rows) ≡ some m
  kept_member o u m h = elim (Bool-cases (any (is_membership org_id user_id) rows)) [
    | inl there ↦ ap (find (is_membership o u)) (add_member_there there) ∙ h
    | inr new ↦
        let apart = any-find (is_membership o u) (is_membership org_id user_id) rows m new h in
        let here = find_holds (is_membership o u) rows m h in
        let other : (org_id == o && user_id == u) ≡ false = ground arith in
        ap (find (is_membership o u)) (add_member_new new) ∙ skip_other o u m other h
  ]

  -- A new membership has the role.
  joined_member :
      find (is_membership org_id user_id) rows ≡ none
      → find (is_membership org_id user_id) (add_member org_id user_id role rows) ≡ some new_member
  joined_member h = elim (Bool-cases (any (is_membership org_id user_id) rows)) [
    | inl there ↦ absurd (find-any (is_membership org_id user_id) rows there h)
    | inr new ↦ ap (find (is_membership org_id user_id)) (add_member_new new) ∙ found_first
  ]

pub found_role :
    (o u : ℕ) (rows : List MemberRow) (m : MemberRow)
    → find (is_membership o u) rows ≡ some m
    → member_role o u rows ≡ some m.role
unfolding member_role
found_role o u rows m h = ground arith

no_role :
    (o u : ℕ) (rows : List MemberRow)
    → member_role o u rows ≡ none
    → find (is_membership o u) rows ≡ none
unfolding member_role
no_role o u rows h = ground arith

pub role_row :
    (o u : ℕ) (rows : List MemberRow) (word : String)
    → member_role o u rows ≡ some word
    → (m : MemberRow) × (find (is_membership o u) rows ≡ some m) × (m.role ≡ word)
unfolding member_role
role_row o u rows word h = elim (Option-cases (find (is_membership o u) rows)) [
  | inl e ↦ absurd (ground arith)
  | inr (m, e) ↦ (m, e, ground arith)
]

-- What an acceptance has done.
pub record IsAccepted (db : Db) (io : Inputs) (user_id : ℕ) (token : Text) (s t : Store)
    : Type 0 where
  pub invite : InvitationRow
  pub shown : presented_invitation db io token s ≡ ok invite
  pub members : t.members ≡ add_member invite.org_id user_id invite.role s.members
  pub invitations : t.accounts.invitations ≡ accepted_rows io invite.id s.accounts.invitations

pub accept_invitation_by_token-IsAccepted :
    (db : Db) (io : Inputs) (user_id : ℕ) (token : Text) (s t : Store) (org : Organization)
    → accept_invitation_by_token db io user_id token s ≡ ok (org, t)
    → IsAccepted db io user_id token s t
unfolding accept_invitation_by_token join_org mark_accepted
accept_invitation_by_token-IsAccepted db io user_id token s t org h =
    bind_elim _ _ _ h λ invite s1 e1 h1. bind_elim _ _ _ h1 λ _ s2 e2 h2.
      bind_elim _ _ _ h2 λ found s3 e3 h3. bind_elim _ _ _ h3 λ _ s4 e4 h4.
        let (q1, p1) = query-eq-ok _ s e1 in
        let w2 = write-eq-ok _ s1 e2 in
        let p2 : s2
            ≡ record s1 { members = add_member invite.org_id user_id invite.role s1.members } =
          ground arith in
        let (_, p3) = query-eq-ok _ s2 e3 in
        let w4 = write-eq-ok _ s3 e4 in
        let p4 : s4 ≡ record s3 {
          accounts = record s3.accounts {
            invitations = accepted_rows io invite.id s3.accounts.invitations;
          };
        } =
          ground arith in
        let (_, p5) = pure-eq-ok _ _ s4 t h4 in
        let back : s3.accounts ≡ s.accounts =
          ap (λ x. x.accounts) (p3 ∙ p2) ∙ ap (λ x. x.accounts) p1 in
        record {
          invite = invite;
          shown = q1;
          members =
              ap (λ x. x.members) (p5 ∙ p4)
              ∙ ap (λ x. x.members) (p3 ∙ p2)
              ∙ ap (λ x. add_member invite.org_id user_id invite.role x.members) p1;
          invitations =
              ap (λ x. x.accounts.invitations) (p5 ∙ p4)
              ∙ ap (λ a. accepted_rows io invite.id a.invitations) back;
        }

-- An accepted invitation makes the user a member of its organization: with the invited role where
-- there was no membership, and with the role of before otherwise; every other membership stays.
pub accept_invitation_by_token-member_role :
    (db : Db) (io : Inputs) (user_id : ℕ) (token : Text) (s t : Store) (org : Organization)
    (i : InvitationRow)
    → accept_invitation_by_token db io user_id token s ≡ ok (org, t)
    → presented_invitation db io token s ≡ ok i
    → ((member_role i.org_id user_id s.members ≡ none)
        → member_role i.org_id user_id t.members ≡ some i.role)
      × ((o u : ℕ) (word : String)
          → member_role o u s.members ≡ some word
          → member_role o u t.members ≡ some word)
accept_invitation_by_token-member_role db io user_id token s t org i h shown =
    let x = accept_invitation_by_token-IsAccepted db io user_id token s t org h in
    let same : x.invite ≡ i = (let p = x.shown in ground arith) in
    let members : t.members ≡ add_member i.org_id user_id i.role s.members =
      x.members ∙ ap (λ j. add_member j.org_id user_id j.role s.members) same in
    (
      (λ e.
          ap (member_role i.org_id user_id) members
          ∙ found_role i.org_id user_id _ _ (
              joined_member i.org_id user_id i.role s.members
                (no_role i.org_id user_id s.members e))),
      (λ o u word e.
          let (m, found, role) = role_row o u s.members word e in
          ap (member_role o u) members
          ∙ found_role o u _ m (kept_member i.org_id user_id i.role s.members o u m found)
          ∙ ap some role),
    )

-- An invitation is accepted once: afterwards its token is refused with not_found, for every user
-- and at every time, where lookup prefixes are unique.
pub accept_invitation_by_token-not_found :
    (db : Db) (io io' : Inputs) (user_id user' : ℕ) (token : Text) (s t : Store)
    (org : Organization)
    → IsIndexed s.accounts.invitations
    → accept_invitation_by_token db io user_id token s ≡ ok (org, t)
    → accept_invitation_by_token db io' user' token t ≡ err not_found
unfolding accept_invitation_by_token presented_invitation
accept_invitation_by_token-not_found db io io' user_id user' token s t org indexed h =
    let x = accept_invitation_by_token-IsAccepted db io user_id token s t org h in
    let (prefix, p, found, _) = presented_invitation_lem db io token s x.invite x.shown in
    let gone : find (λ i. i.token_prefix == prefix && is_open io' i) t.accounts.invitations ≡ none =
      ap (find (λ i. i.token_prefix == prefix && is_open io' i)) x.invitations
      ∙ used_invitation io prefix io' s.accounts.invitations x.invite (indexed prefix) found in
    bind_err _ _ t (query_err _ t (ground arith))
