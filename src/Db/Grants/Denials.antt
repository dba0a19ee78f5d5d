-- ===== src/Db/Grants/Denials.antt =====
-- A deny grant on a document takes effect.
use md_manager.Base.{
  ℕ, Bool, true, false, not, ◌&&◌, List, [], ◌∷◌, any, ◌==◌, ◌≤◌, nat_eq, string_eq, ◌≡◌, ◌≢◌,
  arith,
}
use md_manager.Fault.{ok}
use md_manager.Model.{Role, AuthContext, role_as_str, role_level}
use md_manager.Rbac.{resolve_doc_role, is_privileged}
use md_manager.Db.{Inputs}
use md_manager.Db.Access.{may_doc, effective_doc_role, has_deny, team_ids, grant_applies, in_org}
use md_manager.Db.Rows.{update_rows, insert_row}
use md_manager.Db.Statements.Laws.{write-eq-ok, audit_lem, put-eq-ok}
use md_manager.Db.Tables.{Store, GrantRow}
use md_manager.Db.Tx.{bind_elim}
use md_manager.Db.Grants.{upsert_grant, same_grant, grant_document, grant_row}

-- A grant as it stands after an upsert.
abbrev stands : GrantRow → GrantRow → Bool
stands g r =
    same_grant g.target_id g.subject_type g.subject_id r
    && (in_org g.org_id r.org_id && r.role == g.role)

any_mono :
    (p q : GrantRow → Bool) (rows : List GrantRow)
    → ((r : GrantRow) → p r ≡ true → q r ≡ true)
    → any p rows ≡ true
    → any q rows ≡ true
any_mono p q [] h e = ground arith
any_mono p q (r ∷ rows) h e = ground (arith, h r, any_mono p q rows h)

update_rows-stands :
    (g : GrantRow) (rows : List GrantRow)
    → any
        (λ r.
          same_grant g.target_id g.subject_type g.subject_id r && not (in_org g.org_id r.org_id))
        rows
      ≡ false
    → any (same_grant g.target_id g.subject_type g.subject_id) rows ≡ true
    → any (stands g) (
        update_rows
          (same_grant g.target_id g.subject_type g.subject_id)
          (λ r. record r { role = g.role })
          rows)
      ≡ true
unfolding update_rows
update_rows-stands g [] h e = ground arith
update_rows-stands g (r ∷ rows) h e = ground (arith, update_rows-stands g rows)

upsert_grant-stands :
    (g : GrantRow) (rows : List GrantRow) {more : List GrantRow}
    → upsert_grant g rows ≡ ok more
    → any (stands g) more ≡ true
unfolding upsert_grant insert_row
upsert_grant-stands g rows h = let rest = update_rows-stands g rows in ground arith

-- A deny that applies leaves no permission on the document, whatever else is granted.
has_deny-may_doc :
    (ctx : AuthContext) (doc_id project_id : ℕ) (need : Role) (s : Store)
    → has_deny ctx.org_id doc_id ctx.user_id
        (team_ids ctx.org_id ctx.user_id s.team_members)
        s.document_grants
      ≡ true
    → is_privileged ctx.org_role ≡ false
    → 1 ≤ role_level need
    → may_doc ctx doc_id project_id need s ≢ ok tt
unfolding may_doc effective_doc_role resolve_doc_role
has_deny-may_doc ctx doc_id project_id need s denied plain some_need = λ h. ground arith

stands-has_deny :
    (io : Inputs) (ctx ctx' : AuthContext) (doc_id : ℕ) (s : Store)
    → any (stands (grant_row io ctx doc_id "user" ctx'.user_id Role.none)) s.document_grants ≡ true
    → ctx'.org_id ≡ ctx.org_id
    → has_deny ctx'.org_id doc_id ctx'.user_id
        (team_ids ctx'.org_id ctx'.user_id s.team_members)
        s.document_grants
      ≡ true
unfolding has_deny grant_applies role_as_str
stands-has_deny io ctx ctx' doc_id s h same_org =
    any_mono _ _ s.document_grants (λ r e. ground arith) h

-- Once an admin has denied a user a document, that user has no permission on it, whatever other
-- grants there are, unless the user is an owner or admin of the organization.
pub grant_document-denied :
    (io : Inputs) (ctx ctx' : AuthContext) (doc_id project_id : ℕ) (need : Role) (s t : Store)
    → grant_document io ctx doc_id "user" ctx'.user_id Role.none s ≡ ok (tt, t)
    → ctx'.org_id ≡ ctx.org_id
    → is_privileged ctx'.org_role ≡ false
    → 1 ≤ role_level need
    → may_doc ctx' doc_id project_id need t ≢ ok tt
unfolding grant_document
grant_document-denied io ctx ctx' doc_id project_id need s t h same_org plain some_need =
    bind_elim _ _ _ h λ _ s1 e1 h1. bind_elim _ _ _ h1 λ _ s2 e2 h2.
      bind_elim _ _ _ h2 λ _ s3 e3 h3.
        let (rows, r, p3) = put-eq-ok _ _ (write-eq-ok _ s2 e3) in
        let p4 = audit_lem ctx s3 io (io.new_id 2) _ _ _ h3 in
        let standing = upsert_grant-stands _ s2.document_grants r in
        let same_rows : t.document_grants ≡ rows = ground arith in
        has_deny-may_doc ctx' doc_id project_id need t
          (stands-has_deny io ctx ctx' doc_id t (rw same_rows standing) same_org) plain some_need
