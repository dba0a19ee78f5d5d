-- ===== src/Db/Access/Laws.antt =====
-- What an access decision depends on, and how permissions imply one another.
use md_manager.Base.{ℕ, ◌≡◌, ◌≤◌, refl, arith}
use md_manager.Fault.{Result, ok, err}
use md_manager.Model.{Role, AuthContext, role_level}
use md_manager.Db.Access.{effective_doc_role, may_doc, reaches}
use md_manager.Db.Tables.{Store}

-- Two stores with the same teams and grants give the same role.
effective_doc_role_frame :
    (ctx : AuthContext) (doc_id project_id : ℕ) (s t : Store)
    → t.team_members ≡ s.team_members
    → t.project_grants ≡ s.project_grants
    → t.document_grants ≡ s.document_grants
    → effective_doc_role ctx doc_id project_id t ≡ effective_doc_role ctx doc_id project_id s
unfolding effective_doc_role
effective_doc_role_frame ctx doc_id project_id s t e1 e2 e3 = rw (e1, e2, e3) refl

reaches_less :
    (r : Result Role) (more less : Role)
    → role_level less ≤ role_level more
    → reaches more r ≡ ok tt
    → reaches less r ≡ ok tt
reaches_less (ok have) more less le h = ground arith
reaches_less (err e) more less le h = ground arith

-- A permission implies each lower one, also after statements that leave teams and grants alone.
pub may_doc_after :
    (ctx : AuthContext) (doc_id project_id : ℕ) (more less : Role) (s t : Store)
    → role_level less ≤ role_level more
    → t.team_members ≡ s.team_members
    → t.project_grants ≡ s.project_grants
    → t.document_grants ≡ s.document_grants
    → may_doc ctx doc_id project_id more s ≡ ok tt
    → may_doc ctx doc_id project_id less t ≡ ok tt
unfolding may_doc
may_doc_after ctx doc_id project_id more less s t le e1 e2 e3 h =
    rw (effective_doc_role_frame ctx doc_id project_id s t e1 e2 e3)
      (reaches_less (effective_doc_role ctx doc_id project_id s) more less le h)
