-- ===== src/Db/Projects/Laws.antt =====
-- The life of a project: what was created is found by its slug.
use md_manager.Base.{◌∷◌, ◌≡◌, refl, ◌∙◌, arith, nat_eq, bytes_eq, find}
use md_manager.Fault.{ok, not_found, ok_or}
use md_manager.Text.{Text}
use md_manager.Model.{AuthContext}
use md_manager.Rbac.{require_read}
use md_manager.Db.{Inputs}
use md_manager.Db.Statements.Laws.{write-eq-ok, audit_lem, put-eq-ok, insert_row_lem}
use md_manager.Db.Tables.{Store}
use md_manager.Db.Tx.{bind_elim, bind_ok, query-eq-ok, query_ok, pure-eq-ok, pure}
use md_manager.Db.Projects.{
  Project, create_project, get_project_by_slug, insert_project, project_row, into_project, has_slug,
}

module _ (io : Inputs) (ctx : AuthContext) (slug name : Text) (s t : Store) where
  create_project_lem :
      (created : Project)
      → create_project io ctx slug name s ≡ ok (created, t)
      → (created ≡ into_project (project_row io ctx slug name))
        × (t.projects ≡ project_row io ctx slug name ∷ s.projects)
  unfolding create_project insert_project
  create_project_lem created h = bind_elim _ _ _ h λ _ s1 e1 h1. bind_elim _ _ _ h1 λ _ s2 e2 h2.
      bind_elim _ _ _ h2 λ _ s3 e3 h3. bind_elim _ _ _ h3 λ _ s4 e4 h4.
        let (_, p1) = query-eq-ok _ s e1 in
        let (_, p2) = query-eq-ok _ s1 e2 in
        let (rows, r, p3) = put-eq-ok _ _ (write-eq-ok _ s2 e3) in
        let (_, inserted) = insert_row_lem _ _ _ s2.projects r in
        let p4 = audit_lem ctx s3 io (io.new_id 2) _ _ _ e4 in
        let (p5, p6) = pure-eq-ok _ _ s4 t h4 in
        let back : s2 ≡ s = p2 ∙ p1 in
        let t_rows : t.projects ≡ rows = ground arith in (ground arith, t_rows ∙ inserted ∙ cc)

  -- A project that was just created is found by its slug, as it was returned, by every caller of
  -- its organization who may read, and the search writes nothing.
  pub create_project-get_project_by_slug :
      (created : Project) (reader : AuthContext)
      → create_project io ctx slug name s ≡ ok (created, t)
      → reader.org_id ≡ ctx.org_id
      → require_read reader ≡ ok tt
      → get_project_by_slug reader slug t ≡ ok (created, t)
  unfolding get_project_by_slug project_row pure
  create_project-get_project_by_slug created reader h same allowed =
      let (made, rows) = create_project_lem created h in
      let found : ok_or (find (has_slug reader.org_id slug) t.projects) not_found
          ≡ ok (project_row io ctx slug name) =
        rw rows (rw same (ground arith)) in
      bind_ok _ _ t (query_ok _ t allowed) (bind_ok _ _ t (query_ok _ t found) (rw made refl))
