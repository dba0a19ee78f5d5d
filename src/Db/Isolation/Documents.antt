-- ===== src/Db/Isolation/Documents.antt =====
-- Tenant isolation of the document operations.
use md_manager.Base.{
  All, subst, ℕ, Bool, true, Option, none, some, List, [], ◌∷◌, ◌≡◌, refl, nat_eq, if◌then◌else◌,
  arith, String, Bool-cases, inl, inr,
}
use md_manager.Fault.{Error, Result, ok, err}
use md_manager.Text.{Text}
use md_manager.Model.{Role, AuthContext, VersionKind}
use md_manager.Db.{Inputs, Db}
use md_manager.Db.Access.{authorize_doc, authorize_project}
use md_manager.Db.Rows.{update_rows}
use md_manager.Db.Statements.{set_content, returning}
use md_manager.Db.Tables.{Store, DocumentRow, VersionRow, Scalar}
use md_manager.Db.Tx.{Tx, pure, fail, query, write, ◌>>=◌, ◌>>◌}
use md_manager.Db.Tx.Keeps.{
  Keeps, Keeps-write, Keeps-query, Keeps-pure, Keeps-fail, Keeps-bind, Keeps-if, Wrote-elim,
  Keeps-commit,
}
use md_manager.Db.Versions.{
  insert_document, overwrite_version, save_version, overwrite_latest, coalesce_or_save, finish,
  set_path, drop_document, revive, rewritten, bumped, find_live, lock_document,
}
use md_manager.Db.Document.{
  create_document, update_document, append_to_document, restore_version, move_document,
  delete_document, undelete_document,
}
use md_manager.Db.Requests.{
  serve_all, Request, create, update, append, restore, move, delete, undelete, perform, serve,
}
use md_manager.Db.Versions.{document_rows}
use md_manager.Db.Versions.Laws.{document_rows_lem}
use md_manager.Db.Isolation.{
  SameForeign, SameForeign-preorder, rewrite_tables, foreign-update_rows, foreign-delete_rows,
  foreign-insert_row, set_content-SameForeign, insert_version-SameForeign, audit-SameForeign,
  reindex_chunks-SameForeign,
}

module _ (db : Db) (io : Inputs) (ctx : AuthContext) where
  abbrev Isolated {ℓ} : {A : Type ℓ} → Tx A → Type ℓ
  Isolated m = Keeps (SameForeign ctx.org_id) m

  query-Isolated {ℓ} : {A : Type ℓ} (f : Store → Result A) → Isolated (query f)
  query-Isolated f = Keeps-query (SameForeign ctx.org_id) (SameForeign-preorder ctx.org_id) f

  bind-Isolated :
      {A B : Type 0} (m : Tx A) (f : A → Tx B)
      → Isolated m
      → ((a : A) → Isolated (f a))
      → Isolated (m >>= f)
  bind-Isolated = Keeps-bind (SameForeign ctx.org_id) (SameForeign-preorder ctx.org_id)

  pure-Isolated : {A : Type 0} (a : A) → Isolated (pure a)
  pure-Isolated = Keeps-pure (SameForeign ctx.org_id) (SameForeign-preorder ctx.org_id)

  fail-Isolated : {A : Type 0} (e : Error) → Isolated (fail {A = A} e)
  fail-Isolated = Keeps-fail (SameForeign ctx.org_id) (SameForeign-preorder ctx.org_id)

  if-Isolated :
      {A : Type 0} (b : Bool) (m n : Tx A) → Isolated m → Isolated n → Isolated (if b then m else n)
  if-Isolated = Keeps-if (SameForeign ctx.org_id) (SameForeign-preorder ctx.org_id)

  authorize-Isolated :
      (doc project : ℕ) (need : Role) → Isolated (authorize_doc ctx doc project need)
  unfolding authorize_doc
  authorize-Isolated doc project need = query-Isolated _

  find-Isolated : (doc : ℕ) → Isolated (find_live db io ctx doc)
  unfolding find_live
  find-Isolated doc = query-Isolated _

  lock-Isolated : (doc : ℕ) → Isolated (lock_document db io ctx doc)
  unfolding lock_document
  lock-Isolated doc = find-Isolated doc

  returning-Isolated : (doc : ℕ) → Isolated (returning ctx.org_id doc)
  unfolding returning
  returning-Isolated doc = query-Isolated _

  bump-Isolated :
      (doc : ℕ) (content hash : Text) (version : ℕ)
      → Isolated (set_content ctx.org_id doc content (bumped db io ctx content hash version))
  unfolding bumped
  bump-Isolated doc content hash version =
      set_content-SameForeign ctx.org_id doc content _ (λ d. refl)

  rewrite-Isolated :
      (doc : ℕ) (content hash : Text)
      → Isolated (set_content ctx.org_id doc content (rewritten db io ctx content hash))
  unfolding rewritten
  rewrite-Isolated doc content hash = set_content-SameForeign ctx.org_id doc content _ (λ d. refl)

  overwrite-Isolated :
      (row_id : ℕ) (content hash : Text)
      → Isolated (overwrite_version db io ctx row_id content hash)
  unfolding overwrite_version
  overwrite-Isolated row_id content hash =
      Keeps-write (SameForeign ctx.org_id) (SameForeign-preorder ctx.org_id) _ λ s.
        rewrite_tables ctx.org_id s s.documents _ s.chunks s.audit_log refl
          (foreign-update_rows (λ r. r.org_id) ctx.org_id _ _ s.versions (λ r p. ground arith)
            (λ r. refl))
          refl refl

  ruleset rules-Isolated = (
    query-Isolated, bind-Isolated, pure-Isolated, fail-Isolated, if-Isolated, authorize-Isolated,
    find-Isolated, lock-Isolated, returning-Isolated, bump-Isolated, rewrite-Isolated,
    overwrite-Isolated, insert_version-SameForeign, audit-SameForeign, reindex_chunks-SameForeign,
  )

  save-Isolated :
      (doc version : ℕ) (content : Text) (kind : VersionKind)
      → Isolated (save_version db io ctx doc version content kind)
  unfolding save_version
  save-Isolated doc version content kind = search rules-Isolated depth 12

  latest-Isolated :
      (doc : ℕ) (content : Text) (latest : Option VersionRow)
      → Isolated (overwrite_latest db io ctx doc content latest)
  unfolding overwrite_latest
  latest-Isolated doc content none = fail-Isolated _
  latest-Isolated doc content (some v) = search rules-Isolated depth 12

  finish-Isolated :
      (action : String) (doc : ℕ) (content : Text) (metadata : List (String × Scalar))
      → Isolated (finish db io ctx action doc content metadata)
  unfolding finish
  finish-Isolated action doc content metadata = search rules-Isolated depth 12

  coalesce-Isolated :
      (doc current : ℕ) (content : Text) (kind : VersionKind)
      → Isolated (coalesce_or_save db io ctx doc current content kind)
  unfolding coalesce_or_save
  coalesce-Isolated doc current content kind =
      search (rules-Isolated, save-Isolated, latest-Isolated) depth 12

  insert-Isolated :
      (project : ℕ) (d : DocumentRow)
      → d.org_id ≡ ctx.org_id
      → Isolated (insert_document db io ctx project d)
  unfolding insert_document
  insert-Isolated project d mine =
      Keeps-write (SameForeign ctx.org_id) (SameForeign-preorder ctx.org_id) _ λ s.
        Wrote-elim (SameForeign ctx.org_id) s (document_rows db io ctx project d s.documents) _
          λ rows e.
            rewrite_tables ctx.org_id s rows s.versions s.chunks s.audit_log
              (foreign-insert_row (λ r. r.org_id) ctx.org_id _ _ _ s.documents rows mine
                (document_rows_lem db io ctx project d s.documents rows e))
              refl refl refl

  -- A new list of documents, refused where a path clashes.
  guarded-Isolated :
      (clash : Store → Bool) (e : Error) (p : DocumentRow → Bool) (f : DocumentRow → DocumentRow)
      → ((d : DocumentRow) → p d ≡ true → d.org_id ≡ ctx.org_id)
      → ((d : DocumentRow) → (f d).org_id ≡ d.org_id)
      → Isolated (
          write λ s.
            if clash s then err e else ok (record s { documents = update_rows p f s.documents }))
  guarded-Isolated clash e p f mine same =
      Keeps-write (SameForeign ctx.org_id) (SameForeign-preorder ctx.org_id) _ λ s.
        elim (Bool-cases (clash s)) [
          | inl taken ↦ rw taken tt
          | inr free ↦ rw free (
              rewrite_tables ctx.org_id s _ s.versions s.chunks s.audit_log
                (foreign-update_rows (λ r. r.org_id) ctx.org_id p f s.documents mine same) refl refl
                refl)
        ]

  set_path-Isolated :
      (doc project : ℕ) (path : Text) → Isolated (set_path db io ctx doc project path)
  unfolding set_path
  set_path-Isolated doc project path = guarded-Isolated _ _ _ _ (λ d h. ground arith) (λ d. refl)

  revive-Isolated : (doc : ℕ) (old : DocumentRow) → Isolated (revive db io ctx doc old)
  unfolding revive
  revive-Isolated doc old = guarded-Isolated _ _ _ _ (λ d h. ground arith) (λ d. refl)

  drop-Isolated : (doc : ℕ) → Isolated (drop_document db io ctx doc)
  unfolding drop_document
  drop-Isolated doc = Keeps-write (SameForeign ctx.org_id) (SameForeign-preorder ctx.org_id) _ λ s.
      rewrite_tables ctx.org_id s _ s.versions _ s.audit_log
        (foreign-update_rows (λ r. r.org_id) ctx.org_id _ _ s.documents (λ d h. ground arith)
          (λ d. refl))
        refl (foreign-delete_rows (λ r. r.org_id) ctx.org_id _ s.chunks (λ c h. ground arith)) refl

  project-Isolated : (project : ℕ) (need : Role) → Isolated (authorize_project ctx project need)
  unfolding authorize_project
  project-Isolated project need = query-Isolated _

  -- The insertion of the created document, whose organization is the caller's.
  insert_mine-Isolated :
      (project : ℕ) (d : DocumentRow) (m : Tx DocumentRow)
      → d.org_id ≡ ctx.org_id
      → Isolated m
      → Isolated (insert_document db io ctx project d >> m)
  insert_mine-Isolated project d m mine k =
      bind-Isolated _ _ (insert-Isolated project d mine) (λ _. k)

  ruleset operation_rules = (
    rules-Isolated, save-Isolated, finish-Isolated, coalesce-Isolated, set_path-Isolated,
    drop-Isolated, revive-Isolated, project-Isolated,
  )

  create-Isolated :
      (project : ℕ) (path title content : Text)
      → Isolated (create_document db io ctx project path title content)
  unfolding create_document
  create-Isolated project path title content = bind-Isolated _ _ (query-Isolated _) λ _.
      bind-Isolated _ _ (query-Isolated _) λ _. bind-Isolated _ _ (query-Isolated _) λ _.
        bind-Isolated _ _ (query-Isolated _) λ _. bind-Isolated _ _ (project-Isolated _ _) λ _.
          bind-Isolated _ _ (query-Isolated _)
            λ _. insert_mine-Isolated _ _ _ refl (search operation_rules depth 12)

  update-Isolated :
      (doc : ℕ) (content : Text) (expected : ℕ) (kind : VersionKind)
      → Isolated (update_document db io ctx doc content expected kind)
  unfolding update_document
  update-Isolated doc content expected kind = search operation_rules depth 16

  append-Isolated :
      (doc : ℕ) (addition : Text) → Isolated (append_to_document db io ctx doc addition)
  unfolding append_to_document
  append-Isolated doc addition = search operation_rules depth 16

  restore-Isolated : (doc version : ℕ) → Isolated (restore_version db io ctx doc version)
  unfolding restore_version
  restore-Isolated doc version = search operation_rules depth 16

  move-Isolated : (doc : ℕ) (path : Text) → Isolated (move_document db io ctx doc path)
  unfolding move_document
  move-Isolated doc path = search operation_rules depth 16

  delete-Isolated : (doc : ℕ) → Isolated (delete_document db io ctx doc)
  unfolding delete_document
  delete-Isolated doc = search operation_rules depth 16

  undelete-Isolated : (doc : ℕ) → Isolated (undelete_document db io ctx doc)
  unfolding undelete_document
  undelete-Isolated doc = search operation_rules depth 16

  perform-Isolated : (r : Request) → Isolated (perform db io ctx r)
  unfolding perform
  perform-Isolated (create project path title content) =
      bind-Isolated _ _ (create-Isolated project path title content) λ _. pure-Isolated tt
  perform-Isolated (update doc content expected kind) =
      bind-Isolated _ _ (update-Isolated doc content expected kind) λ _. pure-Isolated tt
  perform-Isolated (append doc addition) =
      bind-Isolated _ _ (append-Isolated doc addition) λ _. pure-Isolated tt
  perform-Isolated (restore doc version) =
      bind-Isolated _ _ (restore-Isolated doc version) λ _. pure-Isolated tt
  perform-Isolated (move doc path) =
      bind-Isolated _ _ (move-Isolated doc path) λ _. pure-Isolated tt
  perform-Isolated (delete doc) = delete-Isolated doc
  perform-Isolated (undelete doc) = bind-Isolated _ _ (undelete-Isolated doc) λ _. pure-Isolated tt

serve-SameForeign :
    (db : Db) (io : Inputs) (ctx : AuthContext) (r : Request) (s : Store)
    → SameForeign ctx.org_id s (serve db io ctx r s)
unfolding serve
serve-SameForeign db io ctx r s =
    Keeps-commit (SameForeign ctx.org_id) (SameForeign-preorder ctx.org_id) _
      (perform-Isolated db io ctx r) s

-- Whatever the callers of one organization ask, one request after another, in any state, whether
-- their requests commit or fail: afterwards the documents, versions, chunks and audit entries of
-- every other organization are the same, and so are the whole tables of members, projects, teams,
-- team members, grants and API keys, and the tables of the accounts and of OAuth.
pub serve_all-SameForeign :
    (db : Db) (org_id : ℕ) (history : List (Inputs × AuthContext × Request)) (s : Store)
    → All (λ h. (h.1).org_id ≡ org_id) history
    → SameForeign org_id s (serve_all db history s)
unfolding serve_all
serve_all-SameForeign db org_id [] s _ = (SameForeign-preorder org_id).reflexive s
serve_all-SameForeign db org_id ((io, ctx, r) ∷ rest) s (e, es) =
    (SameForeign-preorder org_id).transitive s _ _
      (subst (λ o. SameForeign o s (serve db io ctx r s)) e (serve-SameForeign db io ctx r s))
      (serve_all-SameForeign db org_id rest _ es)
