-- ===== src/Db/Grants/Refusals.antt =====
-- A user who is denied on a document: no operation on it succeeds.
use md_manager.Base.{ℕ, ◌≤◌, false, ◌≡◌, ◌≢◌, arith, ap, ◌∙◌, sym, subst}
use md_manager.Fault.{ok}
use md_manager.Text.{Text}
use md_manager.Model.{Role, AuthContext, VersionKind, role_level}
use md_manager.Rbac.{is_privileged}
use md_manager.Db.{Db, Inputs}
use md_manager.Db.Access.{may_doc, authorize_doc}
use md_manager.Db.Tables.{Store, DocumentRow}
use md_manager.Db.Tx.{Tx, ◌>>=◌, ◌>>◌, bind_elim, query-eq-ok}
use md_manager.Db.Versions.{find_live, lock_document}
use md_manager.Db.Document.{
  UpdateOutcome, DocumentVersion, get_document, update_document, append_to_document,
  restore_version, move_document, delete_document, undelete_document, get_version,
}
use md_manager.Db.Grants.{grant_document}
use md_manager.Db.Grants.Denials.{grant_document-denied}

module _ (db : Db) (io : Inputs) (ctx : AuthContext) (doc_id : ℕ) where
  -- The caller has been asked for a role on the document, and has it.
  abbrev Authorized : Store → Type 0
  Authorized s =
      (project_id : ℕ) × (need : Role) × (1 ≤ role_level need)
      × (may_doc ctx doc_id project_id need s ≡ ok tt)

  -- An operation that finds a row and then asks.
  asks :
      {R B : Type 0} (m : Tx R) (project_of : R → ℕ) (need : Role) (f : R → Tx B) (s : Store)
      {b : B} {t : Store}
      → ((r : R) (u : Store) → m s ≡ ok (r, u) → u ≡ s)
      → 1 ≤ role_level need
      → (m >>= λ r. authorize_doc ctx doc_id (project_of r) need >> f r) s ≡ ok (b, t)
      → Authorized s
  unfolding authorize_doc
  asks m project_of need f s reads some_need h = bind_elim _ _ _ h λ r s1 e1 h1.
      bind_elim _ _ _ h1 λ _ s2 e2 h2.
        let (may, _) = query-eq-ok _ s1 e2 in
        (
          project_of r,
          need,
          some_need,
          ap (may_doc ctx doc_id (project_of r) need) (sym (reads r s1 e1)) ∙ ground arith,
        )

  reads_live :
      (s : Store) (r : DocumentRow) (u : Store) → find_live db io ctx doc_id s ≡ ok (r, u) → u ≡ s
  unfolding find_live
  reads_live s r u e = (query-eq-ok _ s e).1

  get_document-Authorized :
      (s : Store) {d : DocumentRow} {t : Store}
      → get_document db io ctx doc_id s ≡ ok (d, t)
      → Authorized s
  unfolding get_document
  get_document-Authorized s h =
      asks (find_live db io ctx doc_id) (λ r. r.project_id) Role.viewer _ s (reads_live s)
        (omega arith) h

  update_document-Authorized :
      (content : Text) (expected : ℕ) (kind : VersionKind) (s : Store) {d : UpdateOutcome}
      {t : Store}
      → update_document db io ctx doc_id content expected kind s ≡ ok (d, t)
      → Authorized s
  unfolding update_document lock_document
  update_document-Authorized content expected kind s h = bind_elim _ _ _ h λ _ s1 e1 h1.
      subst Authorized ((query-eq-ok _ s e1).1) (
        asks (find_live db io ctx doc_id) (λ r. r.project_id) Role.editor _ s1 (reads_live s1)
          (omega arith) h1)

  append_to_document-Authorized :
      (addition : Text) (s : Store) {d : DocumentRow} {t : Store}
      → append_to_document db io ctx doc_id addition s ≡ ok (d, t)
      → Authorized s
  unfolding append_to_document lock_document
  append_to_document-Authorized addition s h =
      asks (find_live db io ctx doc_id) (λ r. r.project_id) Role.editor _ s (reads_live s)
        (omega arith) h

  restore_version-Authorized :
      (version : ℕ) (s : Store) {d : DocumentRow} {t : Store}
      → restore_version db io ctx doc_id version s ≡ ok (d, t)
      → Authorized s
  unfolding restore_version lock_document
  restore_version-Authorized version s h =
      asks (find_live db io ctx doc_id) (λ r. r.project_id) Role.editor _ s (reads_live s)
        (omega arith) h

  move_document-Authorized :
      (path : Text) (s : Store) {d : DocumentRow} {t : Store}
      → move_document db io ctx doc_id path s ≡ ok (d, t)
      → Authorized s
  unfolding move_document lock_document
  move_document-Authorized path s h = bind_elim _ _ _ h λ _ s1 e1 h1.
      subst Authorized ((query-eq-ok _ s e1).1) (
        asks (find_live db io ctx doc_id) (λ r. r.project_id) Role.editor _ s1 (reads_live s1)
          (omega arith) h1)

  delete_document-Authorized :
      (s : Store) {d : Unit {0}} {t : Store}
      → delete_document db io ctx doc_id s ≡ ok (d, t)
      → Authorized s
  unfolding delete_document lock_document
  delete_document-Authorized s h =
      asks (find_live db io ctx doc_id) (λ r. r.project_id) Role.editor _ s (reads_live s)
        (omega arith) h

  undelete_document-Authorized :
      (s : Store) {d : DocumentRow} {t : Store}
      → undelete_document db io ctx doc_id s ≡ ok (d, t)
      → Authorized s
  unfolding undelete_document
  undelete_document-Authorized s h =
      asks _ (λ r. r.project_id) Role.editor _ s (λ r u e. (query-eq-ok _ s e).1) (omega arith) h

  get_version-Authorized :
      (version : ℕ) (s : Store) {d : DocumentVersion} {t : Store}
      → get_version db io ctx doc_id version s ≡ ok (d, t)
      → Authorized s
  unfolding get_version
  get_version-Authorized version s h =
      asks (find_live db io ctx doc_id) (λ r. r.project_id) Role.viewer _ s (reads_live s)
        (omega arith) h

-- No operation that names the document by its identifier succeeds.
abbrev pub ShutOut : Db → Inputs → AuthContext → ℕ → Store → Type 0
ShutOut db io ctx doc_id t =
    ((d : DocumentRow) (u : Store) → get_document db io ctx doc_id t ≢ ok (d, u))
    × ((version : ℕ) (v : DocumentVersion) (u : Store)
        → get_version db io ctx doc_id version t ≢ ok (v, u))
    × ((content : Text) (expected : ℕ) (kind : VersionKind) (o : UpdateOutcome) (u : Store)
        → update_document db io ctx doc_id content expected kind t ≢ ok (o, u))
    × ((addition : Text) (d : DocumentRow) (u : Store)
        → append_to_document db io ctx doc_id addition t ≢ ok (d, u))
    × ((version : ℕ) (d : DocumentRow) (u : Store)
        → restore_version db io ctx doc_id version t ≢ ok (d, u))
    × ((path : Text) (d : DocumentRow) (u : Store)
        → move_document db io ctx doc_id path t ≢ ok (d, u))
    × ((u : Store) → delete_document db io ctx doc_id t ≢ ok (tt, u))
    × ((d : DocumentRow) (u : Store) → undelete_document db io ctx doc_id t ≢ ok (d, u))

-- A denial shuts its user out of the document: once `grant_document` has given a user the role `none`
-- on a document, then for that user in that organization, who is neither an owner nor an
-- administrator, get_document, get_version, update_document, append_to_document, restore_version,
-- move_document, delete_document and undelete_document do not succeed on it, whatever the arguments.
pub grant_document-ShutOut :
    (db : Db) (io io' : Inputs) (ctx ctx' : AuthContext) (doc_id : ℕ) (s t : Store)
    → grant_document io ctx doc_id "user" ctx'.user_id Role.none s ≡ ok (tt, t)
    → ctx'.org_id ≡ ctx.org_id
    → is_privileged ctx'.org_role ≡ false
    → ShutOut db io' ctx' doc_id t
grant_document-ShutOut db io io' ctx ctx' doc_id s t h same_org plain =
    let shut : Authorized db io' ctx' doc_id t → ⊥ = λ (project_id, need, some_need, may).
      grant_document-denied io ctx ctx' doc_id project_id need s t h same_org plain some_need may in
    (
      (λ d u e. shut (get_document-Authorized db io' ctx' doc_id t e)),
      (λ n v u e. shut (get_version-Authorized db io' ctx' doc_id n t e)),
      (λ c n k o u e. shut (update_document-Authorized db io' ctx' doc_id c n k t e)),
      (λ a d u e. shut (append_to_document-Authorized db io' ctx' doc_id a t e)),
      (λ n d u e. shut (restore_version-Authorized db io' ctx' doc_id n t e)),
      (λ p d u e. shut (move_document-Authorized db io' ctx' doc_id p t e)),
      (λ u e. shut (delete_document-Authorized db io' ctx' doc_id t e)),
      (λ d u e. shut (undelete_document-Authorized db io' ctx' doc_id t e)),
    )
