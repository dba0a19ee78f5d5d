-- ===== src/Db/Document/Updates.antt =====
-- Optimistic concurrency: what `update_document` does, on each branch.
use md_manager.Base.{
  ℕ, ◌+◌, ◌*◌, ◌<◌, sym, Option, string_eq, false, bytes_eq, true, not, some, List, [], ◌∷◌, ◌≡◌,
  ◌≢◌, refl, ◌∙◌, ◌==◌, nat_eq, if◌then◌else◌, arith, Bool-cases, inl, inr, find, ◌⊎◌,
}
use md_manager.Fault.{ok}
use md_manager.Text.{Text}
use md_manager.Crypto.{content_hash}
use md_manager.Db.Rows.Laws.{find-update_rows}
use md_manager.Validate.{validate_content_size}
use md_manager.Model.{Role, AuthContext, VersionKind, version_kind_as_str, actor_type_as_str}
use md_manager.Db.{Inputs, Db}
use md_manager.Db.Access.{may_doc, authorize_doc}
use md_manager.Db.Access.Laws.{may_doc_after}
use md_manager.Db.Rows.{update_rows}
use md_manager.Db.Statements.{live_at_id, at_id}
use md_manager.Db.Tables.{Store, DocumentRow, VersionRow, num}
use md_manager.Db.Tx.{pure, query, ◌>>=◌, ◌>>◌, bind_elim, query-eq-ok, pure-eq-ok}
use md_manager.Db.Versions.{
  coalesce_or_save, rewritten, bumped, finish, find_live, lock_document, snapshot, text_or_empty,
  coalesces, latest_version,
}
use md_manager.Db.Versions.Newest.{IsNewest, latest_version-IsNewest}
use md_manager.Db.Versions.Laws.{CoalescedOrSaved, coalesce_or_save_lem, finish_lem}
use md_manager.Db.Document.{updated, stale, update_document, get_document}

module _ (db : Db) (io : Inputs) (ctx : AuthContext) (doc_id : ℕ) (s : Store)
    {cur : DocumentRow} where
  -- An update of a live document that the caller may edit, with a content of legal size and a stale
  -- expected version: nothing is written, and the caller gets what a merge needs, which is
  -- the current version and content, and the content of the version that the caller started from.
  pub update_document_stale :
      (content : Text) (expected : ℕ) (kind : VersionKind)
      → validate_content_size content db.max_doc_bytes ≡ ok tt
      → find (live_at_id ctx.org_id doc_id) s.documents ≡ some cur
      → may_doc ctx doc_id cur.project_id Role.editor s ≡ ok tt
      → cur.current_version ≢ expected
      → update_document db io ctx doc_id content expected kind s
        ≡ ok (
          stale cur.current_version cur.content
              (text_or_empty (snapshot ctx.org_id doc_id expected s.versions)),
          s,
        )
  unfolding update_document lock_document find_live authorize_doc ◌>>=◌
  update_document_stale content expected kind fits found allowed differs = ground arith

-- An autosave that is merged into the latest version: that is an autosave by the same actor, and it
-- is younger than the debounce interval.
pub record IsMerged (db : Db) (io : Inputs) (ctx : AuthContext) (kind : VersionKind)
    (latest : Option VersionRow) : Type 0 where
  pub row : VersionRow
  pub last : latest ≡ some row
  pub autosaves : (kind ≡ VersionKind.autosave) × (row.version_kind ≡ "autosave")
  pub same_actor :
      (row.actor_id ≡ ctx.user_id) × (row.actor_type ≡ actor_type_as_str ctx.actor_type)
  pub recent : io.now_utc < row.created_at + db.autosave_debounce_secs * 1000000

-- The version after an update: kept where the content is merged into the document's newest version
-- row, and else the next.
abbrev pub Advances : Db → Inputs → AuthContext → ℕ → VersionKind → List VersionRow → ℕ → ℕ → Type 0
Advances db io ctx doc_id kind rows before after =
    let latest = latest_version ctx.org_id doc_id rows in
    (((m : IsMerged db io ctx kind latest) × IsNewest ctx.org_id doc_id m.row rows)
      × (after ≡ before))
    ⊎ ((IsMerged db io ctx kind latest → ⊥) × (after ≡ before + 1))

module _ (db : Db) (io : Inputs) (ctx : AuthContext) where
  pub coalesces-IsMerged :
      (kind : VersionKind) (latest : Option VersionRow) (row : VersionRow)
      → latest ≡ some row
      → coalesces db io ctx kind (some row) ≡ true
      → (m : IsMerged db io ctx kind latest) × (m.row ≡ row)
  unfolding coalesces version_kind_as_str
  coalesces-IsMerged VersionKind.checkpoint latest row e h =
      absurd (unfold string_eq in ground arith)
  coalesces-IsMerged VersionKind.autosave latest row e h = (
    record {
      row = row;
      last = e;
      autosaves = ground arith;
      same_actor = ground arith;
      recent = ground arith;
    },
    refl,
  )

  not-IsMerged :
      (kind : VersionKind) (latest : Option VersionRow)
      → coalesces db io ctx kind latest ≡ false
      → IsMerged db io ctx kind latest
      → ⊥
  unfolding coalesces version_kind_as_str
  not-IsMerged VersionKind.checkpoint latest h x = let (k1, k2) = x.autosaves in ground arith
  not-IsMerged VersionKind.autosave latest h x =
      let e = x.last in
      let k = x.autosaves.1 in let (a1, a2) = x.same_actor in let r = x.recent in ground arith

-- A row of the documents with a content saved by an operation, and what the operation leaves alone.
pub record IsSaved (db : Db) (ctx : AuthContext) (content : Text) (old row : DocumentRow)
    : Type 0 where
  pub saved : row.content ≡ content
  pub hash : row.content_hash ≡ content_hash db.hashes content
  pub author : row.updated_by ≡ ctx.user_id
  pub same_place : (row.path ≡ old.path) × (row.project_id ≡ old.project_id)
  pub same_creation : (row.created_by ≡ old.created_by) × (row.created_at ≡ old.created_at)

module _ (db : Db) (io : Inputs) (ctx : AuthContext) (doc_id : ℕ) where
  -- A write of a content shows up in the live row.
  pub live_after :
      (f : DocumentRow → DocumentRow) (rows : List DocumentRow) (cur : DocumentRow)
      → ((d : DocumentRow) → live_at_id ctx.org_id doc_id (f d) ≡ live_at_id ctx.org_id doc_id d)
      → find (live_at_id ctx.org_id doc_id) rows ≡ some cur
      → find (live_at_id ctx.org_id doc_id) (update_rows (at_id ctx.org_id doc_id) f rows)
        ≡ some (f cur)
  live_after f rows cur keeps found =
      find-update_rows _ _ f rows cur (λ d h. ground arith) keeps found

  -- The live row after `coalesce_or_save` and `finish`.
  live_row :
      (content : Text) (kind : VersionKind) (s u : Store) (cur d : DocumentRow)
      → find (live_at_id ctx.org_id doc_id) s.documents ≡ some cur
      → CoalescedOrSaved db io ctx doc_id content s u d cur.current_version kind
      → (row : DocumentRow) × (find (live_at_id ctx.org_id doc_id) u.documents ≡ some row)
        × IsSaved db ctx content cur row
        × Advances db io ctx doc_id kind s.versions cur.current_version row.current_version
  unfolding bumped rewritten
  live_row content kind s u cur d found (inl (v, e, c, p), _) = (
    rewritten db io ctx content (content_hash db.hashes content) cur,
    rw p (live_after _ s.documents cur (λ d. refl) found),
    record {
      saved = refl;
      hash = refl;
      author = refl;
      same_place = (refl, refl);
      same_creation = (refl, refl);
    },
    inl (
      (
        (coalesces-IsMerged db io ctx kind _ v e c).0,
        rw (coalesces-IsMerged db io ctx kind _ v e c).1
            (latest_version-IsNewest ctx.org_id doc_id s.versions v e),
      ),
      refl,
    ),
  )
  live_row content kind s u cur d found (inr (c, p, _), _) = (
    bumped db io ctx content (content_hash db.hashes content) (cur.current_version + 1) cur,
    rw p (live_after _ s.documents cur (λ d. refl) found),
    record {
      saved = refl;
      hash = refl;
      author = refl;
      same_place = (refl, refl);
      same_creation = (refl, refl);
    },
    inr (not-IsMerged db io ctx kind _ c, refl),
  )

  CoalescedOrSaved-access :
      (content : Text) (kind : VersionKind) (s u : Store) (current : ℕ) (d : DocumentRow)
      → CoalescedOrSaved db io ctx doc_id content s u d current kind
      → (u.team_members ≡ s.team_members)
        × (u.project_grants ≡ s.project_grants)
        × (u.document_grants ≡ s.document_grants)
  CoalescedOrSaved-access content kind s u current d (inl (_, _, _, p), _) = ground arith
  CoalescedOrSaved-access content kind s u current d (inr (_, p, _), _) = ground arith

  -- The live row can be read by a caller who could edit it.
  pub get_saved :
      (io' : Inputs) (s t : Store) (cur row : DocumentRow)
      → (t.team_members ≡ s.team_members)
        × (t.project_grants ≡ s.project_grants)
        × (t.document_grants ≡ s.document_grants)
      → find (live_at_id ctx.org_id doc_id) t.documents ≡ some row
      → row.project_id ≡ cur.project_id
      → may_doc ctx doc_id cur.project_id Role.editor s ≡ ok tt
      → get_document db io' ctx doc_id t ≡ ok (row, t)
  unfolding get_document find_live authorize_doc ◌>>=◌
  get_saved io' s t cur row (e1, e2, e3) found place allowed =
      let may =
        may_doc_after ctx doc_id cur.project_id Role.editor Role.viewer s t (omega arith) e1 e2 e3
          allowed in
      ground arith

  stale≢updated :
      {n : ℕ} {current base : Text} {d : DocumentRow} → stale n current base ≡ updated d → ⊥
  stale≢updated h = ground arith

  -- What an update that succeeds has checked and written.
  pub record IsUpdated (content : Text) (expected : ℕ) (kind : VersionKind) (s t : Store)
      (cur : DocumentRow) : Type 0 where
    pub fresh : cur.current_version ≡ expected
    pub allowed : may_doc ctx doc_id cur.project_id Role.editor s ≡ ok tt
    pub written : Store
    pub doc : DocumentRow
    pub done : CoalescedOrSaved db io ctx doc_id content s written doc cur.current_version kind
    pub rest : t ≡ record written { chunks = t.chunks; audit_log = t.audit_log }

  after_checks :
      (content : Text) (expected : ℕ) (kind : VersionKind) (s t : Store) (cur d : DocumentRow)
      → may_doc ctx doc_id cur.project_id Role.editor s ≡ ok tt
      → (if not (cur.current_version == expected)
            then (do
              base ← query (λ s. ok (snapshot ctx.org_id doc_id expected s.versions))
              pure (stale cur.current_version cur.content (text_or_empty base)))
            else (do
              doc ← coalesce_or_save db io ctx doc_id cur.current_version content kind
              finish db io ctx "doc.update" doc_id content
                  (("version", num doc.current_version) ∷ [])
              pure (updated doc)))
          s
        ≡ ok (updated d, t)
      → IsUpdated content expected kind s t cur
  after_checks content expected kind s t cur d allowed h =
      elim (Bool-cases (cur.current_version == expected)) [
        | inl fresh ↦ bind_elim _ _ _ (rw fresh at h) λ d' u e1 h1. bind_elim _ _ _ h1 λ _ v e2 h2.
            let (p3, p4) = pure-eq-ok _ _ v t h2 in
            let p2 = (finish_lem db io ctx doc_id "doc.update" content _ u e2).1 in
            record {
              fresh = ground arith;
              allowed = allowed;
              written = u;
              doc = d';
              done = coalesce_or_save_lem db io ctx doc_id content s cur.current_version kind e1;
              rest = ground arith;
            }
        | inr old ↦
            let h' = rw old at h in
            bind_elim _ _ _ h'
              λ base u e1 h1. let (p3, _) = pure-eq-ok _ _ u t h1 in absurd (stale≢updated p3)
      ]

  pub update_document-IsUpdated :
      (content : Text) (expected : ℕ) (kind : VersionKind) (s t : Store) (cur d : DocumentRow)
      → find (live_at_id ctx.org_id doc_id) s.documents ≡ some cur
      → update_document db io ctx doc_id content expected kind s ≡ ok (updated d, t)
      → IsUpdated content expected kind s t cur
  unfolding update_document lock_document find_live authorize_doc
  update_document-IsUpdated content expected kind s t cur d found h =
      bind_elim _ _ _ h λ _ s1 e1 h1. bind_elim _ _ _ h1 λ cur' s2 e2 h2.
        bind_elim _ _ _ h2 λ _ s3 e3 h3.
          let (_, p1) = query-eq-ok _ s e1 in
          let (f, p2) = query-eq-ok _ s1 e2 in
          let (allowed, p3) = query-eq-ok _ s2 e3 in
          let same : cur' ≡ cur = ground arith in
          after_checks content expected kind s t cur d (ground arith)
            (rw (p3 ∙ p2 ∙ p1, same) at h3)

  -- An update of a live document that succeeds was made from the current version, and the caller
  -- then reads back what it wrote: the content and its hash, under the caller's name, at the same
  -- path and project. The version is kept where the update is an autosave and the latest version
  -- row, which is the document's newest, is a recent autosave of the same actor, and it is raised by one in every other case.
  pub get-update :
      (io' : Inputs) (content : Text) (expected : ℕ) (kind : VersionKind) (s t : Store)
      (cur d : DocumentRow)
      → find (live_at_id ctx.org_id doc_id) s.documents ≡ some cur
      → update_document db io ctx doc_id content expected kind s ≡ ok (updated d, t)
      → (cur.current_version ≡ expected)
        × ((row : DocumentRow) × (get_document db io' ctx doc_id t ≡ ok (row, t))
            × IsSaved db ctx content cur row
            × Advances db io ctx doc_id kind s.versions expected row.current_version)
  get-update io' content expected kind s t cur d found h =
      let x = update_document-IsUpdated content expected kind s t cur d found h in
      let rest = x.rest in
      let (row, live, is_saved, version) =
        live_row content kind s x.written cur x.doc found x.done in
      let (a1, a2, a3) =
        CoalescedOrSaved-access content kind s x.written cur.current_version x.doc x.done in
      (
        x.fresh,
        (
          row,
          get_saved io' s t cur row (ground arith, ground arith, ground arith) (ground arith)
              (is_saved.same_place.1) x.allowed,
          is_saved,
          rw (sym x.fresh) version,
        ),
      )
