-- ===== src/Db/Document/Saves.antt =====
-- New versions: what append, restore and a checkpointing update leave in the store.
use md_manager.Base.{
  ℕ, ◌+◌, some, List, [], ◌∷◌, ◌++◌, ◌≡◌, ◌≢◌, ◌⊎◌, inl, inr, Bool-cases, ap, subst, bytes_eq, refl,
  ◌∙◌, ◌==◌, nat_eq, if◌then◌else◌, arith, find,
}
use mathlib.Core.List.{append_assoc}
use md_manager.Fault.{ok}
use md_manager.Text.{Text, ends_with_char}
use md_manager.Text.Laws.{ends_with_char-append, ends_with_char-eq-true}
use md_manager.Crypto.{content_hash}
use md_manager.Model.{Role, AuthContext, VersionKind}
use md_manager.Db.{Inputs, Db}
use md_manager.Db.Access.{may_doc, authorize_doc}
use md_manager.Db.Statements.{live_at_id, version_row}
use md_manager.Db.Tables.{Store, DocumentRow, VersionRow}
use md_manager.Db.Tx.{bind_elim, query-eq-ok, pure-eq-ok}
use md_manager.Db.Versions.{bumped, find_live, lock_document, snapshot, appended}
use md_manager.Db.Versions.Laws.{with_version, save_version_lem, finish_lem}
use md_manager.Db.Document.{get_document, append_to_document, restore_version}
use md_manager.Db.Document.Updates.{IsSaved, live_after, get_saved}

abbrev line_feed : Text
line_feed = b'\n' ∷ []

-- What stands between a content and an addition: nothing where the content is empty or ends in a
-- line feed, and a line feed in every other case.
abbrev pub Separates : Text → Text → Type 0
Separates content sep =
    ((sep ≡ []) × ((content ≡ []) ⊎ ((init : Text) × (content ≡ init ++ line_feed))))
    ⊎ ((sep ≡ line_feed) × (content ≢ []) × ((init : Text) → content ≢ init ++ line_feed))

appended-Separates :
    (content addition : Text)
    → (sep : Text) × Separates content sep
      × (appended content addition ≡ content ++ (sep ++ addition))
unfolding appended
appended-Separates [] addition = ([], inl (refl, inl refl), refl)
appended-Separates (c ∷ cs) addition = elim (Bool-cases (ends_with_char (c ∷ cs) b'\n')) [
  | inl e ↦ ([], inl (refl, inr (ends_with_char-eq-true (c ∷ cs) b'\n' e)), rw e refl)
  | inr e ↦ (
    line_feed,
    inr (
      refl,
      (λ k. ground arith),
      (λ init k.
          let t = ends_with_char-append init b'\n' in
          ground (arith, ap (λ x. ends_with_char x b'\n') k)),
    ),
    rw e (append_assoc (c ∷ cs) line_feed addition),
  )
]

module _ (db : Db) (io : Inputs) (ctx : AuthContext) (doc_id : ℕ) where
  -- A new version with this content: the caller reads the document back with the content and the
  -- next version number, the history has one snapshot more, and no other snapshot of the document
  -- has changed.
  abbrev pub NewVersion : Inputs → Text → Store → DocumentRow → Store → Type 0
  NewVersion io' content s cur t =
      ((row : DocumentRow) × (get_document db io' ctx doc_id t ≡ ok (row, t))
        × IsSaved db ctx content cur row
        × (row.current_version ≡ cur.current_version + 1))
      × ((version : ℕ)
          → snapshot ctx.org_id doc_id version t.versions ≡ (
              if version == cur.current_version + 1
              then some content
              else snapshot ctx.org_id doc_id version s.versions))

  pub snapshot_new :
      (content : Text) (n version : ℕ) (kind : VersionKind) (rows : List VersionRow)
      → snapshot ctx.org_id doc_id version (
          version_row io ctx (io.new_id 1) doc_id n content (content_hash db.hashes content) kind
          ∷ rows)
        ≡ (if version == n then some content else snapshot ctx.org_id doc_id version rows)
  unfolding snapshot version_row
  snapshot_new content n version kind rows = ground arith

  saved_version :
      (io' : Inputs) (content : Text) (kind : VersionKind) (s t u : Store) (cur : DocumentRow)
      → find (live_at_id ctx.org_id doc_id) s.documents ≡ some cur
      → may_doc ctx doc_id cur.project_id Role.editor s ≡ ok tt
      → u ≡ with_version db io ctx doc_id content (cur.current_version + 1) kind s
      → t ≡ record u { chunks = t.chunks; audit_log = t.audit_log }
      → NewVersion io' content s cur t
  unfolding bumped
  saved_version io' content kind s t u cur found allowed e1 e2 = (
    (
      bumped db io ctx content (content_hash db.hashes content) (cur.current_version + 1) cur,
      get_saved db io ctx doc_id io' s t cur _ (ground arith, ground arith, ground arith)
          (rw (e2, e1) (live_after db io ctx doc_id _ s.documents cur (λ d. refl) found)) refl
          allowed,
      record {
        saved = refl;
        hash = refl;
        author = refl;
        same_place = (refl, refl);
        same_creation = (refl, refl);
      },
      refl,
    ),
    λ version. rw (e2, e1) (snapshot_new content (cur.current_version + 1) version kind s.versions),
  )

  -- An append to a live document that succeeds saves a new version, whose content is the old one, a
  -- line feed if that is not empty and does not end in one, and the addition: the caller reads it
  -- back under the next version number, and every other snapshot of the document is as before.
  pub append_to_document-NewVersion :
      (io' : Inputs) (addition : Text) (s t : Store) (cur d : DocumentRow)
      → find (live_at_id ctx.org_id doc_id) s.documents ≡ some cur
      → append_to_document db io ctx doc_id addition s ≡ ok (d, t)
      → (sep : Text) × Separates cur.content sep
        × NewVersion io' (cur.content ++ (sep ++ addition)) s cur t
  unfolding append_to_document lock_document find_live authorize_doc
  append_to_document-NewVersion io' addition s t cur d found h = bind_elim _ _ _ h λ cur' s1 e1 h1.
      bind_elim _ _ _ h1 λ _ s2 e2 h2. bind_elim _ _ _ h2 λ _ s3 e3 h3.
        bind_elim _ _ _ h3 λ d' u e4 h4. bind_elim _ _ _ h4 λ _ v e5 h5.
          let (f, p1) = query-eq-ok _ s e1 in
          let (allowed, p2) = query-eq-ok _ s1 e2 in
          let (_, p3) = query-eq-ok _ s2 e3 in
          let (_, p5) = pure-eq-ok _ _ v t h5 in
          let (_, p4) = finish_lem db io ctx doc_id _ _ _ u e5 in
          let (p6, _, _) = save_version_lem db io ctx doc_id _ s3 _ VersionKind.autosave e4 in
          let same : cur' ≡ cur = ground arith in
          let (sep, separates, parts) = appended-Separates cur.content addition in
          (
            sep,
            separates,
            subst (λ c. NewVersion io' c s cur t) parts
                (saved_version io' _ VersionKind.autosave s t u cur found (ground arith)
                  (rw (p3 ∙ p2 ∙ p1, same) at p6) (ground arith)),
          )

  -- A restore on a live document that succeeds saves a new version, whose content is that of the
  -- version asked for, which exists: the caller reads it back under the next version number, and
  -- every other snapshot of the document, the restored one included, is as before.
  pub restore_version-NewVersion :
      (io' : Inputs) (version : ℕ) (s t : Store) (cur d : DocumentRow)
      → find (live_at_id ctx.org_id doc_id) s.documents ≡ some cur
      → restore_version db io ctx doc_id version s ≡ ok (d, t)
      → (content : Text) × (snapshot ctx.org_id doc_id version s.versions ≡ some content)
        × NewVersion io' content s cur t
  unfolding restore_version lock_document find_live authorize_doc
  restore_version-NewVersion io' version s t cur d found h = bind_elim _ _ _ h λ cur' s1 e1 h1.
      bind_elim _ _ _ h1 λ _ s2 e2 h2. bind_elim _ _ _ h2 λ content s3 e3 h3.
        bind_elim _ _ _ h3 λ d' u e4 h4. bind_elim _ _ _ h4 λ _ v e5 h5.
          let (f, p1) = query-eq-ok _ s e1 in
          let (allowed, p2) = query-eq-ok _ s1 e2 in
          let (old, p3) = query-eq-ok _ s2 e3 in
          let (_, p5) = pure-eq-ok _ _ v t h5 in
          let (_, p4) = finish_lem db io ctx doc_id _ _ _ u e5 in
          let (p6, _, _) =
            save_version_lem db io ctx doc_id content s3 _ VersionKind.checkpoint e4 in
          let same : cur' ≡ cur = ground arith in
          (
            content,
            ground arith,
            saved_version io' content VersionKind.checkpoint s t u cur found (ground arith)
                (rw (p3 ∙ p2 ∙ p1, same) at p6) (ground arith),
          )
