-- ===== src/Db/Versions/Newest.antt =====
-- The row that `latest_version` finds: one of the document's, and none of the document's is newer.
use md_manager.Base.{
  ℕ, ◌≤◌, ◌&&◌, none, some, List, [], ◌∷◌, All, ◌≡◌, arith, ltb, ◌==◌, nat_eq, Bool-cases,
  Option-cases, inl, inr, subst,
}
use mathlib.Core.List.{Mem, mem-cons_self, mem-cons_of_mem}
use md_manager.Db.Access.{in_org}
use md_manager.Db.Tables.{VersionRow}
use md_manager.Db.Versions.{latest_version}

module _ (org_id doc_id : ℕ) where
  -- Not newer than a version, where the row belongs to the document.
  abbrev pub NotNewer : ℕ → VersionRow → Type 0
  NotNewer version w = w.org_id ≡ org_id → w.document_id ≡ doc_id → w.version ≤ version

  pub record IsNewest (v : VersionRow) (rows : List VersionRow) : Type 0 where
    pub listed : Mem v rows
    pub of_document : (v.org_id ≡ org_id) × (v.document_id ≡ doc_id)
    pub newest : All (NotNewer v.version) rows

  All-NotNewer :
      (m n : ℕ) (rows : List VersionRow) → m ≤ n → All (NotNewer m) rows → All (NotNewer n) rows
  All-NotNewer m n [] le h = h
  All-NotNewer m n (w ∷ rows) le (h, hs) =
      ((λ o d. let k = h o d in omega arith), All-NotNewer m n rows le hs)

  latest_version_none :
      (n : ℕ) (rows : List VersionRow)
      → latest_version org_id doc_id rows ≡ none
      → All (NotNewer n) rows
  unfolding latest_version
  latest_version_none n [] h = tt
  latest_version_none n (v ∷ rows) h =
      elim (Bool-cases (in_org org_id v.org_id && v.document_id == doc_id)) [
        | inl mine ↦ absurd (ground arith)
        | inr other ↦ ((λ o d. absurd (ground arith)), latest_version_none n rows (ground arith))
      ]

  pub latest_version-IsNewest :
      (rows : List VersionRow) (v : VersionRow)
      → latest_version org_id doc_id rows ≡ some v
      → IsNewest v rows
  unfolding latest_version
  latest_version-IsNewest [] v h = absurd (ground arith)
  latest_version-IsNewest (x ∷ rows) v h =
      elim (Bool-cases (in_org org_id x.org_id && x.document_id == doc_id)) [
        | inr other ↦
            let k = latest_version-IsNewest rows v (ground arith) in
            record {
              listed = mem-cons_of_mem x k.listed;
              of_document = k.of_document;
              newest = ((λ o d. absurd (ground arith)), k.newest);
            }
        | inl mine ↦ elim (Option-cases (latest_version org_id doc_id rows)) [
          | inl e ↦
              let same : x ≡ v = ground arith in
              subst (λ y. IsNewest y (x ∷ rows)) same
                (record {
                  listed = mem-cons_self;
                  of_document = (ground arith, ground arith);
                  newest = ((λ o d. omega arith), latest_version_none x.version rows e);
                })
          | inr (w, e) ↦
              let k = latest_version-IsNewest rows w e in
              elim (Bool-cases (ltb x.version w.version)) [
                | inl older ↦
                    let same : w ≡ v = ground arith in
                    subst (λ y. IsNewest y (x ∷ rows)) same
                      (record {
                        listed = mem-cons_of_mem x k.listed;
                        of_document = k.of_document;
                        newest = ((λ o d. ground arith), k.newest);
                      })
                | inr newer ↦
                    let same : x ≡ v = ground arith in
                    subst (λ y. IsNewest y (x ∷ rows)) same
                      (record {
                        listed = mem-cons_self;
                        of_document = (ground arith, ground arith);
                        newest = (
                          (λ o d. omega arith),
                          All-NotNewer w.version x.version rows (ground arith) k.newest,
                        );
                      })
              ]
        ]
      ]
