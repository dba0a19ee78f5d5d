-- ===== src/Db/Rows/Laws.antt =====
-- Lookups after the statements that write.
use md_manager.Base.{
  ◌&&◌, Bool, true, false, none, some, List, [], ◌∷◌, ◌≡◌, refl, find, filter, any, if◌then◌else◌,
  arith, Bool-cases, inl, inr, subst,
}
use mathlib.Core.List.{Mem, mem-cons_self, mem-cons_of_mem}
use md_manager.Db.Rows.{update_rows, delete_rows}

module _ {ℓ} {R : Type ℓ} where
  -- An update that leaves a row's test alone shows up in the row that is found.
  pub find-update_rows :
      (p q : R → Bool) (f : R → R) (rows : List R) (r : R)
      → ((x : R) → p x ≡ true → q x ≡ true)
      → ((x : R) → p (f x) ≡ p x)
      → find p rows ≡ some r
      → find p (update_rows q f rows) ≡ some (f r)
  unfolding update_rows
  find-update_rows p q f [] r covers keeps h = ground arith
  find-update_rows p q f (x ∷ rows) r covers keeps h =
      ground (arith, covers x, keeps x, find-update_rows p q f rows r covers keeps)

  -- What is found passes the test.
  pub find_holds : (p : R → Bool) (rows : List R) (r : R) → find p rows ≡ some r → p r ≡ true
  find_holds p [] r h = ground arith
  find_holds p (x ∷ rows) r h = ground (arith, find_holds p rows r)

  pub find-update_rows_none :
      (p q : R → Bool) (f : R → R) (rows : List R)
      → ((r : R) → q (if p r then f r else r) ≡ false)
      → find q (update_rows p f rows) ≡ none
  unfolding update_rows
  find-update_rows_none p q f [] h = refl
  find-update_rows_none p q f (r ∷ rows) h = rw (h r) (find-update_rows_none p q f rows h)

  pub any-delete_rows : (p : R → Bool) (rows : List R) → any p (delete_rows p rows) ≡ false
  any-delete_rows p [] = refl
  any-delete_rows p (r ∷ rows) = let rest = any-delete_rows p rows in ground arith

  -- What is found stands in the table.
  pub find-Mem : (p : R → Bool) (rows : List R) (r : R) → find p rows ≡ some r → Mem r rows
  find-Mem p [] r h = absurd (ground arith)
  find-Mem p (x ∷ rows) r h = elim (Bool-cases (p x)) [
    | inl e ↦ (let same : x ≡ r = ground arith in subst (λ y. Mem y (x ∷ rows)) same mem-cons_self)
    | inr e ↦ mem-cons_of_mem x (find-Mem p rows r (ground arith))
  ]

  pub find-filter-Mem :
      (p q : R → Bool) (rows : List R) (r : R) → find p (filter q rows) ≡ some r → Mem r rows
  find-filter-Mem p q [] r h = absurd (ground arith)
  find-filter-Mem p q (x ∷ rows) r h = elim (Bool-cases (q x && p x)) [
    | inl e ↦ (let same : x ≡ r = ground arith in subst (λ y. Mem y (x ∷ rows)) same mem-cons_self)
    | inr e ↦ mem-cons_of_mem x (find-filter-Mem p q rows r (ground arith))
  ]

  pub any-Mem :
      (p : R → Bool) (rows : List R) → any p rows ≡ true → (r : R) × Mem r rows × (p r ≡ true)
  any-Mem p [] h = absurd (ground arith)
  any-Mem p (x ∷ rows) h = elim (Bool-cases (p x)) [
    | inl e ↦ (x, mem-cons_self, e)
    | inr e ↦ (let (r, m, k) = any-Mem p rows (ground arith) in (r, mem-cons_of_mem x m, k))
  ]

  pub find-filter :
      (p q : R → Bool) (rows : List R) (r : R)
      → find p (filter q rows) ≡ some r
      → (p r ≡ true) × (q r ≡ true)
  find-filter p q [] r h = ground arith
  find-filter p q (x ∷ rows) r h = ground (arith, find-filter p q rows r)

  pub any-update_rows :
      (p q : R → Bool) (f : R → R) (rows : List R)
      → ((r : R) → q (if p r then f r else r) ≡ false)
      → any q (update_rows p f rows) ≡ false
  unfolding update_rows
  any-update_rows p q f [] h = refl
  any-update_rows p q f (r ∷ rows) h = rw (h r) (any-update_rows p q f rows h)

  pub find-filter-any :
      (p q t : R → Bool) (rows : List R) (r : R)
      → any t rows ≡ false
      → find p (filter q rows) ≡ some r
      → t r ≡ false
  find-filter-any p q t [] r gone h = ground arith
  find-filter-any p q t (x ∷ rows) r gone h = ground (arith, find-filter-any p q t rows r)
