-- ===== src/Db/Rows.antt =====
-- The SQL statements on lists of rows.
pub mod Laws
pub mod Counts
use md_manager.Base.{
  ℕ, Bool, true, false, not, ◌||◌, List, [], ◌∷◌, ◌≡◌, refl, filter, any, ◌==◌, nat_eq,
  if◌then◌else◌, arith, String,
}
use md_manager.Fault.{Result, ok, err, already_exists}

module _ {ℓ} {R : Type ℓ} where
  -- `UPDATE … SET … WHERE …`
  unfoldable pub update_rows : (R → Bool) → (R → R) → List R → List R
  update_rows p f [] = []
  update_rows p f (r ∷ rs) = (if p r then f r else r) ∷ update_rows p f rs

  -- `DELETE … WHERE …`
  abbrev pub delete_rows : (R → Bool) → List R → List R
  delete_rows p = filter (λ r. not (p r))

  -- `INSERT`, refused where a row clashes with the new one on a unique index.
  unfoldable pub insert_row : String → (R → Bool) → R → List R → Result (List R)
  insert_row constraint clash r rs =
      if any clash rs then err (already_exists constraint) else ok (r ∷ rs)
