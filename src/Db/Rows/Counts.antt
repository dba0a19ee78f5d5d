-- ===== src/Db/Rows/Counts.antt =====
-- How many rows of a kind the statements leave.
use md_manager.Base.{
  ◌≤◌, ◌+◌, Bool, true, false, some, List, [], ◌∷◌, ◌≡◌, refl, arith, length, filter, find,
}
use md_manager.Db.Rows.{update_rows, delete_rows}

module _ {R : Type 0} (p q : R → Bool) where
  -- A deletion takes away as many rows of a kind as it deletes, at most.
  pub count-delete_rows :
      (rows : List R)
      → length (filter q rows) ≤ length (filter q (delete_rows p rows)) + length (filter p rows)
  count-delete_rows [] = omega arith
  count-delete_rows (r ∷ rows) = ground (arith, count-delete_rows rows)

  -- And so does an update.
  pub count-update_rows :
      (f : R → R) (rows : List R)
      → length (filter q rows) ≤ length (filter q (update_rows p f rows)) + length (filter p rows)
  unfolding update_rows
  count-update_rows f [] = omega arith
  count-update_rows f (r ∷ rows) = ground (arith, count-update_rows f rows)

  -- Where it touches no row of the kind, or all that it touches stay of the kind, none is lost.
  pub keep-delete_rows :
      (rows : List R)
      → ((r : R) → p r ≡ true → q r ≡ false)
      → length (filter q rows) ≤ length (filter q (delete_rows p rows))
  keep-delete_rows [] apart = omega arith
  keep-delete_rows (r ∷ rows) apart = ground (arith, keep-delete_rows rows apart, apart r)

  pub keep-update_rows :
      (f : R → R) (rows : List R)
      → ((r : R) → p r ≡ true → q r ≡ true → q (f r) ≡ true)
      → length (filter q rows) ≤ length (filter q (update_rows p f rows))
  unfolding update_rows
  keep-update_rows f [] stays = omega arith
  keep-update_rows f (r ∷ rows) stays = ground (arith, keep-update_rows f rows stays, stays r)

  pub fewer-delete_rows :
      (rows : List R) → length (filter q (delete_rows p rows)) ≤ length (filter q rows)
  fewer-delete_rows [] = omega arith
  fewer-delete_rows (r ∷ rows) = ground (arith, fewer-delete_rows rows)

  pub same-update_rows :
      (f : R → R) (rows : List R)
      → ((r : R) → q (f r) ≡ q r)
      → length (filter q (update_rows p f rows)) ≡ length (filter q rows)
  unfolding update_rows
  same-update_rows f [] same = refl
  same-update_rows f (r ∷ rows) same = ground (arith, same-update_rows f rows same, same r)

  none-delete_rows : (rows : List R) → length (filter p rows) ≤ 0 → delete_rows p rows ≡ rows
  none-delete_rows [] few = refl
  none-delete_rows (r ∷ rows) few = ground (arith, none-delete_rows rows)

  none-update_rows :
      (f : R → R) (rows : List R) → length (filter p rows) ≤ 0 → update_rows p f rows ≡ rows
  unfolding update_rows
  none-update_rows f [] few = refl
  none-update_rows f (r ∷ rows) few = ground (arith, none-update_rows f rows)

  -- Where the only row that is touched is not of the kind, the rows of the kind are the same.
  pub single-delete_rows :
      (rows : List R) (m : R)
      → find p rows ≡ some m
      → length (filter p rows) ≤ 1
      → q m ≡ false
      → filter q (delete_rows p rows) ≡ filter q rows
  single-delete_rows [] m h one other = refl
  single-delete_rows (r ∷ rows) m h one other =
      ground (arith, none-delete_rows rows, single-delete_rows rows m)

  pub single-update_rows :
      (f : R → R) (rows : List R) (m : R)
      → find p rows ≡ some m
      → length (filter p rows) ≤ 1
      → q m ≡ false
      → q (f m) ≡ false
      → filter q (update_rows p f rows) ≡ filter q rows
  unfolding update_rows
  single-update_rows f [] m h one other after = refl
  single-update_rows f (r ∷ rows) m h one other after =
      ground (arith, none-update_rows f rows, single-update_rows f rows m)
