-- ===== src/Sql.antt =====
-- The SQL statements that the Go code sends, as functions on a table: the list of its rows in the
-- order of insertion. Each is used with the WHERE, SET and ORDER BY of the query text in the source.
pub mod Counts
pub mod Order
pub mod Sorted
pub mod Selected
use isucon6_final.Common.{ℕ, ◌+◌, Bool, Option, none, some, List, [], ◌∷◌, if◌then◌else◌}

module _ {A : Type 0} where
  -- SELECT … WHERE
  unfoldable pub where_rows : (A → Bool) → List A → List A
  where_rows p [] = []
  where_rows p (r ∷ rs) = let rest = where_rows p rs in if p r then r ∷ rest else rest

  -- SELECT COUNT(*) … WHERE, and the number of rows that an UPDATE with this WHERE touches
  unfoldable pub count_rows : (A → Bool) → List A → ℕ
  count_rows p [] = 0
  count_rows p (r ∷ rs) = (if p r then 1 else 0) + count_rows p rs

  -- UPDATE … SET … WHERE
  unfoldable pub update_rows : (A → Bool) → (A → A) → List A → List A
  update_rows p f [] = []
  update_rows p f (r ∷ rs) = (if p r then f r else r) ∷ update_rows p f rs

  -- The first row of a result, if there is one (`QueryRow`, `Get`).
  unfoldable pub first_row : List A → Option A
  first_row [] = none
  first_row (r ∷ rs) = some r

  -- ORDER BY: a stable insertion sort, where `le a b` means that `a` may stand before `b`.
  unfoldable pub insert_row : (A → A → Bool) → A → List A → List A
  insert_row le r [] = r ∷ []
  insert_row le r (s ∷ rs) =
      let rest = insert_row le r rs in if le r s then r ∷ s ∷ rs else s ∷ rest

  unfoldable pub order_by : (A → A → Bool) → List A → List A
  order_by le [] = []
  order_by le (r ∷ rs) = insert_row le r (order_by le rs)
