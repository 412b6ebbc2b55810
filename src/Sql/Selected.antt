-- ===== src/Sql/Selected.antt =====
-- How a sorted selection follows an INSERT and an UPDATE of its table.
use isucon6_final.Common.{
  ℕ, ◌≤◌, ◌≡◌, refl, ◌∙◌, Bool, true, false, not, ◌&&◌, inl, inr, List, [], ◌∷◌, ◌++◌, arith, leb,
  leb→le, Bool-cases, All, All-mono, if◌then◌else◌,
}
use isucon6_final.Sql.{where_rows, count_rows, update_rows, insert_row, order_by}
use isucon6_final.Sql.Order.{All-where_rows_of}
use isucon6_final.Sql.Sorted.{Sorted, order_by-Sorted}

module _ {A : Type 0} where
  pub where_rows-insert :
      (p : A → Bool) (rs : List A) (r : A)
      → p r ≡ true
      → where_rows p (rs ++ r ∷ []) ≡ where_rows p rs ++ r ∷ []
  unfolding where_rows
  where_rows-insert p [] r h = rw h refl
  where_rows-insert p (s ∷ rs) r h = elim (Bool-cases (p s)) [
    | inl hit ↦ rw (hit, where_rows-insert p rs r h) refl
    | inr miss ↦ rw (miss, where_rows-insert p rs r h) refl
  ]

  insert_row-last :
      (le : A → A → Bool) (x r : A) (rs : List A)
      → le x r ≡ true
      → insert_row le x (rs ++ r ∷ []) ≡ insert_row le x rs ++ r ∷ []
  unfolding insert_row
  insert_row-last le x r [] h = rw h refl
  insert_row-last le x r (s ∷ rs) h = elim (Bool-cases (le x s)) [
    | inl before ↦ rw before refl
    | inr after ↦ rw (after, insert_row-last le x r rs h) refl
  ]

  -- A new row that no row comes after stands last.
  pub order_by-insert :
      (le : A → A → Bool) (rs : List A) (r : A)
      → All (λ s. le s r ≡ true) rs
      → order_by le (rs ++ r ∷ []) ≡ order_by le rs ++ r ∷ []
  unfolding order_by insert_row
  order_by-insert le [] r h = refl
  order_by-insert le (s ∷ rs) r h =
      rw (order_by-insert le rs r h.1) (insert_row-last le s r (order_by le rs) h.0)

  -- An UPDATE whose rows leave a selection, and do not come into it.
  pub where_rows-update :
      (p q : A → Bool) (f : A → A) (rs : List A)
      → ((r : A) → q (f r) ≡ false)
      → where_rows q (update_rows p f rs) ≡ where_rows (λ r. not (p r)) (where_rows q rs)
  unfolding where_rows update_rows
  where_rows-update p q f [] h = refl
  where_rows-update p q f (r ∷ rs) h = ground (arith, h r, where_rows-update p q f rs h)

  pub where_rows-first :
      (p : A → Bool) (r : A) (rs : List A) → p r ≡ false → where_rows p (r ∷ rs) ≡ where_rows p rs
  unfolding where_rows
  where_rows-first p r rs h = rw h refl

  -- A condition that no row fails.
  pub where_rows-all :
      (p : A → Bool) (rs : List A) → All (λ r. p r ≡ true) rs → where_rows p rs ≡ rs
  unfolding where_rows
  where_rows-all p [] h = refl
  where_rows-all p (r ∷ rs) h = rw (h.0, where_rows-all p rs h.1) refl

  pub All-of_count_zero :
      (p : A → Bool) (rs : List A) → count_rows p rs ≡ 0 → All (λ r. not (p r) ≡ true) rs
  unfolding count_rows
  All-of_count_zero p [] h = tt
  All-of_count_zero p (r ∷ rs) h = (ground arith, All-of_count_zero p rs (ground arith))

  pub count_rows-where_rows :
      (p q : A → Bool) (rs : List A)
      → count_rows q (where_rows p rs) ≡ count_rows (λ r. p r && q r) rs
  unfolding count_rows where_rows
  count_rows-where_rows p q [] = refl
  count_rows-where_rows p q (r ∷ rs) = ground (arith, count_rows-where_rows p q rs)

  pub count_rows-same :
      (p q : A → Bool) (rs : List A) → ((r : A) → p r ≡ q r) → count_rows p rs ≡ count_rows q rs
  unfolding count_rows
  count_rows-same p q [] h = refl
  count_rows-same p q (r ∷ rs) h = rw (h r, count_rows-same p q rs h) refl

module _ {A : Type 0} (key : A → ℕ) (p : A → Bool) where
  abbrev le : A → A → Bool
  le r s = leb (key r) (key s)

  -- A row that comes before all the others.
  insert_row-first :
      (r : A) (rs : List A) → All (λ s. key r ≤ key s) rs → insert_row le r rs ≡ r ∷ rs
  unfolding insert_row
  insert_row-first r [] h = refl
  insert_row-first r (s ∷ rs) h = ground (arith, h.0)

  where_rows-insert_row :
      (r : A) (rs : List A)
      → Sorted key rs
      → where_rows p (insert_row le r rs)
        ≡ (if p r then insert_row le r (where_rows p rs) else where_rows p rs)
  unfolding where_rows insert_row
  where_rows-insert_row r [] h = refl
  where_rows-insert_row r (s ∷ rs) h = elim (Bool-cases (le r s)) [
    | inl before ↦
        let least : All (λ x. key r ≤ key x) (s ∷ rs) = (
          leb→le (key r) (key s) before,
          All-mono (λ x. key s ≤ key x) _ rs
              (λ x k. omega (arith, k, leb→le (key r) (key s) before)) h.0,
        ) in
        let first : insert_row le r (where_rows p (s ∷ rs)) ≡ r ∷ where_rows p (s ∷ rs) =
          insert_row-first r (where_rows p (s ∷ rs)) (
            All-where_rows_of key p (λ x. key r ≤ key x) (s ∷ rs)
              (All-mono _ _ (s ∷ rs) (λ x k _. k) least)) in
        rw (before, first) refl
    | inr after ↦ ground (arith, where_rows-insert_row r rs h.1)
  ]

  -- A condition on a sorted result can as well stand in its WHERE.
  pub where_rows-order_by :
      (rs : List A) → where_rows p (order_by le rs) ≡ order_by le (where_rows p rs)
  unfolding order_by where_rows
  where_rows-order_by [] = refl
  where_rows-order_by (r ∷ rs) =
      where_rows-insert_row r (order_by le rs) (order_by-Sorted key rs)
      ∙ ground (arith, where_rows-order_by rs)

module _ {A : Type 0} where
  pub where_rows-append :
      (p : A → Bool) (xs ys : List A) → where_rows p (xs ++ ys) ≡ where_rows p xs ++ where_rows p ys
  unfolding where_rows
  where_rows-append p [] ys = refl
  where_rows-append p (x ∷ xs) ys = elim (Bool-cases (p x)) [
    | inl hit ↦ rw (hit, where_rows-append p xs ys) refl
    | inr miss ↦ rw (miss, where_rows-append p xs ys) refl
  ]

  pub where_rows-none :
      (p : A → Bool) (xs : List A) → All (λ x. p x ≡ false) xs → where_rows p xs ≡ []
  unfolding where_rows
  where_rows-none p [] h = refl
  where_rows-none p (x ∷ xs) h = rw (h.0, where_rows-none p xs h.1) refl
