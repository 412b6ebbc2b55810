-- ===== src/Sql/Counts.antt =====
-- How many rows satisfy a condition after an INSERT or an UPDATE.
use isucon6_final.Common.{
  ◌+◌, ◌≤◌, ◌≡◌, refl, Bool, true, false, none, List, [], ◌∷◌, ◌++◌, arith, if◌then◌else◌, All,
}
use isucon6_final.Sql.{where_rows, count_rows, update_rows, first_row}

module _ {A : Type 0} where
  pub count_rows-append :
      (p : A → Bool) (rs ss : List A) → count_rows p (rs ++ ss) ≡ count_rows p rs + count_rows p ss
  unfolding count_rows
  count_rows-append p [] ss = omega arith
  count_rows-append p (r ∷ rs) ss = omega (arith, count_rows-append p rs ss)

  -- An INSERT.
  pub count_rows-insert :
      (p : A → Bool) (rs : List A) (r : A)
      → count_rows p (rs ++ r ∷ []) ≡ count_rows p rs + (if p r then 1 else 0)
  unfolding count_rows
  count_rows-insert p [] r = omega arith
  count_rows-insert p (s ∷ rs) r = omega (arith, count_rows-insert p rs r)

  -- A SELECT that finds no row.
  pub count_rows-eq-zero :
      (p : A → Bool) (rs : List A) → first_row (where_rows p rs) ≡ none → count_rows p rs ≡ 0
  unfolding count_rows where_rows first_row
  count_rows-eq-zero p [] h = refl
  count_rows-eq-zero p (r ∷ rs) h = ground (arith, count_rows-eq-zero p rs)

  pub first_row-eq-none :
      (p : A → Bool) (rs : List A) → count_rows p rs ≡ 0 → first_row (where_rows p rs) ≡ none
  unfolding count_rows where_rows first_row
  first_row-eq-none p [] h = refl
  first_row-eq-none p (r ∷ rs) h = ground (arith, first_row-eq-none p rs)

  -- An UPDATE under which no row comes to satisfy `q` that did not before.
  pub count_rows-update_le :
      (p q : A → Bool) (f : A → A) (rs : List A)
      → ((r : A) → p r ≡ true → q (f r) ≡ true → q r ≡ true)
      → count_rows q (update_rows p f rs) ≤ count_rows q rs
  unfolding count_rows update_rows
  count_rows-update_le p q f [] h = omega arith
  count_rows-update_le p q f (r ∷ rs) h = ground (arith, h r, count_rows-update_le p q f rs h)

  -- An UPDATE after which the rows that it touched do not satisfy `q`, and did before.
  pub count_rows-update_sub :
      (p q : A → Bool) (f : A → A) (rs : List A)
      → ((r : A) → p r ≡ true → q r ≡ true)
      → ((r : A) → p r ≡ true → q (f r) ≡ false)
      → count_rows q (update_rows p f rs) + count_rows p rs ≡ count_rows q rs
  unfolding count_rows update_rows
  count_rows-update_sub p q f [] h k = omega arith
  count_rows-update_sub p q f (r ∷ rs) h k =
      ground (arith, h r, k r, count_rows-update_sub p q f rs h k)

  -- An UPDATE that leaves the truth of `q` alone on each row.
  pub count_rows-update_same :
      (p q : A → Bool) (f : A → A) (rs : List A)
      → ((r : A) → p r ≡ true → q (f r) ≡ q r)
      → count_rows q (update_rows p f rs) ≡ count_rows q rs
  unfolding count_rows update_rows
  count_rows-update_same p q f [] h = refl
  count_rows-update_same p q f (r ∷ rs) h = ground (arith, h r, count_rows-update_same p q f rs h)

  -- A condition that implies another is met by no more rows.
  pub count_rows_mono :
      (p q : A → Bool) (rs : List A)
      → ((r : A) → p r ≡ true → q r ≡ true)
      → count_rows p rs ≤ count_rows q rs
  unfolding count_rows
  count_rows_mono p q [] h = omega arith
  count_rows_mono p q (r ∷ rs) h = ground (arith, h r, count_rows_mono p q rs h)

  pub All-update_rows {κ} :
      (P : A → Type κ) (p : A → Bool) (f : A → A) (rs : List A)
      → ((r : A) → P r → P (f r))
      → All P rs
      → All P (update_rows p f rs)
  unfolding update_rows
  All-update_rows P p f [] h a = tt
  All-update_rows P p f (r ∷ rs) h a = (one (p r), All-update_rows P p f rs h a.1)
    where
      one : (b : Bool) → P (if b then f r else r)
      one true = h r a.0
      one false = a.0

  -- Nothing to update: the table stays as it is.
  pub update_rows-eq_self :
      (p : A → Bool) (f : A → A) (rs : List A) → count_rows p rs ≡ 0 → update_rows p f rs ≡ rs
  unfolding count_rows update_rows
  update_rows-eq_self p f [] h = refl
  update_rows-eq_self p f (r ∷ rs) h = ground (arith, update_rows-eq_self p f rs)
