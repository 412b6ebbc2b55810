-- ===== src/Sql/Order.antt =====
-- ORDER BY key LIMIT 1 returns a row of the result with the least key.
use isucon6_final.Common.{
  ℕ, ◌≤◌, ◌<◌, ◌≡◌, refl, Bool, true, ◌&&◌, inl, inr, Option, none, some, List, [], ◌∷◌, arith, leb,
  leb→le, ◌==◌, Bool-cases, All, All-mono,
}
use isucon6_final.Sql.{count_rows, where_rows, first_row, insert_row, order_by}

module _ {A : Type 0} (key : A → ℕ) where
  abbrev pub by_key : A → A → Bool
  by_key r s = leb (key r) (key s)

  -- `o` is what a scan for the least key may answer on `rs`.
  abbrev pub IsLeast : Option A → List A → Type 0
  IsLeast none rs = rs ≡ []
  IsLeast (some m) rs = All (λ s. key m ≤ key s) rs

  first_row-insert :
      (r : A) (rs ss : List A)
      → IsLeast (first_row ss) rs
      → IsLeast (first_row (insert_row by_key r ss)) (r ∷ rs)
  unfolding first_row insert_row
  first_row-insert r rs [] h = rw h (omega arith, tt)
  first_row-insert r rs (s ∷ ss) h = elim (Bool-cases (by_key r s)) [
    | inl before ↦ rw before (
      omega arith,
      All-mono (λ x. key s ≤ key x) (λ x. key r ≤ key x) rs
          (λ x le. ground (arith, leb→le (key r) (key s))) h,
    )
    | inr after ↦ rw after (ground arith, h)
  ]

  pub first_row-order_by : (rs : List A) → IsLeast (first_row (order_by by_key rs)) rs
  unfolding order_by first_row
  first_row-order_by [] = refl
  first_row-order_by (r ∷ rs) = first_row-insert r rs (order_by by_key rs) (first_row-order_by rs)

module _ {A : Type 0} (P : A → Type 0) where
  abbrev pub Holds : Option A → Type 0
  Holds none = Unit
  Holds (some r) = P r

  -- What holds of every row holds of the first.
  pub All-first_row : (rs : List A) → All P rs → Holds (first_row rs)
  unfolding first_row
  All-first_row [] h = tt
  All-first_row (r ∷ rs) h = h.0

  pub All-insert_row :
      (le : A → A → Bool) (r : A) (rs : List A) → P r → All P rs → All P (insert_row le r rs)
  unfolding insert_row
  All-insert_row le r [] h k = (h, tt)
  All-insert_row le r (s ∷ rs) h k = elim (Bool-cases (le r s)) [
    | inl before ↦ rw before (h, (k.0, k.1))
    | inr after ↦ rw after (k.0, All-insert_row le r rs h k.1)
  ]

  pub All-order_by : (le : A → A → Bool) (rs : List A) → All P rs → All P (order_by le rs)
  unfolding order_by
  All-order_by le [] h = tt
  All-order_by le (r ∷ rs) h = All-insert_row le r (order_by le rs) h.0 (All-order_by le rs h.1)

module _ {A : Type 0} where
  -- Every row that a SELECT returns meets its condition.
  pub All-where_rows : (p : A → Bool) (rs : List A) → All (λ r. p r ≡ true) (where_rows p rs)
  unfolding where_rows
  All-where_rows p [] = tt
  All-where_rows p (r ∷ rs) = elim (Bool-cases (p r)) [
    | inl hit ↦ rw hit (hit, All-where_rows p rs)
    | inr miss ↦ rw miss (All-where_rows p rs)
  ]

module _ {A : Type 0} (key : A → ℕ) (p : A → Bool) where
  -- A row that meets a condition is counted by its key and that condition.
  pub count-same_key :
      (rs : List A) → All (λ r. p r ≡ true → 0 < count_rows (λ s. key s == key r && p s) rs) rs
  unfolding count_rows
  count-same_key [] = tt
  count-same_key (r ∷ rs) = (
    λ h. ground arith,
    All-mono (λ s. p s ≡ true → 0 < count_rows (λ t. key t == key s && p t) rs) _ rs
        (λ s h k. omega (arith, h k)) (count-same_key rs),
  )

  -- The rows of a SELECT, under a predicate that needs its condition.
  pub All-where_rows_of :
      (P : A → Type 0) (rs : List A) → All (λ r. p r ≡ true → P r) rs → All P (where_rows p rs)
  unfolding where_rows
  All-where_rows_of P [] h = tt
  All-where_rows_of P (r ∷ rs) h = elim (Bool-cases (p r)) [
    | inl hit ↦ rw hit (h.0 hit, All-where_rows_of P rs h.1)
    | inr miss ↦ rw miss (All-where_rows_of P rs h.1)
  ]

  pub All-of_where_rows :
      (P : A → Type 0) (rs : List A) → All P (where_rows p rs) → All (λ r. p r ≡ true → P r) rs
  unfolding where_rows
  All-of_where_rows P [] h = tt
  All-of_where_rows P (r ∷ rs) h = elim (Bool-cases (p r)) [
    | inl hit ↦
        let k : P r × All P (where_rows p rs) = rw hit at h in
        (λ _. k.0, All-of_where_rows P rs k.1)
    | inr miss ↦
        let k : All P (where_rows p rs) = rw miss at h in
        (λ hit. absurd (cc), All-of_where_rows P rs k)
  ]
