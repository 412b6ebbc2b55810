-- ===== src/Sql/Sorted.antt =====
-- ORDER BY sorts, and neither loses nor repeats a row.
use isucon6_final.Common.{
  ℕ, ◌≤◌, ◌<◌, ◌≡◌, refl, Bool, true, false, not, inl, inr, List, [], ◌∷◌, map, arith, leb, leb→le,
  ◌==◌, Bool-cases, All, All-mono,
}
use isucon6_final.Sql.Order.{All-insert_row}
use isucon6_final.Sql.{where_rows, count_rows, insert_row, order_by}

module _ {A : Type 0} where
  count-insert_row :
      (q : A → Bool) (le : A → A → Bool) (r : A) (rs : List A)
      → count_rows q (insert_row le r rs) ≡ count_rows q (r ∷ rs)
  unfolding count_rows insert_row
  count-insert_row q le r [] = refl
  count-insert_row q le r (s ∷ rs) = ground (arith, count-insert_row q le r rs)

  pub count-order_by :
      (q : A → Bool) (le : A → A → Bool) (rs : List A)
      → count_rows q (order_by le rs) ≡ count_rows q rs
  unfolding order_by count_rows
  count-order_by q le [] = refl
  count-order_by q le (r ∷ rs) =
      omega (arith, count-insert_row q le r (order_by le rs), count-order_by q le rs)

  pub count-where_rows_le :
      (p q : A → Bool) (rs : List A) → count_rows q (where_rows p rs) ≤ count_rows q rs
  unfolding count_rows where_rows
  count-where_rows_le p q [] = omega arith
  count-where_rows_le p q (r ∷ rs) = ground (arith, count-where_rows_le p q rs)

-- Strictly rising numbers above `lo`, none above `hi`.
abbrev pub Rising : ℕ → List ℕ → ℕ → Type 0
Rising lo [] hi = lo ≤ hi
Rising lo (i ∷ is) hi = (lo < i) × Rising i is hi

module _ {A : Type 0} (key : A → ℕ) where
  abbrev pub Sorted : List A → Type 0
  Sorted [] = Unit {0}
  Sorted (r ∷ rs) = All (λ s. key r ≤ key s) rs × Sorted rs

  abbrev by : A → A → Bool
  by r s = leb (key r) (key s)

  insert-All :
      (k : ℕ) (r : A) (rs : List A)
      → k ≤ key r
      → All (λ s. k ≤ key s) rs
      → All (λ s. k ≤ key s) (insert_row by r rs)
  unfolding insert_row
  insert-All k r [] h a = (h, tt)
  insert-All k r (s ∷ rs) h a = elim (Bool-cases (by r s)) [
    | inl e ↦ rw e (h, (a.0, a.1))
    | inr e ↦ rw e (a.0, insert-All k r rs h a.1)
  ]

  insert-Sorted : (r : A) (rs : List A) → Sorted rs → Sorted (insert_row by r rs)
  unfolding insert_row
  insert-Sorted r [] h = (tt, tt)
  insert-Sorted r (s ∷ rs) h = elim (Bool-cases (by r s)) [
    | inl e ↦
        let le = leb→le (key r) (key s) e in
        rw e (
          (le, All-mono (λ x. key s ≤ key x) (λ x. key r ≤ key x) rs (λ x k. omega arith) h.0),
          (h.0, h.1),
        )
    | inr e ↦ rw e (insert-All (key s) r rs (ground arith) h.0, insert-Sorted r rs h.1)
  ]

  pub order_by-Sorted : (rs : List A) → Sorted (order_by by rs)
  unfolding order_by
  order_by-Sorted [] = tt
  order_by-Sorted (r ∷ rs) = insert-Sorted r (order_by by rs) (order_by-Sorted rs)

  above :
      (k : ℕ) (rs : List A)
      → count_rows (λ s. key s == k) rs ≡ 0
      → All (λ s. k ≤ key s) rs
      → All (λ s. k < key s) rs
  unfolding count_rows
  above k [] c a = tt
  above k (r ∷ rs) c a = (ground arith, above k rs (ground arith) a.1)

  -- Sorted rows with distinct keys rise strictly.
  pub Sorted-Rising :
      (lo : ℕ) (rs : List A)
      → Sorted rs
      → ((k : ℕ) → count_rows (λ s. key s == k) rs ≤ 1)
      → All (λ s. lo < key s) rs
      → (hi : ℕ) × Rising lo (map key rs) hi
  unfolding count_rows
  Sorted-Rising lo [] s u a = (lo, omega arith)
  Sorted-Rising lo (r ∷ rs) s u a =
      let once : count_rows (λ x. key x == key r) rs ≡ 0 = ground (arith, u (key r)) in
      let (hi, rest) =
        Sorted-Rising (key r) rs s.1 (λ k. ground (arith, u k)) (above (key r) rs once s.0) in
      (hi, (a.0, rest))

module _ {A : Type 0} where
  -- No element is less than one before it.
  abbrev pub Ordered : (A → A → Bool) → List A → Type 0
  Ordered less [] = Unit {0}
  Ordered less (x ∷ xs) = All (λ y. less y x ≡ false) xs × Ordered less xs

  -- What Go promises of sort.Sort, for an order that is asymmetric and where not being less goes on
  -- from one element to the next.
  pub record IsSort (sort : (A → A → Bool) → List A → List A) : Type 0 where
    pub kept :
        (less : A → A → Bool) (xs : List A) (p : A → Bool)
        → count_rows p (sort less xs) ≡ count_rows p xs
    pub ordered :
        (less : A → A → Bool) (xs : List A)
        → ((x y : A) → less x y ≡ true → less y x ≡ false)
        → ((x y z : A) → less x y ≡ false → less y z ≡ false → less x z ≡ false)
        → Ordered less (sort less xs)

  -- An insertion sort.
  abbrev pub sort_by : (A → A → Bool) → List A → List A
  sort_by less xs = order_by (λ x y. not (less y x)) xs

  insert-Ordered :
      (less : A → A → Bool) (x : A) (xs : List A)
      → ((y z : A) → less y z ≡ true → less z y ≡ false)
      → ((y z u : A) → less y z ≡ false → less z u ≡ false → less y u ≡ false)
      → Ordered less xs
      → Ordered less (insert_row (λ y z. not (less z y)) x xs)
  unfolding insert_row
  insert-Ordered less x [] asym chain o = (tt, tt)
  insert-Ordered less x (y ∷ ys) asym chain o = elim (Bool-cases (less y x)) [
    | inl e ↦ rw e (
      All-insert_row (λ z. less z y ≡ false) (λ a b. not (less b a)) x ys (asym y x e) o.0,
      insert-Ordered less x ys asym chain o.1,
    )
    | inr e ↦ rw e ((e, All-mono _ _ ys (λ z k. chain z y x k e) o.0), o)
  ]

  sort_by-Ordered :
      (less : A → A → Bool) (xs : List A)
      → ((y z : A) → less y z ≡ true → less z y ≡ false)
      → ((y z u : A) → less y z ≡ false → less z u ≡ false → less y u ≡ false)
      → Ordered less (sort_by less xs)
  unfolding order_by
  sort_by-Ordered less [] asym chain = tt
  sort_by-Ordered less (x ∷ xs) asym chain =
      insert-Ordered less x (sort_by less xs) asym chain (sort_by-Ordered less xs asym chain)

  pub sort_by-IsSort : IsSort sort_by
  sort_by-IsSort = record {
    kept = λ less xs p. count-order_by p (λ x y. not (less y x)) xs;
    ordered = sort_by-Ordered;
  }
