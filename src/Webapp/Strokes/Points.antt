-- ===== src/Webapp/Strokes/Points.antt =====
-- What the loop of INSERTs leaves in the points table.
use isucon6_final.Common.{
  ℕ, ◌+◌, ◌<◌, ◌≡◌, refl, sym, List, [], ◌∷◌, ◌++◌, arith, All, All-mono, length, append_assoc,
  append-nil,
}
use isucon6_final.Sql.{count_rows}
use isucon6_final.Db.Returns.{
  Returns, Returns-pure, Returns-bind, Returns-must_in_tx, Returns-if, Returns-panics,
}
use isucon6_final.Webapp.Schema.{Columns, PointRow, Tables, PostedPoint, PostedStroke}
use isucon6_final.Webapp.Queries.{of_stroke}
use isucon6_final.Webapp.Strokes.{
  insert_point, insert_points, insert_stroke, must_insert_stroke, is_storable,
}

module _ {F : Type 0} (column : Columns F) (stroke : ℕ) where
  abbrev pub point_row : ℕ → PostedPoint F → PointRow F
  point_row n p = record {
    id = n;
    stroke_id = stroke;
    x = column.coordinate p.x;
    y = column.coordinate p.y;
  }

  -- The rows of the posted points, numbered from `n` in the order in which they were posted.
  abbrev pub numbered : ℕ → List (PostedPoint F) → List (PointRow F)
  numbered n [] = []
  numbered n (p ∷ ps) = point_row n p ∷ numbered (n + 1) ps

  abbrev pub with_points : List (PostedPoint F) → Tables F → Tables F
  with_points ps t = record t {
    points = t.points ++ numbered t.next_point ps;
    next_point = t.next_point + length ps;
  }

  with_points-insert_point :
      (p : PostedPoint F) (ps : List (PostedPoint F)) (t : Tables F)
      → with_points ps (insert_point column stroke p t) ≡ with_points (p ∷ ps) t
  unfolding insert_point
  with_points-insert_point p ps t = λ i. record t {
    points =
        append_assoc t.points (point_row t.next_point p ∷ []) (numbered (t.next_point + 1) ps) i;
    next_point = sums i;
  }
    where
      sums : t.next_point + 1 + length ps ≡ t.next_point + length (p ∷ ps)
      sums = omega arith

  -- The loop ends with the points appended, or panics; the tables that others see stay as they are.
  pub insert_points-Returns :
      {P : Tables F → Type 0} (ps : List (PostedPoint F)) (t : Tables F)
      → Returns P (λ u. u ≡ with_points ps t) (insert_points column stroke ps t)
  unfolding insert_points
  insert_points-Returns [] t =
      Returns-pure t (λ i. record t { points = sym (append-nil t.points) i; next_point = same i })
    where
      same : t.next_point ≡ t.next_point + 0
      same = omega arith
  insert_points-Returns (p ∷ ps) t =
      Returns-bind (λ u. u ≡ insert_point column stroke p t) _ _ (Returns-must_in_tx _ (λ _. refl))
        (λ u e.
          rw (e, ← with_points-insert_point p ps t)
            (insert_points-Returns ps (insert_point column stroke p t)))

  pub numbered-stroke :
      (n : ℕ) (ps : List (PostedPoint F)) → All (λ p. p.stroke_id ≡ stroke) (numbered n ps)
  numbered-stroke n [] = tt
  numbered-stroke n (p ∷ ps) = (refl, numbered-stroke (n + 1) ps)

  pub numbered-below :
      (n : ℕ) (ps : List (PostedPoint F)) → All (λ p. p.id < n + length ps) (numbered n ps)
  numbered-below n [] = tt
  numbered-below n (p ∷ ps) = (
    omega arith,
    All-mono (λ q. q.id < n + 1 + length ps) _ (numbered (n + 1) ps) (λ q h. omega arith)
        (numbered-below (n + 1) ps),
  )

  pub count-numbered :
      (n : ℕ) (ps : List (PostedPoint F))
      → count_rows (of_stroke stroke) (numbered n ps) ≡ length ps
  unfolding count_rows
  count-numbered n [] = refl
  count-numbered n (p ∷ ps) = ground (arith, count-numbered (n + 1) ps)

-- The INSERT of a stroke gives the tables with its row, or panics.
pub must_insert_stroke-Returns :
    {F : Type 0} (column : Columns F) {P : Tables F → Type 0} (room : ℕ) (p : PostedStroke F)
    (tx : Tables F)
    → Returns P
        (λ u. (now : ℕ) × (u ≡ insert_stroke column room p now tx))
        (must_insert_stroke column room p tx)
unfolding must_insert_stroke
must_insert_stroke-Returns column room p tx =
    Returns-bind (λ u. (now : ℕ) × (u ≡ insert_stroke column room p now tx)) _ _
      (Returns-must_in_tx _ (λ now. (now, refl)))
      λ u inserted.
        Returns-if (is_storable p) _ _ (λ _. Returns-pure u inserted) (λ _. Returns-panics)
