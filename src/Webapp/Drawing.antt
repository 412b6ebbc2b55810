-- ===== src/Webapp/Drawing.antt =====
-- What a room shows: the strokes with their points that `getAPIRoomsID` and the stream of
-- webapp/go/app.go read, and how the statements of `postAPIStrokesRoomsID` change it.

pub mod Posting
mod Tests
use isucon6_final.Common.{
  ℕ, ◌+◌, ◌≤◌, ◌<◌, ◌≡◌, ◌≢◌, refl, sym, ap, ◌∙◌, Bool, true, false, ◌&&◌, some, List, [], ◌∷◌,
  ◌++◌, map, map-All, map-append, append-nil, leb, ltb, lt→ltb, ◌==◌, ==_iff, arith, All, All-mono,
  length, Bool-cases, inl, inr, if◌then◌else◌,
}
use isucon6_final.Sql.{first_row, where_rows, order_by, insert_row}
use isucon6_final.Sql.Order.{All-where_rows_of, All-order_by}
use isucon6_final.Sql.Selected.{
  where_rows-insert, where_rows-append, where_rows-none, order_by-insert, where_rows-all,
}
use isucon6_final.Webapp.Schema.{
  Columns, StrokeRow, PointRow, Tables, Stroke, PostedPoint, PostedStroke,
}
use isucon6_final.Webapp.Queries.{of_stroke, stroke_points, in_room_after, by_id, strokes_after}
use isucon6_final.Webapp.Integrity.{IsValid}
use isucon6_final.Webapp.Strokes.{insert_stroke}
use isucon6_final.Webapp.Strokes.Points.{point_row, numbered, with_points, numbered-stroke}

module _ {F : Type 0} where
  abbrev by_point : PointRow F → PointRow F → Bool
  by_point q r = leb q.id r.id

  order_by-numbered :
      (column : Columns F) (stroke n : ℕ) (ps : List (PostedPoint F))
      → order_by by_point (numbered column stroke n ps) ≡ numbered column stroke n ps
  unfolding order_by insert_row
  order_by-numbered column stroke n [] = refl
  order_by-numbered column stroke n (q ∷ []) = refl
  order_by-numbered column stroke n (q ∷ r ∷ ps) =
      rw (order_by-numbered column stroke (n + 1) (r ∷ ps)) ground arith

-- The strokes of a room, in the order of their ids, each with its points.
module _ {F : Type 0} where
  abbrev pub with_its_points : Tables F → StrokeRow F → Stroke F
  with_its_points t s = record { row = s; points = stroke_points s.id t }

  abbrev pub drawing : ℕ → Tables F → List (Stroke F)
  drawing room t = map (with_its_points t) (strokes_after room 0 t)

module _ {F : Type 0} (column : Columns F) (room : ℕ) (p : PostedStroke F) (now : ℕ)
    (t : Tables F) where
  -- The tables after the transaction of `postAPIStrokesRoomsID`.
  abbrev pub drawn : Tables F
  drawn = with_points column t.next_stroke p.points (insert_stroke column room p now t)

  abbrev pub new_row : StrokeRow F
  new_row = record {
    id = t.next_stroke;
    room_id = room;
    width = p.width;
    red = p.red;
    green = p.green;
    blue = p.blue;
    alpha = column.alpha p.alpha;
    created_at = now;
  }

  abbrev pub new_stroke : Stroke F
  new_stroke = record {
    row = new_row;
    points = numbered column t.next_stroke t.next_point p.points;
  }

  module _ (v : IsValid t) (positive : 0 < t.next_stroke) where
    strokes_after-drawn : strokes_after room 0 drawn ≡ strokes_after room 0 t ++ new_row ∷ []
    unfolding strokes_after insert_stroke
    strokes_after-drawn =
        let hit : in_room_after room 0 new_row ≡ true = ground (arith, positive) in
        rw (where_rows-insert (in_room_after room 0) t.strokes new_row hit) (
          order_by-insert by_id (where_rows (in_room_after room 0) t.strokes) new_row (
            All-where_rows_of (λ (s : StrokeRow F). s.id) (in_room_after room 0)
              (λ s. leb s.id t.next_stroke ≡ true) t.strokes
              (All-mono (λ s. s.id < t.next_stroke) _ t.strokes (λ s h _. ground (arith, h))
                v.stroke_fresh)))

    strokes_after_elsewhere :
        (other : ℕ) → other ≢ room → strokes_after other 0 drawn ≡ strokes_after other 0 t
    unfolding strokes_after insert_stroke
    strokes_after_elsewhere other h =
        let miss : in_room_after other 0 new_row ≡ false = ground (arith, h) in
        ap (order_by by_id) (
          where_rows-append (in_room_after other 0) t.strokes (new_row ∷ [])
          ∙ rw (where_rows-none (in_room_after other 0) (new_row ∷ []) (miss, tt)) (append-nil _))

    stroke_points_before :
        (id : ℕ) → id < t.next_stroke → stroke_points id drawn ≡ stroke_points id t
    unfolding stroke_points insert_stroke
    stroke_points_before id h =
        let rows = numbered column t.next_stroke t.next_point p.points in
        let miss : All (λ q. of_stroke id q ≡ false) rows =
          All-mono (λ q. q.stroke_id ≡ t.next_stroke) _ rows (λ q e. ground (arith, h, e))
            (numbered-stroke column t.next_stroke t.next_point p.points) in
        ap (order_by by_point) (
          where_rows-append (of_stroke id) t.points rows
          ∙ rw (where_rows-none (of_stroke id) rows miss) (append-nil _))

    -- The strokes that there were keep their points.
    earlier : (other : ℕ) → map (with_its_points drawn) (strokes_after other 0 t) ≡ drawing other t
    unfolding strokes_after
    earlier other = map-All (with_its_points drawn) (with_its_points t) (strokes_after other 0 t) (
        All-order_by _ by_id _ (
          All-where_rows_of (λ (s : StrokeRow F). s.id) (in_room_after other 0) _ t.strokes
            (All-mono (λ s. s.id < t.next_stroke) _ t.strokes
              (λ s h _. ap (λ ps. record { row = s; points = ps }) (stroke_points_before s.id h))
              v.stroke_fresh)))

    pub stroke_points-drawn : stroke_points t.next_stroke drawn ≡ new_stroke.points
    unfolding stroke_points insert_stroke
    stroke_points-drawn =
        let rows = numbered column t.next_stroke t.next_point p.points in
        let old : All (λ q. of_stroke t.next_stroke q ≡ false) t.points =
          All-mono (λ (q : PointRow F). q.stroke_id < t.next_stroke) _ t.points
            (λ q h. ground (arith, h)) v.points_used in
        let new : All (λ q. of_stroke t.next_stroke q ≡ true) rows =
          All-mono (λ q. q.stroke_id ≡ t.next_stroke) _ rows (λ q e. ground (arith, e))
            (numbered-stroke column t.next_stroke t.next_point p.points) in
        ap (order_by by_point) (
          where_rows-append (of_stroke t.next_stroke) t.points rows
          ∙ rw
              (
                where_rows-none (of_stroke t.next_stroke) t.points old,
                where_rows-all (of_stroke t.next_stroke) rows new,
              )
              refl)
        ∙ order_by-numbered column t.next_stroke t.next_point p.points

    pub found-drawn :
        first_row (where_rows (λ (s : StrokeRow F). s.id == t.next_stroke) drawn.strokes)
        ≡ some new_row
    unfolding insert_stroke where_rows first_row
    found-drawn =
        let is_new : StrokeRow F → Bool = λ s. s.id == t.next_stroke in
        let old : All (λ s. is_new s ≡ false) t.strokes =
          All-mono (λ s. s.id < t.next_stroke) _ t.strokes (λ s h. ground (arith, h))
            v.stroke_fresh in
        let itself : is_new new_row ≡ true = ground arith in
        let one : where_rows is_new (t.strokes ++ new_row ∷ []) ≡ new_row ∷ [] =
          where_rows-append is_new t.strokes (new_row ∷ [])
          ∙ rw (where_rows-none is_new t.strokes old, itself) refl in
        ap first_row one

    -- The new stroke comes after those that the room has shown, with its points in the order in which
    -- they were posted.
    pub drawing-drawn : drawing room drawn ≡ drawing room t ++ new_stroke ∷ []
    drawing-drawn =
        ap (map (with_its_points drawn)) strokes_after-drawn
        ∙ map-append (with_its_points drawn) (strokes_after room 0 t) (new_row ∷ [])
        ∙ rw (stroke_points-drawn, earlier room) refl

    -- Another room shows what it has shown.
    pub drawing_elsewhere : (other : ℕ) → other ≢ room → drawing other drawn ≡ drawing other t
    drawing_elsewhere other h =
        ap (map (with_its_points drawn)) (strokes_after_elsewhere other h) ∙ earlier other
