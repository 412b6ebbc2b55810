-- ===== src/Webapp/Integrity/Drawing.antt =====
-- Integrity of the tables when strokes are posted (postAPIStrokesRoomsID).
use isucon6_final.Common.{
  ℕ, ◌<◌, ◌≡◌, sym, subst, ap, ◌∙◌, false, Option, none, some, String, arith, ◌==◌, All-append,
  All-mono, length, Bool-cases, inl, inr,
}
use isucon6_final.Sql.{count_rows}
use isucon6_final.Sql.Counts.{count_rows-append}
use isucon6_final.Db.{Result, ok, err, panic}
use isucon6_final.Db.Keeps.{
  Keeps, Keeps-pure, Keeps-raise, Keeps-panics, Keeps-query, Keeps-bind, Keeps-attempt,
  Keeps-must_begin-bind, Keeps-in_tx-bind, Keeps-commit,
}
use isucon6_final.Db.Returns.{Keeps-Returns-bind}
use isucon6_final.Webapp.Schema.{
  Columns, TokenRow, Tables, Room, Error, driver, no_rows, PostedStroke,
}
use isucon6_final.Webapp.Queries.{get_strokes, of_stroke, get_stroke_points}
use isucon6_final.Webapp.Rooms.{if_found, token_error, bad_request, room_missing}
use isucon6_final.Webapp.Strokes.Points.{
  with_points, numbered, insert_points-Returns, must_insert_stroke-Returns, numbered-stroke,
  numbered-below, count-numbered,
}
use isucon6_final.Webapp.Strokes.{
  is_bad_stroke, not_owner, insert_stroke, create_stroke, draw, draw_first, draw_in, post_stroke_as,
  post_stroke_with, post_api_strokes_rooms_id,
}
use isucon6_final.Webapp.Integrity.{
  IsValid, check_token-IsValid, get_room-IsValid, or_no_rows-IsValid,
}

module _ {F : Type 0} (column : Columns F) where
  stroke_created :
      (room now : ℕ) (p : PostedStroke F) (t : Tables F)
      → is_bad_stroke p ≡ false
      → IsValid t
      → IsValid (with_points column t.next_stroke p.points (insert_stroke column room p now t))
  unfolding insert_stroke
  stroke_created room now p t fine v = record {
    room_fresh = v.room_fresh;
    rooms_usable = v.rooms_usable;
    rooms_owned = v.rooms_owned;
    stroke_fresh =
        All-append _ t.strokes _
          (All-mono (λ s. s.id < t.next_stroke) _ t.strokes (λ s h. omega arith) v.stroke_fresh)
          (omega arith, tt);
    strokes_wide = All-append _ t.strokes _ v.strokes_wide (ground arith, tt);
    strokes_drawn =
        All-append _ t.strokes _
          (All-mono (λ s. 0 < count_rows (of_stroke s.id) t.points) _ t.strokes
            (λ s h. omega (
              arith,
              h,
              count_rows-append (of_stroke s.id) t.points
                  (numbered column t.next_stroke t.next_point p.points),
            ))
            v.strokes_drawn)
          (
            ground (
              arith,
              count_rows-append (of_stroke t.next_stroke) t.points
                  (numbered column t.next_stroke t.next_point p.points),
              count-numbered column t.next_stroke t.next_point p.points,
            ),
            tt,
          );
    point_fresh =
        All-append _ t.points _
          (All-mono (λ q. q.id < t.next_point) _ t.points (λ q h. omega arith) v.point_fresh)
          (numbered-below column t.next_stroke t.next_point p.points);
    points_used =
        All-append _ t.points _
          (All-mono (λ q. q.stroke_id < t.next_stroke) _ t.points (λ q h. omega arith)
            v.points_used)
          (All-mono (λ q. q.stroke_id ≡ t.next_stroke) _
            (numbered column t.next_stroke t.next_point p.points) (λ q h. omega arith)
            (numbered-stroke column t.next_stroke t.next_point p.points));
  }

  create_stroke-IsValid :
      (room : ℕ) (p : PostedStroke F)
      → is_bad_stroke p ≡ false
      → Keeps IsValid (create_stroke column room p)
  unfolding create_stroke
  create_stroke-IsValid room p fine = Keeps-must_begin-bind _ λ tx v.
      Keeps-Returns-bind _ _ _ (must_insert_stroke-Returns column room p tx) λ tx' (now, inserted).
        Keeps-in_tx-bind _ _ _ λ _.
          Keeps-Returns-bind _ _ _ (insert_points-Returns column tx.next_stroke p.points tx') λ u e.
            Keeps-bind _ _
              (Keeps-commit _ _ (
                subst IsValid (sym (e ∙ ap (with_points column tx.next_stroke p.points) inserted))
                  (stroke_created room now p tx fine v)))
              (λ _. Keeps-pure _)

  draw-IsValid :
      (room : ℕ) (p : PostedStroke F) → is_bad_stroke p ≡ false → Keeps IsValid (draw column room p)
  unfolding draw get_stroke_points
  draw-IsValid room p fine = Keeps-bind _ _ (create_stroke-IsValid room p fine) (λ id.
      Keeps-bind _ _ (Keeps-query _ _) (λ o.
        Keeps-bind _ _ (or_no_rows-IsValid o)
          (λ row. Keeps-bind _ _ (Keeps-query _ _) (λ ps. Keeps-pure _))))

  draw_first-IsValid :
      (k : TokenRow) (room : ℕ) (p : PostedStroke F)
      → is_bad_stroke p ≡ false
      → Keeps IsValid (draw_first column k room p)
  unfolding draw_first
  draw_first-IsValid k room p fine = Keeps-bind _ _ (Keeps-query _ _) (λ cnt.
      elim (Bool-cases (cnt == 0)) [
        | inl zero_owned ↦ rw zero_owned (Keeps-pure not_owner)
        | inr owned ↦ rw owned (draw-IsValid room p fine)
      ])

  draw_in-IsValid :
      (k : TokenRow) (body : Option (PostedStroke F)) (r : Room F)
      → Keeps IsValid (draw_in column k body r)
  unfolding draw_in get_strokes
  draw_in-IsValid k none r = Keeps-raise driver
  draw_in-IsValid k (some p) r = elim (Bool-cases (is_bad_stroke p)) [
    | inl bad ↦ rw bad (Keeps-pure bad_request)
    | inr fine ↦ rw fine (
        Keeps-bind _ _ (Keeps-query _ _) (λ strokes. elim (Bool-cases (length strokes == 0)) [
          | inl empty ↦ rw empty (draw_first-IsValid k r.row.id p fine)
          | inr drawn ↦ rw drawn (draw-IsValid r.row.id p fine)
        ]))
  ]

  if_found-IsValid :
      (k : TokenRow) (body : Option (PostedStroke F)) (found : Result Error (Room F))
      → Keeps IsValid (if_found room_missing (draw_in column k body) found)
  unfolding if_found
  if_found-IsValid k body (ok r) = draw_in-IsValid k body r
  if_found-IsValid k body (err no_rows) = Keeps-pure room_missing
  if_found-IsValid k body (err driver) = Keeps-raise driver
  if_found-IsValid k body panic = Keeps-panics

  post_stroke_with-IsValid :
      (id : Option ℕ) (body : Option (PostedStroke F)) (found : Option TokenRow)
      → Keeps IsValid (post_stroke_with column id body found)
  unfolding post_stroke_with post_stroke_as
  post_stroke_with-IsValid id body none = Keeps-pure token_error
  post_stroke_with-IsValid none body (some k) = Keeps-pure room_missing
  post_stroke_with-IsValid (some id) body (some k) =
      Keeps-bind _ _ (Keeps-attempt _ (get_room-IsValid id)) (if_found-IsValid k body)

  -- `postAPIStrokesRoomsID` keeps the tables valid from every valid state, for every token, room
  -- id and body and whatever the driver answers.
  pub post_api_strokes-IsValid :
      (csrf : String) (id : Option ℕ) (body : Option (PostedStroke F))
      → Keeps IsValid (post_api_strokes_rooms_id column csrf id body)
  unfolding post_api_strokes_rooms_id
  post_api_strokes-IsValid csrf id body =
      Keeps-bind _ _ (check_token-IsValid csrf) (post_stroke_with-IsValid id body)
