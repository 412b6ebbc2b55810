-- ===== src/Webapp/Drawing/Posting.antt =====
-- What posting a stroke does to what rooms show, through the whole handler.
use isucon6_final.Common.{
  ℕ, ◌<◌, ◌≡◌, ◌≢◌, ◌⊎◌, refl, subst, Option, none, some, [], ◌∷◌, ◌++◌, String, ◌==◌, length,
  Bool-cases, inl, inr,
}
use isucon6_final.Sql.Order.{Holds}
use isucon6_final.Db.{Result, ok, err, panic}
use isucon6_final.Db.Keeps.{Keeps, keeps_rules}
use isucon6_final.Db.Returns.{
  Post, Returns-query, Returns-must_begin, Returns-in_tx, Returns-attempt,
}
use isucon6_final.Db.Triple.{
  Triple, Triple-pure, Triple-raise, Triple-bind, Triple-fact, Triple-Returns-bind, Triple-commit,
  Triple-exists, Triple-of_Keeps, Triple-panics, Triple-weaken,
}
use isucon6_final.Webapp.Schema.{
  Columns, TokenRow, StrokeRow, Tables, Room, Stroke, Error, driver, no_rows, PostedStroke,
  stroke_body, Response,
}
use isucon6_final.Webapp.Queries.{check_token, get_strokes, get_stroke_points}
use isucon6_final.Webapp.Rooms.{if_found, token_error, bad_request, room_missing}
use isucon6_final.Webapp.Strokes.{
  is_bad_stroke, not_owner, insert_stroke, create_stroke, draw, draw_first, draw_in, post_stroke_as,
  post_stroke_with, post_api_strokes_rooms_id,
}
use isucon6_final.Webapp.Strokes.Points.{
  with_points, insert_points-Returns, must_insert_stroke-Returns,
}
use isucon6_final.Webapp.Strokes.Owner.{get_room-id, or_no_rows-Holds}
use isucon6_final.Webapp.Integrity.{IsValid}
use isucon6_final.Webapp.Drawing.{
  drawing, drawn, new_row, new_stroke, found-drawn, stroke_points-drawn, drawing-drawn,
  drawing_elsewhere,
}

module _ {F : Type 0} (column : Columns F) (t : Tables F) where
  check_token-Keeps : (csrf : String) → Keeps (λ (u : Tables F). u ≡ t) (check_token csrf)
  unfolding check_token
  check_token-Keeps csrf = search keeps_rules

  -- Nothing has happened, or the stroke was drawn.
  abbrev pub AtMostDrawn : ℕ → PostedStroke F → Tables F → Type 0
  AtMostDrawn room p u = (u ≡ t) ⊎ ((now : ℕ) × (u ≡ drawn column room p now t))

  create_stroke-drawn :
      (room : ℕ) (p : PostedStroke F)
      → Triple
          (λ u. u ≡ t)
          (λ id u. ((now : ℕ) × (u ≡ drawn column room p now t)) × (id ≡ t.next_stroke))
          (AtMostDrawn room p)
          (create_stroke column room p)
  unfolding create_stroke
  create_stroke-drawn room p =
      Triple-Returns-bind (λ tx. tx ≡ t) _ _ (λ u e. inl e) (Returns-must_begin (λ u e. e))
        λ tx begun.
          Triple-Returns-bind (λ tx'. (now : ℕ) × (tx' ≡ insert_stroke column room p now tx)) _ _
            (λ u e. inl e) (must_insert_stroke-Returns column room p tx)
            λ tx' (now, inserted).
              Triple-Returns-bind (λ id. id ≡ tx.next_stroke) _ _ (λ u e. inl e)
                (Returns-in_tx _ _ (λ n. refl))
                λ id numbered.
                  Triple-Returns-bind (λ tx''. tx'' ≡ with_points column id p.points tx') _ _
                    (λ u e. inl e) (insert_points-Returns column id p.points tx')
                    λ tx'' pointed.
                      Triple-bind (λ _ u. u ≡ tx'') _ _ (Triple-commit driver tx'' (λ u e. inl e))
                        λ _. Triple-pure id (λ u e. (
                          (now, rw (e, pointed, numbered, inserted, begun) refl),
                          rw (numbered, begun) refl,
                        ))

  -- What rooms show after a stroke was drawn: one stroke more at the end of its room, with the
  -- posted points in their order.
  abbrev pub Shows : ℕ → Stroke F → Tables F → Type 0
  Shows room s u =
      (drawing room u ≡ drawing room t ++ s ∷ [])
      × ((other : ℕ) → other ≢ room → drawing other u ≡ drawing other t)

  module _ (v : IsValid t) (positive : 0 < t.next_stroke) where
    -- What is answered when the stroke was drawn.
    abbrev pub Drew : ℕ → PostedStroke F → Response F → Tables F → Type 0
    Drew room p reply u =
        (now : ℕ) × (reply.body ≡ stroke_body (new_stroke column room p now t))
        × (u ≡ drawn column room p now t)

    draw-drawn :
        (room : ℕ) (p : PostedStroke F)
        → Triple (λ u. u ≡ t) (Drew room p) (AtMostDrawn room p) (draw column room p)
    unfolding draw get_stroke_points
    draw-drawn room p = Triple-bind _ _ _ (create_stroke-drawn room p) λ id.
        Triple-fact _ λ numbered. Triple-exists _ λ now.
          Triple-Returns-bind (Holds (λ (r : StrokeRow F). r ≡ new_row column room p now t)) _ _
            (λ u e. inr (now, e))
            (Returns-query _ _
              (λ u n e. rw (e, numbered, found-drawn column room p now t v positive) refl))
            λ found h.
              Triple-Returns-bind (λ r. r ≡ new_row column room p now t) _ _ (λ u e. inr (now, e))
                (or_no_rows-Holds _ found h)
                λ row is_new.
                  Triple-Returns-bind (λ ps. ps ≡ (new_stroke column room p now t).points) _ _
                    (λ u e. inr (now, e))
                    (Returns-query _ _ (λ u n e.
                      rw (e, numbered) (stroke_points-drawn column room p now t v positive)))
                    λ ps pointed. Triple-pure _ (λ u e. (now, rw (is_new, pointed) refl, e))

    -- The answer and the tables of a request to draw in a room: it draws nothing and answers with no
    -- stroke, or it answers with the stroke that it has drawn.
    abbrev pub Answered : ℕ → PostedStroke F → Response F → Tables F → Type 0
    Answered room p reply u =
        ((u ≡ t) × ((s : Stroke F) → reply.body ≢ stroke_body s)) ⊎ Drew room p reply u

    draw-Answered :
        (room : ℕ) (p : PostedStroke F)
        → Triple (λ u. u ≡ t) (Answered room p) (AtMostDrawn room p) (draw column room p)
    draw-Answered room p = Triple-weaken _ _ (λ reply u h. inr h) (λ u h. h) (draw-drawn room p)

    draw_first-Answered :
        (k : TokenRow) (room : ℕ) (p : PostedStroke F)
        → Triple (λ u. u ≡ t) (Answered room p) (AtMostDrawn room p) (draw_first column k room p)
    unfolding draw_first
    draw_first-Answered k room p =
        Triple-Returns-bind (λ _. Unit) _ _ (λ u e. inl e) (Returns-query _ _ (λ u n e. tt))
          λ cnt _. elim (Bool-cases (cnt == 0)) [
            | inl nobody ↦ rw nobody (Triple-pure not_owner (λ u e. inl (e, λ s k. cc)))
            | inr owner ↦ rw owner (draw-Answered room p)
          ]

    draw_in-Answered :
        (k : TokenRow) (p : PostedStroke F) (r : Room F)
        → Triple
            (λ u. u ≡ t)
            (Answered r.row.id p)
            (AtMostDrawn r.row.id p)
            (draw_in column k (some p) r)
    unfolding draw_in get_strokes
    draw_in-Answered k p r = elim (Bool-cases (is_bad_stroke p)) [
      | inl bad ↦ rw bad (Triple-pure bad_request (λ u e. inl (e, λ s k. cc)))
      | inr fine ↦ rw fine (
          Triple-Returns-bind (λ _. Unit) _ _ (λ u e. inl e) (Returns-query _ _ (λ u n e. tt))
            λ strokes _. elim (Bool-cases (length strokes == 0)) [
              | inl none_yet ↦ rw none_yet (draw_first-Answered k r.row.id p)
              | inr some_there ↦ rw some_there (draw-Answered r.row.id p)
            ])
    ]

    if_found-Answered :
        (k : TokenRow) (id : ℕ) (p : PostedStroke F) (found : Result Error (Room F))
        → Post (λ (r : Room F). r.row.id ≡ id) found
        → Triple
            (λ u. u ≡ t)
            (Answered id p)
            (AtMostDrawn id p)
            (if_found room_missing (draw_in column k (some p)) found)
    unfolding if_found
    if_found-Answered k id p (ok r) q =
        subst
          (λ i. Triple (λ u. u ≡ t) (Answered i p) (AtMostDrawn i p) (draw_in column k (some p) r))
          q (draw_in-Answered k p r)
    if_found-Answered k id p (err no_rows) q = Triple-pure room_missing (λ u e. inl (e, λ s k. cc))
    if_found-Answered k id p (err driver) q = Triple-raise driver (λ u e. inl e)
    if_found-Answered k id p panic q = Triple-panics (λ u e. inl e)

    post_stroke-Answered :
        (found : Option TokenRow) (id : ℕ) (p : PostedStroke F)
        → Triple
            (λ u. u ≡ t)
            (Answered id p)
            (AtMostDrawn id p)
            (post_stroke_with column (some id) (some p) found)
    unfolding post_stroke_with post_stroke_as
    post_stroke-Answered none id p = Triple-pure token_error (λ u e. inl (e, λ s k. cc))
    post_stroke-Answered (some k) id p =
        Triple-Returns-bind (Post (λ (r : Room F). r.row.id ≡ id)) _ _ (λ u e. inl e)
          (Returns-attempt _ (get_room-id id)) λ found q. if_found-Answered k id p found q

    handler-Answered :
        (csrf : String) (id : ℕ) (p : PostedStroke F)
        → Triple
            (λ u. u ≡ t)
            (Answered id p)
            (AtMostDrawn id p)
            (post_api_strokes_rooms_id column csrf (some id) (some p))
    unfolding post_api_strokes_rooms_id
    handler-Answered csrf id p =
        Triple-bind (λ _ u. u ≡ t) _ _ (Triple-of_Keeps _ _ (λ u e. inl e) (check_token-Keeps csrf))
          λ found. post_stroke-Answered found id p

    drawn-Shows :
        (room : ℕ) (p : PostedStroke F) (now : ℕ) (u : Tables F)
        → u ≡ drawn column room p now t
        → Shows room (new_stroke column room p now t) u
    drawn-Shows room p now u e = rw e (
      drawing-drawn column room p now t v positive,
      drawing_elsewhere column room p now t v positive,
    )

    room_after_answer :
        (id : ℕ) (p : PostedStroke F) (reply : Response F) (u : Tables F)
        → Answered id p reply u
        → ((u ≡ t) × ((s : Stroke F) → reply.body ≢ stroke_body s))
          ⊎ ((now : ℕ) × (reply.body ≡ stroke_body (new_stroke column id p now t))
              × Shows id (new_stroke column id p now t) u)
    room_after_answer id p reply u (inl h) = inl h
    room_after_answer id p reply u (inr (now, answer, e)) =
        inr (now, answer, drawn-Shows id p now u e)

    room_after_failure :
        (id : ℕ) (p : PostedStroke F) (u : Tables F)
        → AtMostDrawn id p u
        → (u ≡ t) ⊎ ((now : ℕ) × Shows id (new_stroke column id p now t) u)
    room_after_failure id p u (inl e) = inl e
    room_after_failure id p u (inr (now, e)) = inr (now, drawn-Shows id p now u e)

    -- A posted stroke that is answered with a stroke is from then on shown in its room, after all that
    -- the room showed, exactly as it was answered: with the posted values and the posted points in
    -- their order. The other rooms show what they showed. With another answer nothing has changed; a
    -- request that fails has changed nothing or has drawn the stroke like this. The tables are valid,
    -- and the counter of stroke ids is positive.
    pub post_api_strokes-shown :
        (csrf : String) (id : ℕ) (p : PostedStroke F)
        → Triple
            (λ u. u ≡ t)
            (λ reply u.
              ((u ≡ t) × ((s : Stroke F) → reply.body ≢ stroke_body s))
              ⊎ ((now : ℕ) × (reply.body ≡ stroke_body (new_stroke column id p now t))
                  × Shows id (new_stroke column id p now t) u))
            (λ u. (u ≡ t) ⊎ ((now : ℕ) × Shows id (new_stroke column id p now t) u))
            (post_api_strokes_rooms_id column csrf (some id) (some p))
    post_api_strokes-shown csrf id p =
        Triple-weaken (Answered id p) (AtMostDrawn id p) (room_after_answer id p)
          (room_after_failure id p) (handler-Answered csrf id p)
