-- ===== src/Webapp/Integrity.antt =====
-- What holds of the application's tables between two requests, whatever the driver answers.
pub mod Drawing
use isucon6_final.Common.{
  ℕ, ◌<◌, ◌≡◌, sym, subst, false, Option, none, some, String, arith, ◌==◌, All, All-append,
  All-mono, length, Bool-cases, inl, inr,
}
use isucon6_final.Sql.{count_rows}
use isucon6_final.Sql.Counts.{count_rows-insert, count_rows-append}
use isucon6_final.Db.{Result, ok, err, panic}
use isucon6_final.Db.Keeps.{
  Keeps, Keeps-pure, Keeps-raise, Keeps-panics, Keeps-query, Keeps-bind, Keeps-attempt,
  Keeps-must_begin-bind, Keeps-must_in_tx-bind, Keeps-in_tx-bind, Keeps-commit, keeps_rules,
}
use isucon6_final.Db.Returns.{Keeps-Returns-bind}
use isucon6_final.Webapp.Schema.{
  Columns, TokenRow, RoomRow, OwnerRow, Tables, Room, Error, driver, no_rows, PostedRoom,
  PostedStroke,
}
use isucon6_final.Webapp.Queries.{
  check_token, get_room, get_strokes, of_stroke, or_no_rows, get_stroke_points,
}
use isucon6_final.Webapp.Rooms.{
  insert_room, insert_owner, create_room, is_bad_room, post_room_as, post_room_with, post_api_rooms,
  if_found, token_error, bad_request, room_missing,
}
use isucon6_final.Webapp.Strokes.Points.{
  with_points, numbered, insert_points-Returns, numbered-stroke, numbered-below, count-numbered,
}
use isucon6_final.Webapp.Strokes.{
  is_bad_stroke, not_owner, insert_stroke, create_stroke, draw, draw_first, draw_in, post_stroke_as,
  post_stroke_with, post_api_strokes_rooms_id,
}

abbrev Usable : RoomRow → Type 0
Usable r =
    is_bad_room
      (record { name = r.name; canvas_width = r.canvas_width; canvas_height = r.canvas_height })
    ≡ false

module _ {F : Type 0} where
  -- Ids are below their counters, every room can be drawn on and has an owner, and every stroke has
  -- a width and at least one point.
  pub record IsValid (t : Tables F) : Type 0 where
    pub room_fresh : All (λ r. r.id < t.next_room) t.rooms
    pub rooms_usable : All Usable t.rooms
    pub rooms_owned :
        All (λ r. 0 < count_rows (λ (o : OwnerRow). o.room_id == r.id) t.room_owners) t.rooms
    pub stroke_fresh : All (λ s. s.id < t.next_stroke) t.strokes
    pub strokes_wide : All (λ s. 0 < s.width) t.strokes
    pub strokes_drawn : All (λ s. 0 < count_rows (of_stroke s.id) t.points) t.strokes
    pub point_fresh : All (λ p. p.id < t.next_point) t.points
    pub points_used : All (λ p. p.stroke_id < t.next_stroke) t.points

  room_created :
      (p : PostedRoom) (now token : ℕ) (t : Tables F)
      → is_bad_room p ≡ false
      → IsValid t
      → IsValid (insert_owner t.next_room token (insert_room p now t))
  unfolding insert_owner insert_room
  room_created p now token t fine v = record {
    room_fresh =
        All-append _ t.rooms _
          (All-mono (λ r. r.id < t.next_room) _ t.rooms (λ r h. omega arith) v.room_fresh)
          (omega arith, tt);
    rooms_usable = All-append Usable t.rooms _ v.rooms_usable (fine, tt);
    rooms_owned =
        All-append _ t.rooms _
          (All-mono (λ r. 0 < count_rows (λ (o : OwnerRow). o.room_id == r.id) t.room_owners) _
            t.rooms (λ r h. rw count_rows-insert (ground arith)) v.rooms_owned)
          (rw count_rows-insert (ground arith), tt);
    stroke_fresh = v.stroke_fresh;
    strokes_wide = v.strokes_wide;
    strokes_drawn = v.strokes_drawn;
    point_fresh = v.point_fresh;
    points_used = v.points_used;
  }

  create_room-IsValid :
      (p : PostedRoom) (k : TokenRow) → is_bad_room p ≡ false → Keeps IsValid (create_room p k)
  unfolding create_room
  create_room-IsValid p k fine = Keeps-must_begin-bind _ λ tx v. Keeps-must_in_tx-bind _ _ λ now.
      Keeps-in_tx-bind _ _ _ λ _. Keeps-must_in_tx-bind _ _ λ _.
        Keeps-bind _ _ (Keeps-commit _ _ (room_created p now k.id tx fine v)) (λ _. Keeps-pure _)

  pub or_no_rows-IsValid : {A : Type 0} (o : Option A) → Keeps IsValid (or_no_rows o)
  unfolding or_no_rows
  or_no_rows-IsValid none = Keeps-raise no_rows
  or_no_rows-IsValid (some a) = Keeps-pure a

  pub get_room-IsValid : (id : ℕ) → Keeps IsValid (get_room id)
  unfolding get_room
  get_room-IsValid id =
      Keeps-bind _ _ (Keeps-query _ _)
        (λ o. Keeps-bind _ _ (or_no_rows-IsValid o) (λ r. Keeps-pure _))

  pub check_token-IsValid : (csrf : String) → Keeps IsValid (check_token csrf)
  unfolding check_token
  check_token-IsValid csrf = search keeps_rules

  post_room_as-IsValid :
      (k : TokenRow) (body : Option PostedRoom) → Keeps IsValid (post_room_as k body)
  unfolding post_room_as
  post_room_as-IsValid k none = Keeps-raise driver
  post_room_as-IsValid k (some p) = elim (Bool-cases (is_bad_room p)) [
    | inl bad ↦ rw bad (Keeps-pure bad_request)
    | inr fine ↦ rw fine (
        Keeps-bind _ _ (create_room-IsValid p k fine)
          (λ id. Keeps-bind _ _ (get_room-IsValid id) (λ r. Keeps-pure _)))
  ]

  post_room_with-IsValid :
      (body : Option PostedRoom) (found : Option TokenRow)
      → Keeps IsValid (post_room_with body found)
  unfolding post_room_with
  post_room_with-IsValid body none = Keeps-pure token_error
  post_room_with-IsValid body (some k) = post_room_as-IsValid k body

  -- `postAPIRooms` keeps the tables valid from every valid state, for every token and body and
  -- whatever the driver answers.
  pub post_api_rooms-IsValid :
      (csrf : String) (body : Option PostedRoom) → Keeps IsValid (post_api_rooms csrf body)
  unfolding post_api_rooms
  post_api_rooms-IsValid csrf body =
      Keeps-bind _ _ (check_token-IsValid csrf) (post_room_with-IsValid body)
