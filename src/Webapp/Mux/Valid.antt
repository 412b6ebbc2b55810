-- ===== src/Webapp/Mux/Valid.antt =====
-- Every request to the application keeps its tables valid.
use isucon6_final.Common.{ℕ, Option, none, some, List, [], ◌∷◌, String, All}
use isucon6_final.Db.{World, Result, ok, err, panic}
use isucon6_final.Db.Keeps.{
  Keeps, Keeps-pure, Keeps-raise, Keeps-panics, Keeps-exec, Keeps-query, Keeps-attempt, Keeps-bind,
}
use isucon6_final.Webapp.Schema.{Columns, Tables, Stroke, Room, Error, driver, no_rows}
use isucon6_final.Webapp.Queries.{get_strokes, get_stroke_points, get_watcher_count}
use isucon6_final.Webapp.Rooms.{
  post_api_csrf_token, load_rooms, get_api_rooms, if_found, room_missing, load_points, show_room,
  get_api_rooms_id,
}
use isucon6_final.Webapp.Integrity.{
  IsValid, get_room-IsValid, or_no_rows-IsValid, post_api_rooms-IsValid,
}
use isucon6_final.Webapp.Integrity.Drawing.{post_api_strokes-IsValid}
use isucon6_final.Webapp.Mux.Streaming.{AllKeep, get_api_stream-OnValid}
use isucon6_final.Webapp.Mux.{
  AppRequest, csrf_token, rooms, new_room, room, stream, new_stroke, unrouted, handled, streamed,
  app_serve, app_serve_all,
}

module _ {F : Type 0} where
  post_api_csrf_token-IsValid : (fresh : String) → Keeps IsValid (post_api_csrf_token {F = F} fresh)
  unfolding post_api_csrf_token
  post_api_csrf_token-IsValid fresh =
      Keeps-bind _ _
        (Keeps-exec _ _ (λ t now v. record {
          room_fresh = v.room_fresh;
          rooms_usable = v.rooms_usable;
          rooms_owned = v.rooms_owned;
          stroke_fresh = v.stroke_fresh;
          strokes_wide = v.strokes_wide;
          strokes_drawn = v.strokes_drawn;
          point_fresh = v.point_fresh;
          points_used = v.points_used;
        }))
        λ id. Keeps-bind _ _ (Keeps-query _ _) λ id'.
          Keeps-bind _ _ (Keeps-query _ _)
            λ found. Keeps-bind _ _ (or_no_rows-IsValid found) λ t. Keeps-pure _

  load_rooms-IsValid : (rs : List (ℕ × ℕ)) → Keeps IsValid (load_rooms {F = F} rs)
  unfolding load_rooms get_strokes
  load_rooms-IsValid [] = Keeps-pure _
  load_rooms-IsValid ((id, m) ∷ rs) = Keeps-bind _ _ (get_room-IsValid id) λ r.
      Keeps-bind _ _ (Keeps-query _ _)
        λ s. Keeps-bind _ _ (load_rooms-IsValid rs) λ rest. Keeps-pure _

  get_api_rooms-IsValid : Keeps IsValid (get_api_rooms {F = F})
  unfolding get_api_rooms
  get_api_rooms-IsValid =
      Keeps-bind _ _ (Keeps-query _ _)
        λ results. Keeps-bind _ _ (load_rooms-IsValid results) λ loaded. Keeps-pure _

  load_points-IsValid : (ss : List (Stroke F)) → Keeps IsValid (load_points ss)
  unfolding load_points get_stroke_points
  load_points-IsValid [] = Keeps-pure _
  load_points-IsValid (s ∷ ss) =
      Keeps-bind _ _ (Keeps-query _ _)
        λ p. Keeps-bind _ _ (load_points-IsValid ss) λ rest. Keeps-pure _

  show_room-IsValid : (r : Room F) → Keeps IsValid (show_room r)
  unfolding show_room get_strokes get_watcher_count
  show_room-IsValid r = Keeps-bind _ _ (Keeps-query _ _) λ strokes.
      Keeps-bind _ _ (load_points-IsValid strokes)
        λ filled. Keeps-bind _ _ (Keeps-query _ _) λ n. Keeps-pure _

  if_shown-IsValid :
      (found : Result Error (Room F)) → Keeps IsValid (if_found room_missing show_room found)
  unfolding if_found
  if_shown-IsValid (ok r) = show_room-IsValid r
  if_shown-IsValid (err no_rows) = Keeps-pure room_missing
  if_shown-IsValid (err driver) = Keeps-raise driver
  if_shown-IsValid panic = Keeps-panics

  get_api_rooms_id-IsValid : (id : Option ℕ) → Keeps IsValid (get_api_rooms_id {F = F} id)
  unfolding get_api_rooms_id
  get_api_rooms_id-IsValid none = Keeps-pure _
  get_api_rooms_id-IsValid (some id) =
      Keeps-bind _ _ (Keeps-attempt _ (get_room-IsValid id)) if_shown-IsValid

module _ {F : Type 0} (column : Columns F) where
  -- What runs beside a stream keeps the tables valid.
  abbrev pub Beside : AppRequest F → Type 0
  Beside (stream others csrf id l) = AllKeep others
  Beside (csrf_token fresh) = Unit
  Beside rooms = Unit
  Beside (new_room csrf body) = Unit
  Beside (room id) = Unit
  Beside (new_stroke csrf id body) = Unit
  Beside unrouted = Unit

  pub app_serve-IsValid :
      (r : AppRequest F) (w : World (Tables F))
      → Beside r
      → IsValid w.tables
      → IsValid (app_serve column r w).1.tables
  unfolding app_serve handled streamed
  app_serve-IsValid (csrf_token fresh) w b v = (post_api_csrf_token-IsValid fresh).at w v
  app_serve-IsValid rooms w b v = get_api_rooms-IsValid.at w v
  app_serve-IsValid (new_room csrf body) w b v = (post_api_rooms-IsValid csrf body).at w v
  app_serve-IsValid (room id) w b v = (get_api_rooms_id-IsValid id).at w v
  app_serve-IsValid (stream others csrf id l) w b v = get_api_stream-OnValid others b csrf id l _ v
  app_serve-IsValid (new_stroke csrf id body) w b v =
      (post_api_strokes-IsValid column csrf id body).at w v
  app_serve-IsValid unrouted w b v = v

  -- Any requests to the application, one after another, keep its tables valid, from every valid
  -- state and whatever the driver answers, if what runs beside a stream does too: ids are below
  -- their counters, every room can be drawn on and has an owner, and every stroke has a width and a
  -- point.
  pub app_serve_all-IsValid :
      (rs : List (AppRequest F)) (w : World (Tables F))
      → All Beside rs
      → IsValid w.tables
      → IsValid (app_serve_all column rs w).tables
  unfolding app_serve_all
  app_serve_all-IsValid [] w b v = v
  app_serve_all-IsValid (r ∷ rs) w b v =
      app_serve_all-IsValid rs (app_serve column r w).1 b.1 (app_serve-IsValid r w b.0 v)
