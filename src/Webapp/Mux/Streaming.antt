-- ===== src/Webapp/Mux/Streaming.antt =====
-- A stream keeps the tables valid, if the requests beside it do.
use isucon6_final.Common.{ℕ, zero, suc, ◌==◌, Option, none, some, List, [], ◌∷◌, String}
use isucon6_final.Db.{World, Db, Result, ok, err, panic}
use isucon6_final.Db.Keeps.{
  Keeps, Keeps-pure, Keeps-raise, Keeps-panics, Keeps-exec, Keeps-query, Keeps-if, Keeps-attempt,
  Keeps-sleep, Keeps-bind,
}
use isucon6_final.Webapp.Schema.{TokenRow, Tables, Stroke, Room, Error, driver, no_rows}
use isucon6_final.Webapp.Queries.{
  get_strokes, get_stroke_points, get_watcher_count, update_room_watcher,
}
use isucon6_final.Webapp.Stream.{
  Frame, Session, print_and_flush, last_stroke_id, report_count, room_or_none, visit, send_strokes,
  send_changes, send_turns, stream_room, visit_room, stream_found, stream_as, open_stream, ended,
  get_api_stream_rooms_id,
}
use isucon6_final.Webapp.Integrity.{IsValid, check_token-IsValid, get_room-IsValid}

module _ {F : Type 0} where
  -- A session over valid tables.
  abbrev pub OnValid : Session F → Type 0
  OnValid s = IsValid s.tables

  print_and_flush-OnValid : (f : Frame F) → Keeps OnValid (print_and_flush f)
  unfolding print_and_flush
  print_and_flush-OnValid f = record { at = λ w v. v }

  update_room_watcher-IsValid : (r token : ℕ) → Keeps IsValid (update_room_watcher {F = F} r token)
  unfolding update_room_watcher
  update_room_watcher-IsValid r token = Keeps-exec _ _ λ t now v. record {
    room_fresh = v.room_fresh;
    rooms_usable = v.rooms_usable;
    rooms_owned = v.rooms_owned;
    stroke_fresh = v.stroke_fresh;
    strokes_wide = v.strokes_wide;
    strokes_drawn = v.strokes_drawn;
    point_fresh = v.point_fresh;
    points_used = v.points_used;
  }

  last_stroke_id-OnValid : (l : Option (Option ℕ)) → Keeps OnValid (last_stroke_id {F = F} l)
  unfolding last_stroke_id
  last_stroke_id-OnValid none = Keeps-pure _
  last_stroke_id-OnValid (some none) = Keeps-raise _
  last_stroke_id-OnValid (some (some n)) = Keeps-pure _

  report_count-OnValid : (old new : ℕ) → Keeps OnValid (report_count {F = F} old new)
  unfolding report_count
  report_count-OnValid old new =
      Keeps-if (new == old) _ _ (λ _. Keeps-pure _) (λ _. print_and_flush-OnValid _)

  room_or_none-OnValid : (r : Result Error (Room F)) → Keeps OnValid (room_or_none r)
  unfolding room_or_none
  room_or_none-OnValid (ok r) = Keeps-pure _
  room_or_none-OnValid (err no_rows) = Keeps-pure _
  room_or_none-OnValid (err driver) = Keeps-raise _
  room_or_none-OnValid panic = Keeps-panics

-- The other requests keep the tables valid.
abbrev pub AllKeep : {F : Type 0} → (ℕ → Tables F → Tables F) → Type 0
AllKeep others = (n : ℕ) (t : Tables _) → IsValid t → IsValid (others n t)

module _ {F : Type 0} (others : ℕ → Tables F → Tables F) (keep : AllKeep others) where
  visit-OnValid :
      {A : Type 0} (m : Db (Tables F) Error A) → Keeps IsValid m → Keeps OnValid (visit others m)
  unfolding visit
  visit-OnValid m k = record { at = λ w v. k.at _ (keep w.tables.turn w.tables.tables v) }

  send_strokes-OnValid :
      (ss : List (Stroke F)) (last : ℕ) → Keeps OnValid (send_strokes others ss last)
  unfolding send_strokes get_stroke_points
  send_strokes-OnValid [] last = Keeps-pure _
  send_strokes-OnValid (s ∷ ss) last =
      Keeps-bind _ _ (visit-OnValid _ (Keeps-query _ _))
        λ points. Keeps-bind _ _ (print_and_flush-OnValid _) λ _. send_strokes-OnValid ss s.row.id

  send_changes-OnValid :
      (r token : ℕ) (state : ℕ × ℕ) → Keeps OnValid (send_changes others r token state)
  unfolding send_changes get_strokes get_watcher_count
  send_changes-OnValid r token (last, count) = Keeps-bind _ _ (Keeps-sleep _) λ _.
      Keeps-bind _ _ (visit-OnValid _ (Keeps-query _ _)) λ strokes.
        Keeps-bind _ _ (send_strokes-OnValid strokes last) λ sent.
          Keeps-bind _ _ (visit-OnValid _ (update_room_watcher-IsValid r token)) λ _.
            Keeps-bind _ _ (visit-OnValid _ (Keeps-query _ _))
              λ new_count. Keeps-bind _ _ (report_count-OnValid count new_count) λ _. Keeps-pure _

  send_turns-OnValid :
      (n r token : ℕ) (state : ℕ × ℕ) → Keeps OnValid (send_turns others n r token state)
  unfolding send_turns
  send_turns-OnValid zero r token state = Keeps-pure _
  send_turns-OnValid (suc n) r token state =
      Keeps-bind _ _ (send_changes-OnValid r token state) λ next. send_turns-OnValid n r token next

  stream_room-OnValid :
      (l : Option (Option ℕ)) (t : TokenRow) (r : Room F) → Keeps OnValid (stream_room others l t r)
  unfolding stream_room get_watcher_count
  stream_room-OnValid l t r =
      Keeps-bind _ _ (visit-OnValid _ (update_room_watcher-IsValid r.row.id t.id)) λ _.
        Keeps-bind _ _ (visit-OnValid _ (Keeps-query _ _)) λ count.
          Keeps-bind _ _ (print_and_flush-OnValid _) λ _.
            Keeps-bind _ _ (last_stroke_id-OnValid l)
              λ last. send_turns-OnValid 6 r.row.id t.id (last, count)

  stream_found-OnValid :
      (l : Option (Option ℕ)) (t : TokenRow) (r : Option (Room F))
      → Keeps OnValid (stream_found others l t r)
  unfolding stream_found
  stream_found-OnValid l t none = print_and_flush-OnValid _
  stream_found-OnValid l t (some r) = stream_room-OnValid l t r

  stream_as-OnValid :
      (l : Option (Option ℕ)) (id : ℕ) (t : Option TokenRow)
      → Keeps OnValid (stream_as others l id t)
  unfolding stream_as visit_room
  stream_as-OnValid l id none = print_and_flush-OnValid _
  stream_as-OnValid l id (some t) =
      Keeps-bind _ _
        (Keeps-bind _ _ (Keeps-attempt _ (visit-OnValid _ (get_room-IsValid id)))
          room_or_none-OnValid)
        (stream_found-OnValid l t)

  open_stream-OnValid :
      (csrf : String) (id : ℕ) (l : Option (Option ℕ))
      → Keeps OnValid (open_stream others csrf id l)
  unfolding open_stream
  open_stream-OnValid csrf id l =
      Keeps-bind _ _ (visit-OnValid _ (check_token-IsValid csrf)) (stream_as-OnValid l id)

  ended-OnValid :
      (p : Result Error (Unit {0}) × World (Session F))
      → OnValid p.1.tables
      → OnValid (ended others p).tables
  ended-OnValid (ok r, w) v = v
  ended-OnValid (panic, w) v = v
  ended-OnValid (err e, w) v = v

  pub get_api_stream-OnValid :
      (csrf : String) (id : Option ℕ) (l : Option (Option ℕ)) (w : World (Session F))
      → OnValid w.tables
      → OnValid (get_api_stream_rooms_id others csrf id l w).tables
  unfolding get_api_stream_rooms_id
  get_api_stream-OnValid csrf none l w v = v
  get_api_stream-OnValid csrf (some id) l w v =
      ended-OnValid _ ((open_stream-OnValid csrf id l).at w v)
