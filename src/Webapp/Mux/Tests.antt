-- ===== src/Webapp/Mux/Tests.antt =====
-- Requests to the application, one after another. Coordinates are numbers here.
use isucon6_final.Common.{ℕ, none, some, List, [], ◌∷◌}
use isucon6_final.Webapp.Schema.{Columns, Tables, PostedStroke}
use isucon6_final.Webapp.Integrity.{IsValid}
use isucon6_final.Webapp.Integrity.Drawing.{post_api_strokes-IsValid}
use isucon6_final.Webapp.Strokes.{post_api_strokes_rooms_id}
use isucon6_final.Webapp.Mux.{
  AppRequest, csrf_token, rooms, new_room, room, stream, new_stroke, app_serve_all,
}
use isucon6_final.Webapp.Mux.Valid.{app_serve_all-IsValid}

abbrev exact : Columns ℕ
exact = record { coordinate = λ x. x; alpha = λ x. x }

abbrev empty : Tables ℕ
empty = record {
  tokens = [];
  next_token = 1;
  rooms = [];
  next_room = 1;
  strokes = [];
  next_stroke = 1;
  points = [];
  next_point = 1;
  room_owners = [];
  room_watchers = [];
}

empty-IsValid : IsValid empty
empty-IsValid = record {
  room_fresh = tt;
  rooms_usable = tt;
  rooms_owned = tt;
  stroke_fresh = tt;
  strokes_wide = tt;
  strokes_drawn = tt;
  point_fresh = tt;
  points_used = tt;
}

abbrev line : PostedStroke ℕ
line = record {
  width = 3;
  red = 1;
  green = 2;
  blue = 3;
  alpha = 1;
  points = record { x = 3; y = 4 } ∷ record { x = 5; y = 6 } ∷ [];
}

-- Another request draws a stroke before every query of the stream.
abbrev draws : ℕ → Tables ℕ → Tables ℕ
draws n t =
    let (r, u) =
      post_api_strokes_rooms_id exact "alice" (some 1) (some line)
        (record { tables = t; now = n; faults = [] }) in
    u.tables

draws-IsValid : (n : ℕ) (t : Tables ℕ) → IsValid t → IsValid (draws n t)
draws-IsValid n t v = (post_api_strokes-IsValid exact "alice" (some 1) (some line)).at _ v

abbrev day : List (AppRequest ℕ)
day =
    csrf_token "alice"
    ∷ new_room "alice" (some (record { name = "hall"; canvas_width = 8; canvas_height = 8 }))
    ∷ new_stroke "alice" (some 1) (some line)
    ∷ stream draws "alice" (some 1) none
    ∷ rooms
    ∷ room (some 1)
    ∷ []

app_serve_all-IsValid_example :
    IsValid (app_serve_all exact day (record { tables = empty; now = 0; faults = [] })).tables
app_serve_all-IsValid_example =
    app_serve_all-IsValid exact day (record { tables = empty; now = 0; faults = [] })
      (tt, (tt, (tt, (draws-IsValid, (tt, (tt, tt)))))) empty-IsValid
