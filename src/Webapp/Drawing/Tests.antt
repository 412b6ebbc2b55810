-- ===== src/Webapp/Drawing/Tests.antt =====
-- A stroke that is posted to a room with one stroke.
use isucon6_final.Common.{ℕ, ◌≡◌, ◌≢◌, ◌⊎◌, refl, some, [], ◌∷◌, arith}
use isucon6_final.Sql.{count_rows, where_rows, order_by, first_row, insert_row}
use isucon6_final.Db.{World, ◌>>=◌}
use isucon6_final.Db.Triple.{Triple}
use isucon6_final.Webapp.Schema.{
  Columns, TokenRow, RoomRow, OwnerRow, StrokeRow, PointRow, Tables, Stroke, PostedStroke,
  stroke_body,
}
use isucon6_final.Webapp.Queries.{
  check_token, get_room, or_no_rows, get_strokes, get_stroke_points, stroke_points, strokes_after,
}
use isucon6_final.Webapp.Rooms.{if_found}
use isucon6_final.Webapp.Strokes.{
  post_api_strokes_rooms_id, post_stroke_with, post_stroke_as, draw_in, draw, create_stroke,
  must_insert_stroke, insert_stroke, insert_points, insert_point,
}
use isucon6_final.Webapp.Integrity.{IsValid}
use isucon6_final.Webapp.Drawing.{drawing, new_stroke}
use isucon6_final.Webapp.Drawing.Posting.{Shows, post_api_strokes-shown}

abbrev exact : Columns ℕ
exact = record { coordinate = λ x. x; alpha = λ x. x }

abbrev alice : TokenRow
alice = record { id = 1; csrf_token = "alice"; created_at = 0 }

abbrev hall : RoomRow
hall = record { id = 7; name = "hall"; canvas_width = 100; canvas_height = 100; created_at = 0 }

abbrev of_alice : OwnerRow
of_alice = record { room_id = 7; token_id = 1 }

abbrev first_row_drawn : StrokeRow ℕ
first_row_drawn = record {
  id = 1;
  room_id = 7;
  width = 3;
  red = 0;
  green = 0;
  blue = 0;
  alpha = 1;
  created_at = 2;
}

abbrev first_point : PointRow ℕ
first_point = record { id = 1; stroke_id = 1; x = 8; y = 9 }

abbrev tables : Tables ℕ
tables = record {
  tokens = alice ∷ [];
  next_token = 2;
  rooms = hall ∷ [];
  next_room = 8;
  strokes = first_row_drawn ∷ [];
  next_stroke = 2;
  points = first_point ∷ [];
  next_point = 2;
  room_owners = of_alice ∷ [];
  room_watchers = [];
}

tables-IsValid : IsValid tables
unfolding count_rows
tables-IsValid = record {
  room_fresh = (omega arith, tt);
  rooms_usable = (refl, tt);
  rooms_owned = (omega arith, tt);
  stroke_fresh = (omega arith, tt);
  strokes_wide = (omega arith, tt);
  strokes_drawn = (omega arith, tt);
  point_fresh = (omega arith, tt);
  points_used = (omega arith, tt);
}

abbrev line : PostedStroke ℕ
line = record {
  width = 2;
  red = 0;
  green = 0;
  blue = 0;
  alpha = 1;
  points = record { x = 3; y = 4 } ∷ record { x = 5; y = 6 } ∷ [];
}

abbrev world : World (Tables ℕ)
world = record { tables = tables; now = 5; faults = [] }

-- The room shows two strokes then.
shown :
    drawing 7 (post_api_strokes_rooms_id exact "alice" (some 7) (some line) world).1.tables
    ≡ record { row = first_row_drawn; points = first_point ∷ [] }
      ∷ new_stroke exact 7 line 5 tables
      ∷ []
unfolding post_api_strokes_rooms_id post_stroke_with post_stroke_as draw_in draw create_stroke
    must_insert_stroke insert_stroke insert_points insert_point if_found check_token get_room
    or_no_rows get_strokes get_stroke_points stroke_points strokes_after where_rows order_by
    first_row insert_row ◌>>=◌
shown = refl

post_api_strokes-shown_example :
    Triple
      (λ u. u ≡ tables)
      (λ reply u.
        ((u ≡ tables) × ((s : Stroke ℕ) → reply.body ≢ stroke_body s))
        ⊎ ((now : ℕ) × (reply.body ≡ stroke_body (new_stroke exact 7 line now tables))
            × Shows exact tables 7 (new_stroke exact 7 line now tables) u))
      (λ u.
        (u ≡ tables) ⊎ ((now : ℕ) × Shows exact tables 7 (new_stroke exact 7 line now tables) u))
      (post_api_strokes_rooms_id exact "alice" (some 7) (some line))
post_api_strokes-shown_example =
    post_api_strokes-shown exact tables tables-IsValid (omega arith) "alice" 7 line
