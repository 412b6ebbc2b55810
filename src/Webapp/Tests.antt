-- ===== src/Webapp/Tests.antt =====
-- Runs of the application's handlers, and the theorems on them at concrete inputs. Coordinates are
-- numbers here.
use isucon6_final.Common.{
  ◌==◌, if◌then◌else◌, Bool-cases, inl, inr, arith, ℕ, ◌≡◌, refl, true, some, [], ◌∷◌, All, str_eq,
}
use isucon6_final.Sql.{count_rows, where_rows, order_by, first_row, insert_row, update_rows}
use isucon6_final.Db.{World, ◌>>=◌}
use isucon6_final.Db.Keeps.{Keeps}
use isucon6_final.Webapp.Schema.{
  Columns, TokenRow, RoomRow, OwnerRow, Tables, PostedRoom, PostedPoint, PostedStroke, StrokeRow,
}
use isucon6_final.Webapp.Queries.{
  strokes_after, check_token, get_room, or_no_rows, get_strokes, get_stroke_points, stroke_points,
  update_room_watcher, upsert_watcher, get_watcher_count,
}
use isucon6_final.Webapp.Strokes.{post_api_strokes_rooms_id, is_owner}
use isucon6_final.Webapp.Strokes.Owner.{first_stroke_refused}
use isucon6_final.Webapp.Stream.{
  Session, open_stream, visit, stream_as, visit_room, room_or_none, stream_found, stream_room,
  print_and_flush, last_stroke_id, send_turns, send_changes, send_strokes, report_count,
  get_api_stream_rooms_id,
}
use isucon6_final.Webapp.Stream.Sessions.{sent_ids, UniqueIds}
use isucon6_final.Webapp.Stream.Rising.{get_api_stream-Rising}
use isucon6_final.Sql.Sorted.{Rising}

abbrev exact : Columns ℕ
exact = record { coordinate = λ x. x; alpha = λ x. x }

abbrev alice : TokenRow
alice = record { id = 1; csrf_token = "alice"; created_at = 0 }

abbrev bob : TokenRow
bob = record { id = 2; csrf_token = "bob"; created_at = 0 }

abbrev hall : RoomRow
hall = record { id = 7; name = "hall"; canvas_width = 100; canvas_height = 100; created_at = 0 }

abbrev of_alice : OwnerRow
of_alice = record { room_id = 7; token_id = 1 }

abbrev one_room : Tables ℕ
one_room = record {
  tokens = alice ∷ bob ∷ [];
  next_token = 3;
  rooms = hall ∷ [];
  next_room = 8;
  strokes = [];
  next_stroke = 1;
  points = [];
  next_point = 1;
  room_owners = of_alice ∷ [];
  room_watchers = [];
}

abbrev point : PostedPoint ℕ
point = record { x = 3; y = 4 }

abbrev line : PostedStroke ℕ
line = record { width = 2; red = 0; green = 0; blue = 0; alpha = 1; points = point ∷ point ∷ [] }

abbrev garden : PostedRoom
garden = record { name = "garden"; canvas_width = 10; canvas_height = 20 }

blank : strokes_after 7 0 one_room ≡ []
unfolding strokes_after where_rows order_by
blank = refl

bob_owns_nothing :
    All
      (λ k.
        str_eq k.csrf_token "bob" ≡ true → count_rows (is_owner 7 k.id) one_room.room_owners ≡ 0)
      one_room.tokens
unfolding count_rows
bob_owns_nothing = ((λ e. cc), ((λ e. refl), tt))

first_stroke_refused_example :
    Keeps (λ u. u ≡ one_room) (post_api_strokes_rooms_id exact "bob" (some 7) (some line))
first_stroke_refused_example =
    first_stroke_refused exact one_room "bob" 7 (some line) blank bob_owns_nothing

abbrev session : World (Session ℕ)
session = record { tables = record { tables = one_room; turn = 0; out = [] }; now = 5; faults = [] }

-- Beside the stream another request draws one stroke.
abbrev first_line : StrokeRow ℕ
first_line = record {
  id = 4;
  room_id = 7;
  width = 2;
  red = 0;
  green = 0;
  blue = 0;
  alpha = 1;
  created_at = 6;
}

abbrev drawing : ℕ → Tables ℕ → Tables ℕ
drawing n t = if n == 6 then record t { strokes = first_line ∷ [] } else t

drawing-UniqueIds : (n : ℕ) (t : Tables ℕ) → UniqueIds t → UniqueIds (drawing n t)
unfolding count_rows
drawing-UniqueIds n t u = elim (Bool-cases (n == 6)) [
  | inl e ↦ rw e (λ k. ground arith)
  | inr e ↦ rw e u
]

stroke_sent :
    sent_ids (get_api_stream_rooms_id drawing "bob" (some 7) (some (some 3)) session).tables.out
    ≡ 4 ∷ []
unfolding get_api_stream_rooms_id open_stream visit check_token stream_as visit_room get_room
    or_no_rows room_or_none stream_found stream_room update_room_watcher get_watcher_count
    print_and_flush last_stroke_id send_turns send_changes get_strokes strokes_after send_strokes
    get_stroke_points stroke_points upsert_watcher report_count ◌>>=◌ first_row where_rows order_by
    insert_row count_rows update_rows
stroke_sent = refl

get_api_stream-Rising_example :
    (hi : ℕ) × Rising 3
      (sent_ids (get_api_stream_rooms_id drawing "bob" (some 7) (some (some 3)) session).tables.out)
      hi
unfolding count_rows
get_api_stream-Rising_example =
    get_api_stream-Rising drawing drawing-UniqueIds "bob" (some 7) (some (some 3)) session
      (λ k. omega arith) refl
