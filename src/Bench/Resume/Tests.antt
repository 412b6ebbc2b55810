-- ===== src/Bench/Resume/Tests.antt =====
-- A room watched over three connections, and the theorem on it. A number's text is one byte here,
-- and coordinates are numbers.
use isucon6_final.Common.{
  ℕ, ◌+◌, ◌-◌, ◌≡◌, refl, ap, Bool, true, false, Option, none, some, List, [], ◌∷◌, suc, take,
  String, arith, All,
}
use isucon6_final.Sql.{count_rows, where_rows, order_by, first_row, insert_row, update_rows}
use isucon6_final.Sql.Sorted.{Rising}
use isucon6_final.Db.{◌>>=◌}
use isucon6_final.Webapp.Schema.{StrokeRow, Tables, Stroke}
use isucon6_final.Webapp.Queries.{
  strokes_after, check_token, get_room, or_no_rows, get_strokes, get_stroke_points, stroke_points,
  update_room_watcher, upsert_watcher, get_watcher_count,
}
use isucon6_final.Webapp.Stream.{
  open_stream, visit, stream_as, visit_room, room_or_none, stream_found, stream_room,
  print_and_flush, last_stroke_id, send_turns, send_changes, send_strokes, report_count,
  get_api_stream_rooms_id, Frame,
}
use isucon6_final.Webapp.Stream.Sessions.{sent_ids}
use isucon6_final.Bench.Sse.{Bytes, read_lines, read_line, blank_line}
use isucon6_final.Bench.Sse.Client.{new_event_source, open_loop, handle_answer}
use isucon6_final.Bench.Sse.Frames.{IsPlain, stream_lines, frame_lines, heard_all}
use isucon6_final.Bench.Resume.{Turn, IsSound, exchanges}
use isucon6_final.Bench.Resume.Once.{strokes_heard_once}

abbrev number : ℕ → Bytes
number n = (48 + n) ∷ []

abbrev parse_int : Bytes → Option ℕ
parse_int [] = none
parse_int (c ∷ []) = some (c - 48)
parse_int (c ∷ d ∷ cs) = none

abbrev json : Stroke ℕ → Bytes
json s = b'{' ∷ (48 + s.row.id) ∷ b'}' ∷ []

abbrev utf8 : String → Bytes
utf8 m = b'm' ∷ []

abbrev accepts : Bytes → ℕ × Bool
accepts v = (500, false)

number-IsPlain : (n : ℕ) → IsPlain (number n)
number-IsPlain n = ground arith

parse_int-number : (n : ℕ) → parse_int (number n) ≡ some n
parse_int-number n = ap some (omega arith)

abbrev stroke : ℕ → StrokeRow ℕ
stroke id = record {
  id = id;
  room_id = 7;
  width = 2;
  red = 0;
  green = 0;
  blue = 0;
  alpha = 1;
  created_at = 6;
}

abbrev room_with : List (StrokeRow ℕ) → Tables ℕ
room_with strokes = record {
  tokens = record { id = 1; csrf_token = "alice"; created_at = 0 } ∷ [];
  next_token = 2;
  rooms =
      record { id = 7; name = "hall"; canvas_width = 9; canvas_height = 9; created_at = 0 } ∷ [];
  next_room = 8;
  strokes = strokes;
  next_stroke = 9;
  points = [];
  next_point = 1;
  room_owners = [];
  room_watchers = [];
}

abbrev turn : Bool → List (StrokeRow ℕ) → Bool → Turn ℕ
turn reached strokes closes = record {
  reached = reached;
  tables = room_with strokes;
  others = λ n t. t;
  now = 5;
  faults = [];
  delivers = λ ls. (ls, false);
  closes = closes;
}

abbrev turns : List (Turn ℕ)
turns =
    turn true (stroke 4 ∷ []) false
    ∷ turn false [] false
    ∷ turn true (stroke 4 ∷ stroke 5 ∷ []) true
    ∷ []

all_taken : (ls : List Bytes) → (n : ℕ) × (ls ≡ take n ls)
all_taken [] = (0, refl)
all_taken (l ∷ ls) = let (n, e) = all_taken ls in (suc n, ap (λ ms. l ∷ ms) e)

one-IsSound : (id : ℕ) (reached closes : Bool) → IsSound (turn reached (stroke id ∷ []) closes)
unfolding count_rows
one-IsSound id reached closes = record {
  unique = λ k. ground arith;
  stays_unique = λ n u h. h;
  in_order = all_taken;
}

turns-IsSound : All IsSound turns
unfolding count_rows
turns-IsSound = (
  one-IsSound 4 true false,
  (
    record { unique = λ k. omega arith; stays_unique = λ n u h. h; in_order = all_taken },
    (record { unique = λ k. ground arith; stays_unique = λ n u h. h; in_order = all_taken }, tt),
  ),
)

headers :
    (open_loop accepts
      (exchanges parse_int "alice" 7 number json utf8 accepts turns new_event_source)
      new_event_source).requested
    ≡ none ∷ some (number 4) ∷ some (number 4) ∷ []
unfolding open_loop exchanges handle_answer stream_lines frame_lines read_lines read_line blank_line
    get_api_stream_rooms_id open_stream visit check_token stream_as visit_room get_room or_no_rows
    room_or_none stream_found stream_room update_room_watcher get_watcher_count print_and_flush
    last_stroke_id send_turns send_changes get_strokes strokes_after send_strokes get_stroke_points
    stroke_points upsert_watcher report_count ◌>>=◌ first_row where_rows order_by insert_row
    count_rows update_rows
headers = refl

strokes_heard_once_example :
    (fs : List (Frame ℕ)) × ((open_loop accepts
        (exchanges parse_int "alice" 7 number json utf8 accepts turns new_event_source)
        new_event_source).source.emitted
      ≡ (heard_all number json utf8 fs new_event_source.source).emitted)
    × ((hi : ℕ) × Rising 0 (sent_ids fs) hi)
strokes_heard_once_example =
    strokes_heard_once parse_int number json utf8 accepts number-IsPlain (λ s. refl) (λ m. refl)
      refl parse_int-number "alice" 7 turns new_event_source refl turns-IsSound
