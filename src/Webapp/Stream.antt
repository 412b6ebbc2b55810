-- ===== src/Webapp/Stream.antt =====
-- getAPIStreamRoomsID of webapp/go/app.go. Other requests run beside a stream, which lasts for three
-- seconds: `others n` is what they do to the tables before the stream's query number n. The writer
-- flushes, as net/http's does.
pub mod Sessions
pub mod Visits
pub mod Rising
use isucon6_final.Common.{
  ℕ, ◌+◌, zero, suc, Option, none, some, List, [], ◌∷◌, ◌++◌, String, ◌==◌, if◌then◌else◌,
}
use isucon6_final.Db.{
  World, Result, ok, err, panic, Db, pure, raise, panics, attempt, sleep, ◌>>=◌, ◌>>◌,
}
use isucon6_final.Webapp.Schema.{TokenRow, Tables, Stroke, Room, Error, driver, no_rows}
use isucon6_final.Webapp.Queries.{
  check_token, get_stroke_points, get_strokes, get_room, get_watcher_count, update_room_watcher,
}

-- What is written to the client, a call of `printAndFlush` or of `outputError` each. `first_count`
-- also sets the time after which a client tries again, `stroke_event` carries the stroke's id.
pub data Frame (F : Type 0) : Type 0 where
  bad_request_event : String → Frame F
  first_count : ℕ → Frame F
  watcher_event : ℕ → Frame F
  stroke_event : Stroke F → Frame F
  error_answer : Frame F

-- The shared tables, the queries that the stream has made, and what it has written, oldest first.
pub record Session (F : Type 0) : Type 0 where
  pub tables : Tables F
  pub turn : ℕ
  pub out : List (Frame F)

module _ {F : Type 0} where
  unfoldable pub print_and_flush : Frame F → Db (Session F) Error (Unit {0})
  print_and_flush f w =
      (ok tt, record w { tables = record w.tables { out = w.tables.out ++ f ∷ [] } })

  -- Last-Event-ID: absent, or a text that may not be a number.
  unfoldable pub last_stroke_id : Option (Option ℕ) → Db (Session F) Error ℕ
  last_stroke_id none = pure 0
  last_stroke_id (some none) = raise driver
  last_stroke_id (some (some n)) = pure n

  unfoldable pub report_count : ℕ → ℕ → Db (Session F) Error (Unit {0})
  report_count old new = if new == old then pure tt else print_and_flush (watcher_event new)

  unfoldable pub room_or_none : Result Error (Room F) → Db (Session F) Error (Option (Room F))
  room_or_none (ok r) = pure (some r)
  room_or_none (err no_rows) = pure none
  room_or_none (err driver) = raise driver
  room_or_none panic = panics

module _ {F : Type 0} (others : ℕ → Tables F → Tables F) where
  -- The tables that a query finds.
  abbrev pub meanwhile : World (Session F) → World (Tables F)
  meanwhile w = record {
    tables = others w.tables.turn w.tables.tables;
    now = w.now;
    faults = w.faults;
  }

  abbrev pub afterwards :
      {A : Type 0}
      → Session F
      → Result Error A × World (Tables F)
      → Result Error A × World (Session F)
  afterwards s (r, v) = (
    r,
    record {
      tables = record s { tables = v.tables; turn = s.turn + 1 };
      now = v.now;
      faults = v.faults;
    },
  )

  -- A call on the tables, after what the other requests did.
  unfoldable pub visit : {A : Type 0} → Db (Tables F) Error A → Db (Session F) Error A
  visit m w = afterwards w.tables (m (meanwhile w))

  unfoldable pub send_strokes : List (Stroke F) → ℕ → Db (Session F) Error ℕ
  send_strokes [] last = pure last
  send_strokes (s ∷ ss) last = do
    points ← visit (get_stroke_points s.row.id)
    print_and_flush (stroke_event (record s { points = points }))
    send_strokes ss s.row.id

  -- One turn of the loop, from the last stroke and the last count that were sent to the next ones.
  unfoldable pub send_changes : ℕ → ℕ → ℕ × ℕ → Db (Session F) Error (ℕ × ℕ)
  send_changes room token (last, count) = do
    sleep 500000
    strokes ← visit (get_strokes room last)
    sent ← send_strokes strokes last
    visit (update_room_watcher room token)
    new_count ← visit (get_watcher_count room)
    report_count count new_count
    pure (sent, new_count)

  unfoldable pub send_turns : ℕ → ℕ → ℕ → ℕ × ℕ → Db (Session F) Error (Unit {0})
  send_turns zero room token state = pure tt
  send_turns (suc loop) room token state = do
    next ← send_changes room token state
    send_turns loop room token next

  unfoldable pub stream_room :
      Option (Option ℕ) → TokenRow → Room F → Db (Session F) Error (Unit {0})
  stream_room last_event t room = do
    visit (update_room_watcher room.row.id t.id)
    count ← visit (get_watcher_count room.row.id)
    print_and_flush (first_count count)
    last ← last_stroke_id last_event
    send_turns 6 room.row.id t.id (last, count)

  unfoldable pub visit_room : ℕ → Db (Session F) Error (Option (Room F))
  unfolding room_or_none
  visit_room id = do found ← attempt (visit (get_room id)); room_or_none found

  unfoldable pub stream_found :
      Option (Option ℕ) → TokenRow → Option (Room F) → Db (Session F) Error (Unit {0})
  stream_found last_event t none = print_and_flush (bad_request_event "この部屋は存在しません")
  stream_found last_event t (some room) = stream_room last_event t room

  unfoldable pub stream_as :
      Option (Option ℕ) → ℕ → Option TokenRow → Db (Session F) Error (Unit {0})
  stream_as last_event id none = print_and_flush (bad_request_event "トークンエラー。ページを再読み込みしてください。")
  stream_as last_event id (some t) = do room ← visit_room id; stream_found last_event t room

  unfoldable pub open_stream : String → ℕ → Option (Option ℕ) → Db (Session F) Error (Unit {0})
  open_stream csrf id last_event = do
    found ← visit (check_token csrf)
    stream_as last_event id found

  abbrev pub ended : Result Error (Unit {0}) × World (Session F) → World (Session F)
  ended (ok r, w) = w
  ended (panic, w) = w
  ended (err e, w) = record w {
    tables = record w.tables { out = w.tables.out ++ error_answer ∷ [] };
  }

  -- The handler: every error that it meets ends it with `outputError`.
  unfoldable pub get_api_stream_rooms_id :
      String → Option ℕ → Option (Option ℕ) → World (Session F) → World (Session F)
  get_api_stream_rooms_id csrf none last_event w = w
  get_api_stream_rooms_id csrf (some id) last_event w = ended (open_stream csrf id last_event w)
