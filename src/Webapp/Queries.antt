-- ===== src/Webapp/Queries.antt =====
-- The queries of webapp/go/app.go that its handlers share.
use isucon6_final.Common.{
  ℕ, ◌+◌, ◌*◌, Bool, ◌&&◌, Option, none, some, List, [], ◌∷◌, ◌++◌, map, String, ltb, leb, ◌==◌,
  str_eq, if◌then◌else◌,
}
use isucon6_final.Sql.{where_rows, count_rows, update_rows, first_row, order_by}
use isucon6_final.Db.{Db, Result, ok, err, panic, pure, raise, exec, query, ◌>>=◌}
use isucon6_final.Webapp.Schema.{
  TokenRow, RoomRow, StrokeRow, PointRow, WatcherRow, Tables, Stroke, Room, Error, driver, no_rows,
  error_body, Response,
}

abbrev pub day : ℕ
day = 86400 * 1000000

abbrev pub second : ℕ
second = 1000000

-- created_at > CURRENT_TIMESTAMP(6) - INTERVAL 1 DAY
abbrev pub is_token : String → ℕ → TokenRow → Bool
is_token csrf now t = str_eq t.csrf_token csrf && ltb now (t.created_at + day)

-- updated_at > CURRENT_TIMESTAMP(6) - INTERVAL 3 SECOND
abbrev pub is_watching : ℕ → ℕ → WatcherRow → Bool
is_watching room now r = r.room_id == room && ltb now (r.updated_at + 3 * second)

-- The unique key (room_id, token_id).
abbrev pub is_watcher : ℕ → ℕ → WatcherRow → Bool
is_watcher room token r = r.room_id == room && r.token_id == token

-- INSERT … ON DUPLICATE KEY UPDATE updated_at = CURRENT_TIMESTAMP(6)
unfoldable pub upsert_watcher : ℕ → ℕ → ℕ → List WatcherRow → List WatcherRow
upsert_watcher room token now rows =
    if count_rows (is_watcher room token) rows == 0
    then rows
      ++ record { room_id = room; token_id = token; created_at = now; updated_at = now } ∷ []
    else update_rows (is_watcher room token) (λ r. record r { updated_at = now }) rows

module _ {F : Type 0} where
  unfoldable pub check_token : String → Db (Tables F) Error (Option TokenRow)
  check_token csrf =
      if str_eq csrf ""
      then pure none
      else query driver (λ t now. first_row (where_rows (is_token csrf now) t.tokens))

  abbrev pub of_stroke : ℕ → PointRow F → Bool
  of_stroke stroke p = p.stroke_id == stroke

  -- The rows of a stroke's points, in the order of their ids.
  unfoldable pub stroke_points : ℕ → Tables F → List (PointRow F)
  stroke_points stroke t = order_by (λ p q. leb p.id q.id) (where_rows (of_stroke stroke) t.points)

  unfoldable pub get_stroke_points : ℕ → Db (Tables F) Error (List (PointRow F))
  get_stroke_points stroke = query driver (λ t _. stroke_points stroke t)

  abbrev pub in_room_after : ℕ → ℕ → StrokeRow F → Bool
  in_room_after room last s = s.room_id == room && ltb last s.id

  abbrev pub by_id : StrokeRow F → StrokeRow F → Bool
  by_id s u = leb s.id u.id

  abbrev pub without_points : StrokeRow F → Stroke F
  without_points s = record { row = s; points = [] }

  -- The rows of a room's strokes after a stroke id, in the order of their ids.
  unfoldable pub strokes_after : ℕ → ℕ → Tables F → List (StrokeRow F)
  strokes_after room last t = order_by by_id (where_rows (in_room_after room last) t.strokes)

  unfoldable pub get_strokes : ℕ → ℕ → Db (Tables F) Error (List (Stroke F))
  get_strokes room last = query driver (λ t _. map without_points (strokes_after room last t))

  abbrev pub new_room : RoomRow → Room F
  new_room r = record { row = r; strokes = []; stroke_count = 0; watcher_count = 0 }

  unfoldable pub or_no_rows : {A : Type 0} → Option A → Db (Tables F) Error A
  or_no_rows none = raise no_rows
  or_no_rows (some a) = pure a

  unfoldable pub get_room : ℕ → Db (Tables F) Error (Room F)
  unfolding or_no_rows
  get_room room = do
    found ← query driver (λ t _. first_row (where_rows (λ (r : RoomRow). r.id == room) t.rooms))
    row ← or_no_rows found
    pure (new_room row)

  unfoldable pub get_watcher_count : ℕ → Db (Tables F) Error ℕ
  get_watcher_count room = query driver (λ t now. count_rows (is_watching room now) t.room_watchers)

  unfoldable pub update_room_watcher : ℕ → ℕ → Db (Tables F) Error (Unit {0})
  update_room_watcher room token =
      exec driver
        (λ t now. (tt, record t { room_watchers = upsert_watcher room token now t.room_watchers }))

  abbrev pub output_error_msg : ℕ → String → Response F
  output_error_msg status msg = record { status = status; body = error_body msg }

  abbrev pub output_error : Response F
  output_error = output_error_msg 500 "InternalServerError"

  -- What a handler has written when it returns: its answer, or that of `outputError`, which each of
  -- its error returns calls. `none` is a panic.
  abbrev pub written : Result Error (Response F) → Option (Response F)
  written (ok r) = some r
  written (err e) = some output_error
  written panic = none
