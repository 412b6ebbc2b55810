-- ===== src/Webapp/Strokes.antt =====
-- `postAPIStrokesRoomsID` of webapp/go/app.go.
pub mod Owner
pub mod Points
use isucon6_final.Common.{
  ℕ, ◌+◌, Bool, ◌&&◌, ◌||◌, Option, none, some, List, [], ◌∷◌, ◌++◌, String, ◌==◌, if◌then◌else◌,
  length, ltb,
}
use isucon6_final.Sql.{where_rows, count_rows, first_row}
use isucon6_final.Db.{
  Db, pure, raise, panics, query, in_tx, must_in_tx, must_begin, commit, attempt, ◌>>=◌, ◌>>◌,
}
use isucon6_final.Webapp.Schema.{
  Columns, TokenRow, StrokeRow, OwnerRow, Tables, Room, Error, driver, PostedStroke, PostedPoint,
  stroke_body, Response,
}
use isucon6_final.Webapp.Queries.{
  check_token, get_strokes, get_stroke_points, get_room, output_error_msg, or_no_rows,
}
use isucon6_final.Webapp.Rooms.{if_found, token_error, bad_request, room_missing}

abbrev pub is_owner : ℕ → ℕ → OwnerRow → Bool
is_owner room token o = o.room_id == room && o.token_id == token

module _ {F : Type 0} where
  abbrev pub not_owner : Response F
  not_owner = output_error_msg 400 "他人の作成した部屋に1画目を描くことはできません"

  abbrev pub is_bad_stroke : PostedStroke F → Bool
  is_bad_stroke p = p.width == 0 || length p.points == 0

  -- What fits the TINYINT UNSIGNED columns of a stroke; the database refuses any other row.
  abbrev pub is_storable : PostedStroke F → Bool
  is_storable p = (ltb p.width 256 && ltb p.red 256) && (ltb p.green 256 && ltb p.blue 256)

module _ {F : Type 0} (column : Columns F) where
  -- INSERT INTO strokes
  unfoldable pub insert_stroke : ℕ → PostedStroke F → ℕ → Tables F → Tables F
  insert_stroke room p now t = record t {
    strokes =
        t.strokes
        ++ record {
          id = t.next_stroke;
          room_id = room;
          width = p.width;
          red = p.red;
          green = p.green;
          blue = p.blue;
          alpha = column.alpha p.alpha;
          created_at = now;
        }
          ∷ [];
    next_stroke = t.next_stroke + 1;
  }

  -- INSERT INTO points
  unfoldable pub must_insert_stroke : ℕ → PostedStroke F → Tables F → Db (Tables F) Error (Tables F)
  must_insert_stroke room p tx = do
    tx' ← must_in_tx (λ now. insert_stroke room p now tx)
    if is_storable p then pure tx' else panics

  unfoldable pub insert_point : ℕ → PostedPoint F → Tables F → Tables F
  insert_point stroke p t = record t {
    points =
        t.points
        ++ record {
          id = t.next_point;
          stroke_id = stroke;
          x = column.coordinate p.x;
          y = column.coordinate p.y;
        }
          ∷ [];
    next_point = t.next_point + 1;
  }

  -- The loop of INSERTs.
  unfoldable pub insert_points :
      ℕ → List (PostedPoint F) → Tables F → Db (Tables F) Error (Tables F)
  insert_points stroke [] tx = pure tx
  insert_points stroke (p ∷ ps) tx = do
    tx' ← must_in_tx (λ _. insert_point stroke p tx)
    insert_points stroke ps tx'

  unfoldable pub create_stroke : ℕ → PostedStroke F → Db (Tables F) Error ℕ
  create_stroke room p = do
    tx ← must_begin
    tx' ← must_insert_stroke room p tx
    id ← in_tx driver (λ _. tx.next_stroke)
    tx'' ← insert_points id p.points tx'
    commit driver tx''
    pure id

  -- From the transaction to the answer.
  unfoldable pub draw : ℕ → PostedStroke F → Db (Tables F) Error (Response F)
  draw room p = do
    id ← create_stroke room p
    found ← query driver (λ t _. first_row (where_rows (λ (s : StrokeRow F). s.id == id) t.strokes))
    row ← or_no_rows found
    ps ← get_stroke_points id
    pure (record { status = 200; body = stroke_body (record { row = row; points = ps }) })

  -- The first stroke of a room is its owner's.
  unfoldable pub draw_first : TokenRow → ℕ → PostedStroke F → Db (Tables F) Error (Response F)
  draw_first t room p = do
    cnt ← query driver (λ tables _. count_rows (is_owner room t.id) tables.room_owners)
    if cnt == 0 then pure not_owner else draw room p

  unfoldable pub draw_in :
      TokenRow → Option (PostedStroke F) → Room F → Db (Tables F) Error (Response F)
  draw_in t none r = raise driver
  draw_in t (some p) r = if is_bad_stroke p then pure bad_request else do
    strokes ← get_strokes r.row.id 0
    if length strokes == 0 then draw_first t r.row.id p else draw r.row.id p

  unfoldable pub post_stroke_as :
      TokenRow → Option ℕ → Option (PostedStroke F) → Db (Tables F) Error (Response F)
  post_stroke_as t none body = pure room_missing
  post_stroke_as t (some id) body = do
    found ← attempt (get_room id)
    if_found room_missing (draw_in t body) found

  unfoldable pub post_stroke_with :
      Option ℕ → Option (PostedStroke F) → Option TokenRow → Db (Tables F) Error (Response F)
  post_stroke_with id body none = pure token_error
  post_stroke_with id body (some k) = post_stroke_as k id body

  unfoldable pub post_api_strokes_rooms_id :
      String → Option ℕ → Option (PostedStroke F) → Db (Tables F) Error (Response F)
  post_api_strokes_rooms_id csrf id body = do t ← check_token csrf; post_stroke_with id body t
