-- ===== src/Webapp/Rooms.antt =====
-- The handlers of webapp/go/app.go for tokens and rooms. A handler's arguments are what it reads of
-- the request: a header, the id of the path (`none` where ParseInt fails), and the decoded body
-- (`none` where reading or decoding it fails).
use isucon6_final.Common.{
  ℕ, ◌+◌, Bool, ◌||◌, Option, none, some, List, [], ◌∷◌, ◌++◌, String, ltb, leb, ◌==◌, str_eq,
  if◌then◌else◌, length, take,
}
use isucon6_final.Sql.{where_rows, first_row, order_by}
use isucon6_final.Db.{
  Db, Result, ok, err, panic, pure, raise, panics, exec, query, in_tx, must_in_tx, must_begin,
  commit, attempt, ◌>>=◌, ◌>>◌,
}
use isucon6_final.Webapp.Schema.{
  TokenRow, StrokeRow, Tables, Stroke, Room, Error, driver, no_rows, PostedRoom, token_body,
  rooms_body, room_body, Response,
}
use isucon6_final.Webapp.Queries.{
  check_token, get_strokes, get_stroke_points, get_room, get_watcher_count, output_error_msg,
  or_no_rows,
}

-- SELECT room_id, MAX(id) AS max_id FROM strokes GROUP BY room_id
abbrev raise_max : ℕ → ℕ → List (ℕ × ℕ) → List (ℕ × ℕ)
raise_max room id [] = (room, id) ∷ []
raise_max room id ((r, m) ∷ groups) =
    if r == room
    then (r, if ltb m id then id else m) ∷ groups
    else (r, m) ∷ raise_max room id groups

abbrev pub is_bad_room : PostedRoom → Bool
is_bad_room p = str_eq p.name "" || p.canvas_width == 0 || p.canvas_height == 0

module _ {F : Type 0} where
  unfoldable pub group_max : List (StrokeRow F) → List (ℕ × ℕ)
  group_max [] = []
  group_max (s ∷ strokes) = raise_max s.room_id s.id (group_max strokes)

  -- … ORDER BY max_id DESC LIMIT 100
  unfoldable pub latest_rooms : List (StrokeRow F) → List (ℕ × ℕ)
  unfolding group_max
  latest_rooms strokes = take 100 (order_by (λ g h. leb h.1 g.1) (group_max strokes))

  -- The token is SHA2 of random input, which the database makes.
  unfoldable pub post_api_csrf_token : String → Db (Tables F) Error (Response F)
  post_api_csrf_token fresh = do
    id ← exec driver (λ t now. (
      t.next_token,
      record t {
        tokens =
            t.tokens ++ record { id = t.next_token; csrf_token = fresh; created_at = now } ∷ [];
        next_token = t.next_token + 1;
      },
    ))
    id' ← query driver (λ _ _. id)
    found ← query driver (λ t _. first_row (where_rows (λ (k : TokenRow). k.id == id') t.tokens))
    t ← or_no_rows found
    pure (record { status = 200; body = token_body t.csrf_token })

  -- The loop over the query's rows.
  unfoldable pub load_rooms : List (ℕ × ℕ) → Db (Tables F) Error (List (Room F))
  load_rooms [] = pure []
  load_rooms ((id, _) ∷ results) = do
    r ← get_room id
    s ← get_strokes r.row.id 0
    rest ← load_rooms results
    pure (record r { stroke_count = length s } ∷ rest)

  unfoldable pub get_api_rooms : Db (Tables F) Error (Response F)
  get_api_rooms = do
    results ← query driver (λ t _. latest_rooms t.strokes)
    loaded ← load_rooms results
    pure (record { status = 200; body = rooms_body loaded })

  abbrev pub token_error : Response F
  token_error = output_error_msg 400 "トークンエラー。ページを再読み込みしてください。"

  abbrev pub bad_request : Response F
  bad_request = output_error_msg 400 "リクエストが正しくありません。"

  abbrev pub room_missing : Response F
  room_missing = output_error_msg 404 "この部屋は存在しません。"

  -- INSERT INTO rooms
  unfoldable pub insert_room : PostedRoom → ℕ → Tables F → Tables F
  insert_room p now t = record t {
    rooms =
        t.rooms
        ++ record {
          id = t.next_room;
          name = p.name;
          canvas_width = p.canvas_width;
          canvas_height = p.canvas_height;
          created_at = now;
        }
          ∷ [];
    next_room = t.next_room + 1;
  }

  -- INSERT INTO room_owners
  unfoldable pub insert_owner : ℕ → ℕ → Tables F → Tables F
  insert_owner room_id token_id t = record t {
    room_owners = t.room_owners ++ record { room_id = room_id; token_id = token_id } ∷ [];
  }

  -- The transaction: an error of LastInsertId returns with no rollback, a panic of MustExec goes up.
  unfoldable pub create_room : PostedRoom → TokenRow → Db (Tables F) Error ℕ
  create_room p t = do
    tx ← must_begin
    tx' ← must_in_tx (λ now. insert_room p now tx)
    id ← in_tx driver (λ _. tx.next_room)
    tx'' ← must_in_tx (λ _. insert_owner id t.id tx')
    commit driver tx''
    pure id

  unfoldable pub post_room_as : TokenRow → Option PostedRoom → Db (Tables F) Error (Response F)
  post_room_as t none = raise driver
  post_room_as t (some p) = if is_bad_room p then pure bad_request else do
    id ← create_room p t
    r ← get_room id
    pure (record { status = 200; body = room_body r })

  unfoldable pub post_room_with :
      Option PostedRoom → Option TokenRow → Db (Tables F) Error (Response F)
  post_room_with body none = pure token_error
  post_room_with body (some k) = post_room_as k body

  unfoldable pub post_api_rooms : String → Option PostedRoom → Db (Tables F) Error (Response F)
  post_api_rooms csrf body = do t ← check_token csrf; post_room_with body t

  -- `if err == sql.ErrNoRows { outputErrorMsg(…) } else { outputError(…) }`, or go on.
  unfoldable pub if_found :
      {A : Type 0}
      → Response F
      → (A → Db (Tables F) Error (Response F))
      → Result Error A
      → Db (Tables F) Error (Response F)
  if_found missing k (ok a) = k a
  if_found missing k (err no_rows) = pure missing
  if_found missing k (err driver) = raise driver
  if_found missing k panic = panics

  -- The loop that fills in the points.
  unfoldable pub load_points : List (Stroke F) → Db (Tables F) Error (List (Stroke F))
  load_points [] = pure []
  load_points (s ∷ strokes) = do
    p ← get_stroke_points s.row.id
    rest ← load_points strokes
    pure (record s { points = p } ∷ rest)

  unfoldable pub show_room : Room F → Db (Tables F) Error (Response F)
  show_room r = do
    strokes ← get_strokes r.row.id 0
    filled ← load_points strokes
    n ← get_watcher_count r.row.id
    pure (record {
      status = 200;
      body = room_body (record r { strokes = filled; watcher_count = n });
    })

  unfoldable pub get_api_rooms_id : Option ℕ → Db (Tables F) Error (Response F)
  get_api_rooms_id none = pure room_missing
  get_api_rooms_id (some id) = do
    found ← attempt (get_room id)
    if_found room_missing show_room found
