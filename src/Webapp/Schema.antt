-- ===== src/Webapp/Schema.antt =====
-- The application's tables, the values of its JSON answers, and its requests. Coordinates and alpha
-- are floats in the program and decimals in the tables: their type is a parameter, and `Columns` says
-- what the database makes of a value that it stores. Times count microseconds.
use isucon6_final.Common.{ℕ, String, List}

-- `coordinate` is a DECIMAL(10,4) column, `alpha` a DECIMAL(3,2) column.
pub record Columns (F : Type 0) : Type 0 where
  pub coordinate : F → F
  pub alpha : F → F

pub record TokenRow : Type 0 where
  pub id : ℕ
  pub csrf_token : String
  pub created_at : ℕ

pub record RoomRow : Type 0 where
  pub id : ℕ
  pub name : String
  pub canvas_width : ℕ
  pub canvas_height : ℕ
  pub created_at : ℕ

pub record StrokeRow (F : Type 0) : Type 0 where
  pub id : ℕ
  pub room_id : ℕ
  pub width : ℕ
  pub red : ℕ
  pub green : ℕ
  pub blue : ℕ
  pub alpha : F
  pub created_at : ℕ

pub record PointRow (F : Type 0) : Type 0 where
  pub id : ℕ
  pub stroke_id : ℕ
  pub x : F
  pub y : F

pub record OwnerRow : Type 0 where
  pub room_id : ℕ
  pub token_id : ℕ

pub record WatcherRow : Type 0 where
  pub room_id : ℕ
  pub token_id : ℕ
  pub created_at : ℕ
  pub updated_at : ℕ

pub record Tables (F : Type 0) : Type 0 where
  pub tokens : List TokenRow
  pub next_token : ℕ
  pub rooms : List RoomRow
  pub next_room : ℕ
  pub strokes : List (StrokeRow F)
  pub next_stroke : ℕ
  pub points : List (PointRow F)
  pub next_point : ℕ
  pub room_owners : List OwnerRow
  pub room_watchers : List WatcherRow

-- `type Stroke`: a row with the points of the stroke.
pub record Stroke (F : Type 0) : Type 0 where
  pub row : StrokeRow F
  pub points : List (PointRow F)

-- `type Room`
pub record Room (F : Type 0) : Type 0 where
  pub row : RoomRow
  pub strokes : List (Stroke F)
  pub stroke_count : ℕ
  pub watcher_count : ℕ

-- `driver` is an error of the database, the body or the JSON decoder, all reported alike;
-- `no_rows` is sql.ErrNoRows.
pub data Error : Type 0 where
  driver no_rows : Error

-- The fields of a posted room and a posted stroke that the handlers read.
pub record PostedRoom : Type 0 where
  pub name : String
  pub canvas_width : ℕ
  pub canvas_height : ℕ

pub record PostedPoint (F : Type 0) : Type 0 where
  pub x : F
  pub y : F

pub record PostedStroke (F : Type 0) : Type 0 where
  pub width : ℕ
  pub red : ℕ
  pub green : ℕ
  pub blue : ℕ
  pub alpha : F
  pub points : List (PostedPoint F)

-- The member of the JSON object that a handler writes.
pub data Body (F : Type 0) : Type 0 where
  error_body : String → Body F
  token_body : String → Body F
  rooms_body : List (Room F) → Body F
  room_body : Room F → Body F
  stroke_body : Stroke F → Body F

pub record Response (F : Type 0) : Type 0 where
  pub status : ℕ
  pub body : Body F
