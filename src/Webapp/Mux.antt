-- ===== src/Webapp/Mux.antt =====
-- The drawing application as a whole: a request for any of the routes of `main` of webapp/go/app.go.
-- goji matches a method and a path to a route, and what the handler reads of the request comes with it.
pub mod Streaming
pub mod Valid
mod Tests
use isucon6_final.Common.{ℕ, Option, none, some, List, [], ◌∷◌, String}
use isucon6_final.Db.{World, Db}
use isucon6_final.Webapp.Schema.{Columns, Tables, Error, PostedRoom, PostedStroke, Response}
use isucon6_final.Webapp.Queries.{written}
use isucon6_final.Webapp.Rooms.{
  post_api_csrf_token, get_api_rooms, post_api_rooms, get_api_rooms_id,
}
use isucon6_final.Webapp.Strokes.{post_api_strokes_rooms_id}
use isucon6_final.Webapp.Stream.{Frame, Session, get_api_stream_rooms_id}

-- `fresh` is the token that the database makes; `others` is what other requests do to the tables
-- before each query of a stream. An id of a path is none where it is no number.
pub data AppRequest (F : Type 0) : Type 0 where
  csrf_token : (fresh : String) → AppRequest F
  rooms : AppRequest F
  new_room : (csrf : String) → Option PostedRoom → AppRequest F
  room : (id : Option ℕ) → AppRequest F
  stream :
      (others : ℕ → Tables F → Tables F) (csrf : String) (id : Option ℕ)
      (last_event : Option (Option ℕ))
      → AppRequest F
  new_stroke : (csrf : String) (id : Option ℕ) → Option (PostedStroke F) → AppRequest F
  unrouted : AppRequest F

-- A response, none after a panic; the frames of a stream; or goji's own answer.
pub data AppAnswer (F : Type 0) : Type 0 where
  response : Option (Response F) → AppAnswer F
  frames : List (Frame F) → AppAnswer F
  not_found : AppAnswer F

module _ {F : Type 0} (column : Columns F) where
  -- What a handler has written.
  unfoldable pub handled :
      Db (Tables F) Error (Response F) → World (Tables F) → AppAnswer F × World (Tables F)
  handled m w = let (r, u) = m w in (response (written r), u)

  -- The session of a stream begins with the tables, and leaves them to those after it.
  unfoldable pub streamed :
      (World (Session F) → World (Session F)) → World (Tables F) → AppAnswer F × World (Tables F)
  streamed m w =
      let u = m (record {
        tables = record { tables = w.tables; turn = 0; out = [] };
        now = w.now;
        faults = w.faults;
      }) in
      (frames u.tables.out, record { tables = u.tables.tables; now = u.now; faults = u.faults })

  unfoldable pub app_serve : AppRequest F → World (Tables F) → AppAnswer F × World (Tables F)
  unfolding handled streamed
  app_serve (csrf_token fresh) w = handled (post_api_csrf_token fresh) w
  app_serve rooms w = handled get_api_rooms w
  app_serve (new_room csrf body) w = handled (post_api_rooms csrf body) w
  app_serve (room id) w = handled (get_api_rooms_id id) w
  app_serve (stream others csrf id last_event) w =
      streamed (get_api_stream_rooms_id others csrf id last_event) w
  app_serve (new_stroke csrf id body) w = handled (post_api_strokes_rooms_id column csrf id body) w
  app_serve unrouted w = (not_found, w)

  -- Requests one after another, but for those beside a stream.
  unfoldable pub app_serve_all : List (AppRequest F) → World (Tables F) → World (Tables F)
  unfolding app_serve
  app_serve_all [] w = w
  app_serve_all (r ∷ rs) w = let (a, u) = app_serve r w in app_serve_all rs u
