-- ===== src/Bench/Resume.antt =====
-- The benchmarker's event source (bench/sse/eventsource.go) connected to the application's stream of
-- a room (webapp/go/app.go), over any number of connections. strconv.ParseInt is a parameter, as are
-- the texts of numbers, strokes and messages. A connection may break off after any line of its
-- answer, but not within a line.
pub mod Heard
pub mod Once
mod Tests
use isucon6_final.Common.{
  ℕ, ◌+◌, ◌≤◌, ◌<◌, ◌≡◌, Bool, true, false, Option, none, some, List, [], ◌∷◌, ◌++◌, take, String,
  ◌==◌, if◌then◌else◌,
}
use isucon6_final.Db.{World}
use isucon6_final.Webapp.Schema.{Tables, Stroke}
use isucon6_final.Webapp.Stream.{
  Frame, Session, bad_request_event, first_count, watcher_event, stroke_event, error_answer,
  get_api_stream_rooms_id,
}
use isucon6_final.Webapp.Stream.Sessions.{UniqueIds}
use isucon6_final.Bench.Sse.{Bytes, EventSource, Scanner}
use isucon6_final.Bench.Sse.Client.{
  Answer, no_answer, answered, Exchange, Client, last_event_header, handle_answer,
}
use isucon6_final.Bench.Sse.Frames.{stream_lines}

-- What one request of the event source meets: whether it reaches the application, the tables and the
-- other requests there, what the connection and the scanner deliver of its answer's lines, and
-- whether Close is called while it runs.
pub record Turn (F : Type 0) : Type 0 where
  pub reached : Bool
  pub tables : Tables F
  pub others : ℕ → Tables F → Tables F
  pub now : ℕ
  pub faults : List Bool
  pub delivers : Scanner
  pub closes : Bool

-- No two strokes have the same id, at any time, and the lines are delivered one by one until some end.
pub record IsSound {F : Type 0} (t : Turn F) : Type 0 where
  pub unique : UniqueIds t.tables
  pub stays_unique : (n : ℕ) (u : Tables F) → UniqueIds u → UniqueIds (t.others n u)
  pub in_order : (ls : List Bytes) → (n : ℕ) × ((t.delivers ls).0 ≡ take n ls)

-- `outputError` sets the status if nothing has been written before.
abbrev pub status_of : {F : Type 0} → List (Frame F) → ℕ
status_of [] = 200
status_of (error_answer ∷ fs) = 500
status_of (bad_request_event m ∷ fs) = 200
status_of (first_count n ∷ fs) = 200
status_of (watcher_event n ∷ fs) = 200
status_of (stroke_event s ∷ fs) = 200

abbrev pub last_event : (Bytes → Option ℕ) → Option Bytes → Option (Option ℕ)
last_event parse_int none = none
last_event parse_int (some v) = some (parse_int v)

module _ {F : Type 0} (number : ℕ → Bytes) (json : Stroke F → Bytes) (utf8 : String → Bytes) where
  abbrev pub answer_of : Scanner → List (Frame F) → Answer
  answer_of scan fs =
      let (lines, fails) = scan (stream_lines number json utf8 fs) in
      answered (status_of fs) true lines fails

module _ {F : Type 0} (parse_int : Bytes → Option ℕ) (csrf : String) (room : ℕ) where
  -- What the application writes for a request with this header.
  abbrev pub written_frames : Turn F → EventSource → List (Frame F)
  written_frames t s =
      (get_api_stream_rooms_id t.others csrf (some room)
        (last_event parse_int (last_event_header s))
        (record {
          tables = record { tables = t.tables; turn = 0; out = [] };
          now = t.now;
          faults = t.faults;
        })).tables.out

  module _ (number : ℕ → Bytes) (json : Stroke F → Bytes) (utf8 : String → Bytes) where
    abbrev pub exchange : Turn F → EventSource → Exchange
    exchange t s = record {
      answer =
          if t.reached
          then answer_of number json utf8 t.delivers (written_frames t s)
          else no_answer;
      closes = t.closes;
    }

    -- The exchanges of `Open`, each with the header that the event source has reached by then.
    unfoldable pub exchanges : (Bytes → ℕ × Bool) → List (Turn F) → Client → List Exchange
    exchanges atoi [] c = []
    exchanges atoi (t ∷ ts) c =
        let x = exchange t c.source in
        let d = handle_answer atoi x.closes x.answer c in
        x ∷ exchanges atoi ts (record d { slept = d.slept + d.source.retry_wait })
