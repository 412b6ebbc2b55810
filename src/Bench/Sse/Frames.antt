-- ===== src/Bench/Sse/Frames.antt =====
-- The frames that the application writes on a stream (printAndFlush in getAPIStreamRoomsID of
-- webapp/go/app.go), as the benchmarker's event source reads them. The texts of numbers and of
-- strokes are made by strconv.Itoa and json.Marshal, which are parameters.
use isucon6_final.Common.{
  ℕ, String, ◌≡◌, ◌<◌, ◌∙◌, length, All, refl, Bool, false, List, [], ◌∷◌, ◌++◌, ◌==◌,
}
use isucon6_final.Webapp.Schema.{Stroke}
use isucon6_final.Webapp.Stream.{
  Frame, bad_request_event, first_count, watcher_event, stroke_event, error_answer,
}
use isucon6_final.Bench.Sse.{
  Bytes, EventSource, Reading, data_field, event_field, id_field, retry_field, trim_space,
  blank_line, read_line, read_lines, start_reading, emit, Scanner, IsScanner,
}

-- A text that is not empty and does not begin with a space.
abbrev pub IsPlain : Bytes → Type 0
IsPlain [] = ⊥
IsPlain (c ∷ cs) = (c == b' ') ≡ false

abbrev pub stroke_name : Bytes
stroke_name = b's' ∷ b't' ∷ b'r' ∷ b'o' ∷ b'k' ∷ b'e' ∷ []

abbrev pub watcher_count_name : Bytes
watcher_count_name =
    b'w' ∷ b'a' ∷ b't' ∷ b'c' ∷ b'h' ∷ b'e' ∷ b'r' ∷ b'_' ∷ b'c' ∷ b'o' ∷ b'u' ∷ b'n' ∷ b't' ∷ []

abbrev pub bad_request_name : Bytes
bad_request_name = b'b' ∷ b'a' ∷ b'd' ∷ b'_' ∷ b'r' ∷ b'e' ∷ b'q' ∷ b'u' ∷ b'e' ∷ b's' ∷ b't' ∷ []

abbrev pub five_hundred : Bytes
five_hundred = b'5' ∷ b'0' ∷ b'0' ∷ []

abbrev pub field_line : Bytes → Bytes → Bytes
field_line field value = field ++ b':' ∷ value

pub trim_space-IsPlain : (v : Bytes) → IsPlain v → trim_space v ≡ v
trim_space-IsPlain [] p = absurd p
trim_space-IsPlain (c ∷ cs) p = rw p refl

read_lines-append :
    (atoi : Bytes → ℕ × Bool) (ls ms : List Bytes) (r : Reading)
    → read_lines atoi (ls ++ ms) r ≡ read_lines atoi ms (read_lines atoi ls r)
unfolding read_lines
read_lines-append atoi [] ms r = refl
read_lines-append atoi (l ∷ ls) ms r = read_lines-append atoi ls ms (read_line atoi l r)

-- {"error":"InternalServerError"}
abbrev pub error_json : Bytes
error_json =
    123 ∷ 34 ∷ b'e' ∷ b'r' ∷ b'r' ∷ b'o' ∷ b'r' ∷ 34 ∷ 58 ∷ 34 ∷ b'I' ∷ b'n' ∷ b't' ∷ b'e' ∷ b'r'
    ∷ b'n' ∷ b'a' ∷ b'l' ∷ b'S' ∷ b'e' ∷ b'r' ∷ b'v' ∷ b'e' ∷ b'r' ∷ b'E' ∷ b'r' ∷ b'r' ∷ b'o'
    ∷ b'r' ∷ 34 ∷ 125 ∷ []

module _ {F : Type 0} (number : ℕ → Bytes) (json : Stroke F → Bytes) (utf8 : String → Bytes) where
  abbrev pub event_lines : Bytes → Bytes → List Bytes
  event_lines name text = field_line event_field name ∷ field_line data_field text ∷ [] ∷ []

  -- The lines of a frame. The answer of `outputError` is one line, and the last of its stream.
  unfoldable pub frame_lines : Frame F → List Bytes
  frame_lines (bad_request_event m) = event_lines bad_request_name (utf8 m)
  frame_lines (first_count n) =
      field_line retry_field five_hundred ∷ [] ∷ event_lines watcher_count_name (number n)
  frame_lines (watcher_event n) = event_lines watcher_count_name (number n)
  frame_lines (stroke_event s) =
      field_line id_field (number s.row.id) ∷ [] ∷ event_lines stroke_name (json s)
  frame_lines error_answer = error_json ∷ []

  unfoldable pub stream_lines : List (Frame F) → List Bytes
  stream_lines [] = []
  stream_lines (f ∷ fs) = frame_lines f ++ stream_lines fs

  -- What the client should make of a frame: a new state of its event source.
  unfoldable pub heard : Frame F → EventSource → EventSource
  heard (bad_request_event m) s = emit bad_request_name (utf8 m) s
  heard (first_count n) s = emit watcher_count_name (number n) s
  heard (watcher_event n) s = emit watcher_count_name (number n) s
  heard (stroke_event t) s =
      emit stroke_name (json t) (record s { last_event_id = number t.row.id })
  heard error_answer s = s

  unfoldable pub heard_all : List (Frame F) → EventSource → EventSource
  heard_all [] s = s
  heard_all (f ∷ fs) s = heard_all fs (heard f s)

  module _ (atoi : Bytes → ℕ × Bool) (number-IsPlain : (n : ℕ) → IsPlain (number n))
      (json-IsPlain : (s : Stroke F) → IsPlain (json s))
      (utf8-IsPlain : (m : String) → IsPlain (utf8 m))
      (reads_500 : (atoi five_hundred).1 ≡ false) where
    plain_data :
        (s : EventSource) (name text : Bytes)
        → IsPlain text
        → read_lines atoi
            (field_line data_field text ∷ [] ∷ [])
            (record { source = s; text = []; event = name })
          ≡ start_reading (emit name text s)
    unfolding read_lines read_line blank_line
    plain_data s name [] p = absurd p
    plain_data s name (c ∷ cs) p = rw p refl

    frame-heard :
        (f : Frame F) (s : EventSource)
        → read_lines atoi (frame_lines f) (start_reading s) ≡ start_reading (heard f s)
    unfolding frame_lines heard read_lines read_line blank_line
    frame-heard (bad_request_event m) s = plain_data s bad_request_name (utf8 m) (utf8-IsPlain m)
    frame-heard (first_count n) s =
        rw reads_500 (plain_data s watcher_count_name (number n) (number-IsPlain n))
    frame-heard (watcher_event n) s = plain_data s watcher_count_name (number n) (number-IsPlain n)
    frame-heard (stroke_event t) s =
        rw (trim_space-IsPlain (number t.row.id) (number-IsPlain t.row.id)) (
          plain_data (record s { last_event_id = number t.row.id }) stroke_name (json t)
            (json-IsPlain t))
    frame-heard error_answer s = refl

    -- The lines of a frame, and others after it.
    pub frame-first :
        (f : Frame F) (ls : List Bytes) (s : EventSource)
        → read_lines atoi (frame_lines f ++ ls) (start_reading s)
          ≡ read_lines atoi ls (start_reading (heard f s))
    frame-first f ls s =
        read_lines-append atoi (frame_lines f) ls (start_reading s) ∙ rw (frame-heard f s) refl

    all_lines-heard :
        (fs : List (Frame F)) (s : EventSource)
        → read_lines atoi (stream_lines fs) (start_reading s) ≡ start_reading (heard_all fs s)
    unfolding stream_lines heard_all read_lines
    all_lines-heard [] s = refl
    all_lines-heard (f ∷ fs) s = frame-first f (stream_lines fs) s ∙ all_lines-heard fs (heard f s)

    -- Of any frames that the application writes, in lines shorter than the 65536 bytes that
    -- bufio.Scanner holds, the benchmarker's event source reads exactly the events, in order, and
    -- keeps the id of the last stroke as its Last-Event-ID; the scanner ends without an error. The
    -- answer arrives whole, the texts of numbers, strokes and messages are neither empty nor begin
    -- with a space, and "500" is a number.
    pub stream-heard :
        (scan : Scanner) (fs : List (Frame F)) (s : EventSource)
        → IsScanner scan
        → All (λ l. length l < 65536) (stream_lines fs)
        → (read_lines atoi (scan (stream_lines fs)).0 (start_reading s)
            ≡ start_reading (heard_all fs s))
          × ((scan (stream_lines fs)).1 ≡ false)
    stream-heard scan fs s scans short =
        let whole : scan (stream_lines fs) ≡ (stream_lines fs, false) =
          scans.reads_all (stream_lines fs) short in
        rw whole (all_lines-heard fs s, refl)
