-- ===== src/Bench/Sse/Tests.antt =====
-- Runs of the event source, and the theorems on it at concrete inputs.
use isucon6_final.Common.{
  All, Bool, Bool-cases, List, String, [], arith, false, if◌then◌else◌, inl, inr, length, ltb, none,
  refl, some, suc, take, true, ℕ, ◌%◌, ◌+◌, ◌<◌, ◌∷◌, ◌≡◌,
}
use isucon6_final.Webapp.Schema.{Stroke}
use isucon6_final.Webapp.Stream.{Frame, first_count, stroke_event, watcher_event}
use isucon6_final.Bench.Sse.{
  Bytes, EventSource, start_reading, read_lines, read_line, blank_line, Scanner, IsScanner,
  data_field, default_event,
}
use isucon6_final.Bench.Sse.Client.{
  Client, Exchange, answered, no_answer, on_end, new_event_source, open_loop, handle_answer,
  open_loop-ends,
}
use isucon6_final.Bench.Sse.Frames.{
  stream-heard, frame_lines, stream_lines, heard_all, field_line, IsPlain,
}

-- One digit is enough here.
abbrev digit : ℕ → Bytes
digit n = (48 + n % 10) ∷ []

abbrev braces : Stroke ℕ → Bytes
braces s = b'{' ∷ b'}' ∷ []

abbrev message_text : String → Bytes
message_text m = b's' ∷ b'o' ∷ b'r' ∷ b'r' ∷ b'y' ∷ []

abbrev accepts : Bytes → ℕ × Bool
accepts v = (500, false)

abbrev fresh : EventSource
fresh = record { last_event_id = []; retry_wait = 1000; emitted = [] }

abbrev drawn : Stroke ℕ
drawn = record {
  row = record {
    id = 4;
    room_id = 7;
    width = 2;
    red = 0;
    green = 0;
    blue = 0;
    alpha = 1;
    created_at = 6;
  };
  points = [];
}

abbrev frames : List (Frame ℕ)
frames = first_count 1 ∷ stroke_event drawn ∷ watcher_event 2 ∷ []

digit-IsPlain : (n : ℕ) → IsPlain (digit n)
digit-IsPlain n = ground arith

-- A scanner that ends at the first line that is too long.
abbrev scan_short : Scanner
scan_short [] = ([], false)
scan_short (l ∷ ls) =
    let (ms, fails) = scan_short ls in if ltb (length l) 65536 then (l ∷ ms, fails) else ([], true)

scan_short-taken : (ls : List Bytes) → (n : ℕ) × ((scan_short ls).0 ≡ take n ls)
scan_short-taken [] = (0, refl)
scan_short-taken (l ∷ ls) = elim (Bool-cases (ltb (length l) 65536)) [
  | inl e ↦ let (n, d) = scan_short-taken ls in (suc n, rw (e, d) refl)
  | inr e ↦ (0, rw e refl)
]

scan_short-all : (ls : List Bytes) → All (λ l. length l < 65536) ls → scan_short ls ≡ (ls, false)
scan_short-all [] h = refl
scan_short-all (l ∷ ls) h =
    let fits : ltb (length l) 65536 ≡ true = ground (arith, h.0) in
    rw (fits, scan_short-all ls h.1) refl

scan_short-IsScanner : IsScanner scan_short
scan_short-IsScanner = record { delivers = scan_short-taken; reads_all = scan_short-all }

frames_short : All (λ l. length l < 65536) (stream_lines digit braces message_text frames)
unfolding stream_lines frame_lines
frames_short = (
  omega arith,
  (
    omega arith,
    (
      omega arith,
      (
        omega arith,
        (
          omega arith,
          (
            omega arith,
            (
              omega arith,
              (
                omega arith,
                (omega arith, (omega arith, (omega arith, (omega arith, (omega arith, tt))))),
              ),
            ),
          ),
        ),
      ),
    ),
  ),
)

stream-heard_example :
    (read_lines accepts
        (scan_short (stream_lines digit braces message_text frames)).0
        (start_reading fresh)
      ≡ start_reading (heard_all digit braces message_text frames fresh))
    × ((scan_short (stream_lines digit braces message_text frames)).1 ≡ false)
stream-heard_example =
    stream-heard digit braces message_text accepts digit-IsPlain (λ s. refl) (λ m. refl) refl
      scan_short frames fresh scan_short-IsScanner frames_short

-- Two lines of data make one event of two lines, with the default name.
joined_data :
    (read_lines accepts
      (field_line data_field (digit 4) ∷ field_line data_field (digit 4) ∷ [] ∷ [])
      (start_reading fresh)).source.emitted
    ≡ (default_event, b'4' ∷ 10 ∷ b'4' ∷ []) ∷ []
unfolding read_lines read_line blank_line
joined_data = refl

abbrev listening : Client
listening = on_end new_event_source

-- The first answer has a stroke's frames, the second request asks for what comes after it, and
-- during it the source is closed.
abbrev exchanges : List Exchange
exchanges =
    record {
      answer = answered 200 true (stream_lines digit braces message_text frames) false;
      closes = false;
    }
    ∷ record { answer = no_answer; closes = true }
    ∷ record { answer = no_answer; closes = false }
    ∷ []

asked_again : (open_loop accepts exchanges listening).requested ≡ none ∷ some (b'4' ∷ []) ∷ []
unfolding open_loop handle_answer stream_lines frame_lines read_lines read_line blank_line
asked_again = refl

open_loop-ends_example : (open_loop accepts exchanges listening).ends ≡ 1
open_loop-ends_example = open_loop-ends accepts exchanges listening refl refl
