-- ===== src/Bench/Sse.antt =====
-- How the benchmarker's event source reads the lines of an answer (bench/sse/eventsource.go). A text
-- is the list of its bytes. `bufio.Scanner` splits the answer into lines without their ends, and is a
-- parameter.
pub mod Frames
pub mod Retry
pub mod Client
mod Tests
use isucon6_final.Common.{
  ℕ, ◌≡◌, ◌<◌, take, length, All, Bool, true, false, Option, none, some, List, [], ◌∷◌, ◌++◌, ◌==◌,
  ◌&&◌, if◌then◌else◌,
}

abbrev pub Bytes : Type 0
Bytes = List ℕ

abbrev pub bytes_eq : Bytes → Bytes → Bool
bytes_eq [] [] = true
bytes_eq [] (d ∷ ds) = false
bytes_eq (c ∷ cs) [] = false
bytes_eq (c ∷ cs) (d ∷ ds) = (c == d) && bytes_eq cs ds

abbrev pub data_field : Bytes
data_field = b'd' ∷ b'a' ∷ b't' ∷ b'a' ∷ []

abbrev pub event_field : Bytes
event_field = b'e' ∷ b'v' ∷ b'e' ∷ b'n' ∷ b't' ∷ []

abbrev pub id_field : Bytes
id_field = b'i' ∷ b'd' ∷ []

abbrev pub retry_field : Bytes
retry_field = b'r' ∷ b'e' ∷ b't' ∷ b'r' ∷ b'y' ∷ []

abbrev pub default_event : Bytes
default_event = b'm' ∷ b'e' ∷ b's' ∷ b's' ∷ b'a' ∷ b'g' ∷ b'e' ∷ []

-- strings.SplitN(line, ":", 2): the text before the first colon, and the one after it if there is one
abbrev pub split_field : Bytes → Bytes × Option Bytes
split_field [] = ([], none)
split_field (c ∷ cs) =
    let (field, value) = split_field cs in if c == b':' then ([], some cs) else (c ∷ field, value)

-- strings.TrimPrefix(value, " ")
abbrev pub trim_space : Bytes → Bytes
trim_space [] = []
trim_space (c ∷ cs) = if c == b' ' then cs else c ∷ cs

abbrev pub field_value : Option Bytes → Bytes
field_value none = []
field_value (some v) = trim_space v

-- The fields of the event source that the answer changes; `emitted` are the calls of `emit`, each an
-- event and its data, oldest first. `retry_wait` counts milliseconds.
pub record EventSource : Type 0 where
  pub last_event_id : Bytes
  pub retry_wait : ℕ
  pub emitted : List (Bytes × Bytes)

-- While an answer is read, also the variables `data` and `event` of `request`.
pub record Reading : Type 0 where
  pub source : EventSource
  pub text : Bytes
  pub event : Bytes

abbrev pub emit : Bytes → Bytes → EventSource → EventSource
emit event text s = record s { emitted = s.emitted ++ (event, text) ∷ [] }

unfoldable pub blank_line : Reading → Reading
blank_line r =
    if bytes_eq r.text []
    then r
    else record { source = emit r.event r.text r.source; text = []; event = default_event }

-- strconv.Atoi gives a number also where it fails; the second component says whether it does.
module _ (atoi : Bytes → ℕ × Bool) where
  abbrev pub retry_line : Bytes → EventSource → EventSource
  retry_line value s =
      let (n, failed) = atoi value in if failed then record s { retry_wait = n } else s

  abbrev pub read_field : Bytes → Bytes → Reading → Reading
  read_field field value r =
      if bytes_eq field event_field
      then record r { event = value }
      else if bytes_eq field retry_field
      then record r { source = retry_line value r.source }
      else if bytes_eq field id_field
      then record r { source = record r.source { last_event_id = value } }
      else if bytes_eq field data_field
      then record r { text = if bytes_eq r.text [] then value else (r.text ++ 10 ∷ []) ++ value }
      else r

  unfoldable pub read_line : Bytes → Reading → Reading
  unfolding blank_line
  read_line [] r = blank_line r
  read_line (c ∷ cs) r =
      let (field, value) = split_field (c ∷ cs) in read_field field (field_value value) r

  -- The loop over the lines that the scanner delivers.
  unfoldable pub read_lines : List Bytes → Reading → Reading
  read_lines [] r = r
  read_lines (l ∷ ls) r = read_lines ls (read_line l r)

-- What a scanner delivers of the lines of an answer, and whether it ends with an error.
abbrev pub Scanner : Type 0
Scanner = List Bytes → List Bytes × Bool

-- bufio.Scanner delivers lines one by one until it ends, and all of them if each is shorter than
-- bufio.MaxScanTokenSize.
pub record IsScanner (scan : Scanner) : Type 0 where
  pub delivers : (ls : List Bytes) → (n : ℕ) × ((scan ls).0 ≡ take n ls)
  pub reads_all : (ls : List Bytes) → All (λ l. length l < 65536) ls → scan ls ≡ (ls, false)

-- An answer of status 200 and type text/event-stream is read from these variables.
abbrev pub start_reading : EventSource → Reading
start_reading s = record { source = s; text = []; event = default_event }
