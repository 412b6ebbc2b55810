-- ===== src/Bench/Watching.antt =====
-- A watcher of a room (bench/scenario/room_watcher.go): what its listeners do with the events of its
-- event source. What the JSON decoder and strconv.Atoi make of an event's data comes with the event;
-- a negative count is left out, and so is the content type in a message. Times are in nanoseconds.
use isucon6_final.Common.{
  ℕ, ◌+◌, ◌≡◌, refl, sym, ap, ◌∙◌, Bool, true, false, ◌&&◌, ◌||◌, not, List, [], ◌∷◌, ◌++◌, map,
  map-append, append_assoc, append-nil, String, text_append, ltb, if◌then◌else◌,
}
use isucon6_final.Bench.Fails.{Tally, logger_add}
use isucon6_final.Bench.Sse.Client.{
  SseError, request_error, do_error, scan_error, bad_status_code, bad_content_type,
}
use isucon6_final.Bench.Matsuri.{StrokeLog}

-- `end_count` is how often `EndCh` was sent to; `is_closed` whether the event source was closed.
pub record RoomWatcher : Type 0 where
  pub end_count : ℕ
  pub stroke_logs : List StrokeLog
  pub watcher_count_logs : List (ℕ × ℕ)
  pub is_left : Bool
  pub is_closed : Bool

-- A stroke as it was decoded: the zero stroke, or a part of one, where that failed.
pub record HeardStroke : Type 0 where
  pub id : ℕ
  pub points : ℕ
  pub created_at : ℕ

-- `fails` is whether the data could not be decoded.
pub data Event : Type 0 where
  stroke : (now : ℕ) → (fails : Bool) → HeardStroke → Event
  bad_request : String → Event
  watcher_count : (now : ℕ) → (fails : Bool) → String → ℕ → Event
  failed : SseError → Event
  ended : Event

abbrev pub new_room_watcher : RoomWatcher
new_room_watcher = record {
  end_count = 0;
  stroke_logs = [];
  watcher_count_logs = [];
  is_left = false;
  is_closed = false;
}

abbrev pub finalize : RoomWatcher → RoomWatcher
finalize w = record w { end_count = w.end_count + 1 }

abbrev pub close_source : RoomWatcher → RoomWatcher
close_source w = record w { is_closed = true }

-- Before there is an event source, only the mark is set.
unfoldable pub leave : Bool → RoomWatcher → RoomWatcher
leave has_source w =
    let left : RoomWatcher = record w { is_left = true } in
    if has_source then close_source left else left

abbrev pub threshold_response_time : ℕ
threshold_response_time = 5000000000

abbrev pub is_late : ℕ → ℕ → HeardStroke → Bool
is_late start now s = ltb start s.created_at && ltb (s.created_at + threshold_response_time) now

abbrev pub log_of : ℕ → HeardStroke → StrokeLog
log_of now s = record { stroke_id = s.id; points = s.points; received = now }

abbrev pub State : Type 0
State = RoomWatcher × Tally

-- A message that closes the event source, or does not.
abbrev pub complain : String → String → State → State
complain prefix m (w, s) = (w, logger_add prefix m s)

abbrev pub give_up : String → String → State → State
give_up prefix m (w, s) = (close_source w, logger_add prefix m s)

module _ (itoa : ℕ → String) (prefix : String) (start : ℕ) where
  -- The stroke is logged in any case.
  unfoldable pub on_stroke : ℕ → Bool → HeardStroke → State → State
  on_stroke now fails s p =
      let decoded = if fails then give_up prefix "jsonのデコードに失敗しました" p else p in
      let (w, t) =
        if is_late start now s
        then give_up prefix "strokeが届くまでに時間がかかりすぎています" decoded
        else decoded in
      (record w { stroke_logs = w.stroke_logs ++ log_of now s ∷ [] }, t)

  unfoldable pub on_watcher_count : ℕ → Bool → String → ℕ → State → State
  on_watcher_count now fails text count p =
      let (w, t) =
        if fails
        then complain prefix (text_append ("watcher_countがパースできませんでした " ∷ text ∷ [])) p
        else p in
      (record w { watcher_count_logs = w.watcher_count_logs ++ (now, count) ∷ [] }, t)

  unfoldable pub on_failure : SseError → State → State
  on_failure bad_content_type p = complain prefix "Content-Typeが正しくありません: " p
  on_failure (bad_status_code n) p =
      give_up prefix (text_append ("ステータスコードが正しくありません: " ∷ itoa n ∷ [])) p
  on_failure request_error p = complain prefix "リクエストに失敗しました" p
  on_failure do_error p = complain prefix "リクエストに失敗しました" p
  on_failure scan_error p = complain prefix "リクエストに失敗しました" p

  unfoldable pub hear : Event → State → State
  hear (stroke now fails s) p = on_stroke now fails s p
  hear (bad_request text) p = give_up prefix (text_append ("bad_request: " ∷ text ∷ [])) p
  hear (watcher_count now fails text count) p = on_watcher_count now fails text count p
  hear (failed e) p = on_failure e p
  hear ended (w, t) = (finalize w, t)

  unfoldable pub hear_all : List Event → State → State
  hear_all [] p = p
  hear_all (e ∷ es) p = hear_all es (hear e p)

  -- `has_token` is what fetchCSRFToken says, `has_source` what action.SSE says.
  unfoldable pub watch : Bool → Bool → List Event → State → State
  watch has_token has_source es (w, t) =
      if not has_token || w.is_left
      then (finalize w, t)
      else if has_source
      then hear_all es (w, t)
      else (finalize w, t)

abbrev pub heard_ids : List Event → List ℕ
heard_ids [] = []
heard_ids (stroke now fails s ∷ es) = s.id ∷ heard_ids es
heard_ids (bad_request text ∷ es) = heard_ids es
heard_ids (watcher_count now fails text count ∷ es) = heard_ids es
heard_ids (failed e ∷ es) = heard_ids es
heard_ids (ended ∷ es) = heard_ids es

abbrev pub logged_ids : RoomWatcher → List ℕ
logged_ids w = map (λ (l : StrokeLog). l.stroke_id) w.stroke_logs

module _ (itoa : ℕ → String) (prefix : String) (start : ℕ) where
  give_up-logs :
      (b : Bool) (m : String) (p : State)
      → (if b then give_up prefix m p else p).0.stroke_logs ≡ p.0.stroke_logs
  give_up-logs true m p = refl
  give_up-logs false m p = refl

  complain-logs :
      (b : Bool) (m : String) (p : State)
      → (if b then complain prefix m p else p).0.stroke_logs ≡ p.0.stroke_logs
  complain-logs true m p = refl
  complain-logs false m p = refl

  on_failure-logs :
      (e : SseError) (p : State)
      → (on_failure itoa prefix start e p).0.stroke_logs ≡ p.0.stroke_logs
  unfolding on_failure
  on_failure-logs bad_content_type p = refl
  on_failure-logs (bad_status_code n) p = refl
  on_failure-logs request_error p = refl
  on_failure-logs do_error p = refl
  on_failure-logs scan_error p = refl

  abbrev ids : List StrokeLog → List ℕ
  ids = map (λ (l : StrokeLog). l.stroke_id)

  hear-logged :
      (e : Event) (p : State)
      → logged_ids (hear itoa prefix start e p).0 ≡ logged_ids p.0 ++ heard_ids (e ∷ [])
  unfolding hear on_stroke on_watcher_count
  hear-logged (stroke now fails s) p =
      let decoded = if fails then give_up prefix "jsonのデコードに失敗しました" p else p in
      map-append (λ (l : StrokeLog). l.stroke_id) _ (log_of now s ∷ [])
      ∙ ap (λ ls. ids ls ++ s.id ∷ [])
          (give_up-logs (is_late start now s) "strokeが届くまでに時間がかかりすぎています" decoded
            ∙ give_up-logs fails "jsonのデコードに失敗しました" p)
  hear-logged (bad_request text) p = sym (append-nil _)
  hear-logged (watcher_count now fails text count) p =
      ap ids (complain-logs fails _ p) ∙ sym (append-nil _)
  hear-logged (failed e) p = ap ids (on_failure-logs e p) ∙ sym (append-nil _)
  hear-logged ended p = sym (append-nil _)

  heard_ids-first :
      (e : Event) (es : List Event) → heard_ids (e ∷ []) ++ heard_ids es ≡ heard_ids (e ∷ es)
  heard_ids-first (stroke now fails s) es = refl
  heard_ids-first (bad_request text) es = refl
  heard_ids-first (watcher_count now fails text count) es = refl
  heard_ids-first (failed e) es = refl
  heard_ids-first ended es = refl

  -- A watcher logs every stroke that it hears, in the order of their arrival, also one that could not
  -- be decoded or that came too late.
  pub hear_all-logged :
      (es : List Event) (p : State)
      → logged_ids (hear_all itoa prefix start es p).0 ≡ logged_ids p.0 ++ heard_ids es
  unfolding hear_all
  hear_all-logged [] p = sym (append-nil _)
  hear_all-logged (e ∷ es) p =
      hear_all-logged es (hear itoa prefix start e p)
      ∙ ap (λ is. is ++ heard_ids es) (hear-logged e p)
      ∙ append_assoc (logged_ids p.0) (heard_ids (e ∷ [])) (heard_ids es)
      ∙ ap (λ is. logged_ids p.0 ++ is) (heard_ids-first e es)
