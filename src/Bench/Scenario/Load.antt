-- ===== src/Bench/Scenario/Load.antt =====
-- The load of a run (bench/scenario/benchmark.go), and the watchers of WatcherCountIncreases of
-- bench/scenario/initial_check.go.
use isucon6_final.Common.{
  ℕ, zero, suc, ◌+◌, ◌*◌, ◌==◌, Bool, true, false, not, Option, none, some, List, [], ◌∷◌, String,
  text_append, ltb, length, if◌then◌else◌,
}
use isucon6_final.Bench.Fails.{Tally}
use isucon6_final.Bench.Watching.{RoomWatcher, new_room_watcher, finalize, watch}
use isucon6_final.Bench.Scenario.{
  Room, Document, Session, Env, Scenario, pure, elem_at, when_some, required, critical_if, ◌>>=◌,
  ◌>>◌, rand_int, time_now, new_session, fluctuate, fetch,
}
use isucon6_final.Bench.Scenario.Checks.{
  with_document, with_json, extract_images, fetch_csrf_token, draw_stroke, get_rooms_api,
  check_rooms, load_images, load_static_files,
}

abbrev pub images_of : Document → String → Tally → Option (List String) × Tally
images_of d prefix s = (some (extract_images d), s)

module _ {S F : Type 0} (e : Env S F) where
  -- `images` are those of the page, if it could be loaded.
  unfoldable pub load_found : Session → Option (List String) → Scenario S Bool
  load_found s none = pure false
  load_found s (some images) = do
    fine ← load_static_files e s false
    if fine then load_images e s images else pure false

  unfoldable pub load_index_page_with_session : Session → Scenario S Bool
  load_index_page_with_session s = do
    images ← fetch e s "/" (with_document images_of)
    load_found s images

  -- The loop of LoadIndexPage, with the number of its turns.
  unfoldable pub load_turns : ℕ → Session → Scenario S Bool
  load_turns zero s = pure true
  load_turns (suc n) s = do
    fine ← load_index_page_with_session s
    if fine then load_turns n s else pure false

  unfoldable pub load_index_page : List String → Scenario S Bool
  load_index_page origins = do s ← new_session e origins; load_turns 3 s

  unfoldable pub draw_on_random_room : List String → Scenario S (Unit {0})
  draw_on_random_room origins = do
    s ← new_session e origins
    rooms ← fetch e s "/api/rooms" (with_json "レスポンスのJSONが読みとれませんでした" (check_rooms e.itoa))
    when_some rooms λ rooms. do
      i ← rand_int e 80
      room ← elem_at rooms (i + 20)
      token ← fetch_csrf_token e s (text_append ("/rooms/" ∷ e.itoa room.id ∷ []))
      when_some token λ token. do
        k ← rand_int e (length (e.get_strokes "www"))
        seed ← elem_at (e.get_strokes "www") k
        drawn ← fluctuate e seed
        draw_stroke e s token room.id drawn
        pure tt

  -- What the listeners of a watcher do with the events of its source.
  unfoldable pub hear_room : Session → ℕ → ℕ → Option String → Scenario S RoomWatcher
  hear_room s room start none r = (some (finalize new_room_watcher), r)
  hear_room s room start (some token) r =
      let ((has_source, es), site) = e.events s room r.site in
      let path = text_append ("[/api/stream/rooms/" ∷ e.itoa room ∷ "] " ∷ []) in
      let (w, t) = watch e.itoa path start true has_source es (new_room_watcher, r.tally) in
      (some w, record r { site = site; tally = t })

  -- A watcher from its entry to its leaving.
  unfoldable pub watch_room : List String → ℕ → Scenario S RoomWatcher
  watch_room origins room = do
    s ← new_session e origins
    token ← fetch_csrf_token e s (text_append ("/rooms/" ∷ e.itoa room ∷ []))
    start ← time_now e
    hear_room s room start token

  abbrev pub max_count : ℕ → List (ℕ × ℕ) → ℕ
  max_count c [] = c
  max_count c ((time, count) ∷ logs) = max_count (if ltb c count then count else c) logs

  -- The room number `i` of the five, which `i` watchers enter.
  unfoldable pub check_watcher : List String → List (Room F) → ℕ → ℕ → Scenario S (Unit {0})
  check_watcher origins rooms pad i = do
    room ← elem_at rooms (30 + pad + i * 10)
    w ← watch_room origins room.id
    critical_if (not (max_count 0 w.watcher_count_logs == i)) "正しいwatcher_countが送られていません"
    critical_if (not (length w.stroke_logs == room.stroke_count)) "正しいstrokeが送られていません"

  unfoldable pub check_watchers : List String → List (Room F) → ℕ → ℕ → ℕ → Scenario S (Unit {0})
  check_watchers origins rooms pad i zero = pure tt
  check_watchers origins rooms pad i (suc n) = do
    check_watcher origins rooms pad i
    check_watchers origins rooms pad i n

  unfoldable pub check_rooms_from : List String → List (Room F) → ℕ → List ℕ → Scenario S (Unit {0})
  check_rooms_from origins rooms pad [] = pure tt
  check_rooms_from origins rooms pad (i ∷ is) = do
    check_watchers origins rooms pad i i
    check_rooms_from origins rooms pad is

  unfoldable pub watcher_count_increases : List String → Scenario S (Unit {0})
  watcher_count_increases origins = do
    s ← new_session e origins
    rooms ← get_rooms_api e s
    required "部屋一覧の取得に失敗しました" rooms
        λ rooms. do pad ← rand_int e 20; check_rooms_from origins rooms pad (0 ∷ 1 ∷ 2 ∷ 3 ∷ 4 ∷ [])
