-- ===== src/Bench/Scenario/Loads.antt =====
-- Neither the load nor the watchers of a room panic, whatever a site answers.
use isucon6_final.Common.{
  ℕ, zero, suc, ◌+◌, ◌*◌, ◌<◌, ◌≤◌, refl, Bool, true, false, ◌||◌, not, Option, none, some, List,
  [], ◌∷◌, String, ◌==◌, length, All, if◌then◌else◌, Bool-cases, inl, inr, arith,
}
use isucon6_final.Bench.Sse.Client.{
  request_error, do_error, scan_error, bad_status_code, bad_content_type,
}
use isucon6_final.Bench.Watching.{
  Event, stroke, bad_request, watcher_count, failed, ended, State, complain, give_up, is_late,
  on_stroke, on_watcher_count, on_failure, hear, hear_all, watch, new_room_watcher,
}
use isucon6_final.Bench.Scenario.{Room, Session, Env}
use isucon6_final.Bench.Scenario.Grown.{Grown, Grown-refl, Grown-trans, Grown-logger_add}
use isucon6_final.Bench.Scenario.Ends.{
  Ends, Any, If, Ends-pure, Ends-elem_at, Ends-bind, Ends-when_some, Ends-required, Ends-if,
  Ends-critical_if, Ends-rand_int, Ends-time_now, Ends-fluctuate, Ends-fetch,
}
use isucon6_final.Bench.Scenario.Sound.{
  Hundred, check_rooms-Sound, with_document-Checks, with_json-Checks, fetch_csrf_token-Ends,
  draw_stroke-Ends, get_rooms_api-Ends, load_images-Ends, load_static_files-Ends,
}
use isucon6_final.Bench.Scenario.Runs.{Ready, new_session-Ends, token-Ends}
use isucon6_final.Bench.Scenario.Load.{
  load_found, load_index_page_with_session, load_turns, load_index_page, draw_on_random_room,
  hear_room, watch_room, max_count, check_watcher, check_watchers, check_rooms_from,
  watcher_count_increases,
}

module _ (itoa : ℕ → String) (prefix : String) (start : ℕ) where
  give_up-Grown :
      (b : Bool) (m : String) (p : State) → Grown p.1 (if b then give_up prefix m p else p).1
  give_up-Grown true m p = Grown-logger_add _ _ p.1
  give_up-Grown false m p = Grown-refl p.1

  complain-Grown :
      (b : Bool) (m : String) (p : State) → Grown p.1 (if b then complain prefix m p else p).1
  complain-Grown true m p = Grown-logger_add _ _ p.1
  complain-Grown false m p = Grown-refl p.1

  hear-Grown : (x : Event) (p : State) → Grown p.1 (hear itoa prefix start x p).1
  unfolding hear on_stroke on_watcher_count on_failure
  hear-Grown (stroke now fails s) p =
      Grown-trans _ _ _ (give_up-Grown fails "jsonのデコードに失敗しました" p)
        (give_up-Grown (is_late start now s) _ _)
  hear-Grown (bad_request text) p = Grown-logger_add _ _ p.1
  hear-Grown (watcher_count now fails text count) p = complain-Grown fails _ p
  hear-Grown (failed bad_content_type) p = Grown-logger_add _ _ p.1
  hear-Grown (failed (bad_status_code n)) p = Grown-logger_add _ _ p.1
  hear-Grown (failed request_error) p = Grown-logger_add _ _ p.1
  hear-Grown (failed do_error) p = Grown-logger_add _ _ p.1
  hear-Grown (failed scan_error) p = Grown-logger_add _ _ p.1
  hear-Grown ended p = Grown-refl p.1

  hear_all-Grown : (xs : List Event) (p : State) → Grown p.1 (hear_all itoa prefix start xs p).1
  unfolding hear_all
  hear_all-Grown [] p = Grown-refl p.1
  hear_all-Grown (x ∷ xs) p =
      Grown-trans _ _ _ (hear-Grown x p) (hear_all-Grown xs (hear itoa prefix start x p))

  watch-Grown :
      (has_token has_source : Bool) (xs : List Event) (p : State)
      → Grown p.1 (watch itoa prefix start has_token has_source xs p).1
  unfolding watch
  watch-Grown has_token has_source xs (w, t) = elim (Bool-cases (not has_token || w.is_left)) [
    | inl h ↦ rw h (Grown-refl t)
    | inr h ↦ elim (Bool-cases has_source) [
      | inl s ↦ rw (h, s) (hear_all-Grown xs (w, t))
      | inr s ↦ rw (h, s) (Grown-refl t)
    ]
  ]

module _ {S F : Type 0} (e : Env S F) where
  load_found-Ends : (s : Session) (images : Option (List String)) → Ends Any (load_found e s images)
  unfolding load_found
  load_found-Ends s none = Ends-pure Any false tt
  load_found-Ends s (some images) =
      Ends-bind Any Any _ _ (load_static_files-Ends e s false)
        λ fine _. Ends-if fine _ _ (load_images-Ends e s images) (Ends-pure Any false tt)

  load_index_page_with_session-Ends : (s : Session) → Ends Any (load_index_page_with_session e s)
  unfolding load_index_page_with_session
  load_index_page_with_session-Ends s =
      Ends-bind (If Any) Any _ _
        (Ends-fetch e Any s "/" _ (with_document-Checks Any _ (λ d prefix t. (tt, Grown-refl t))))
        (λ images _. load_found-Ends s images)

  load_turns-Ends : (n : ℕ) (s : Session) → Ends Any (load_turns e n s)
  unfolding load_turns
  load_turns-Ends zero s = Ends-pure Any true tt
  load_turns-Ends (suc n) s =
      Ends-bind Any Any _ _ (load_index_page_with_session-Ends s)
        λ fine _. Ends-if fine _ _ (load_turns-Ends n s) (Ends-pure Any false tt)

  hear_room-Ends :
      (s : Session) (room start : ℕ) (token : Option String)
      → Ends Any (hear_room e s room start token)
  unfolding hear_room
  hear_room-Ends s room start none = record { at = λ r. (_, refl, tt, Grown-refl r.tally) }
  hear_room-Ends s room start (some token) = record {
    at = λ r.
        let ((has_source, es), site) = e.events s room r.site in
        (_, refl, tt, watch-Grown e.itoa _ start true has_source es (new_room_watcher, r.tally));
  }

module _ {S F : Type 0} (e : Env S F) (origins : List String) (k : Ready e origins) where
  pub load_index_page-Ends : Ends Any (load_index_page e origins)
  unfolding load_index_page
  load_index_page-Ends =
      Ends-bind Any Any _ _ (new_session-Ends e origins k) λ s _. load_turns-Ends e 3 s

  pub draw_on_random_room-Ends : Ends Any (draw_on_random_room e origins)
  unfolding draw_on_random_room
  draw_on_random_room-Ends = Ends-bind Any Any _ _ (new_session-Ends e origins k) λ s _.
      Ends-bind (If Hundred) Any _ _
        (Ends-fetch e Hundred s _ _ (with_json-Checks Hundred _ _ (check_rooms-Sound e.itoa)))
        λ o q. Ends-when_some Hundred o _ q λ rooms hundred.
          Ends-bind (λ i. i < 80) Any _ _ (Ends-rand_int e k.below 80 (omega arith))
            λ i h.
              Ends-bind Any Any _ _ (Ends-elem_at rooms (i + 20) (omega (arith, h, hundred)))
                λ room _. token-Ends e origins k s _ _ λ token.
                  Ends-bind (λ i. i < length (e.get_strokes "www")) Any _ _
                    (Ends-rand_int e k.below _ k.www)
                    λ j below. Ends-bind Any Any _ _ (Ends-elem_at _ j below) λ seed _.
                      Ends-bind Any Any _ _ (Ends-fluctuate e seed) λ drawn _.
                        Ends-bind (If Any) Any _ _ (draw_stroke-Ends e s token room.id drawn)
                          λ _ _. Ends-pure Any tt tt

  watch_room-Ends : (room : ℕ) → Ends Any (watch_room e origins room)
  unfolding watch_room
  watch_room-Ends room = Ends-bind Any Any _ _ (new_session-Ends e origins k) λ s _.
      Ends-bind (If Any) Any _ _ (fetch_csrf_token-Ends e s _) λ token _.
        Ends-bind Any Any _ _ (Ends-time_now e) λ start _. hear_room-Ends e s room start token

  check_watcher-Ends :
      (rooms : List (Room F)) (pad i : ℕ)
      → Hundred rooms
      → pad < 20
      → i ≤ 4
      → Ends Any (check_watcher e origins rooms pad i)
  unfolding check_watcher
  check_watcher-Ends rooms pad i hundred h small =
      Ends-bind Any Any _ _
        (Ends-elem_at rooms (30 + pad + i * 10) (omega (arith, h, small, hundred)))
        λ room _. Ends-bind Any Any _ _ (watch_room-Ends room.id) λ w _.
          Ends-bind Any Any _ _ (Ends-critical_if (not (max_count e 0 w.watcher_count_logs == i)) _)
            λ _ _. Ends-critical_if (not (length w.stroke_logs == room.stroke_count)) _

  check_watchers-Ends :
      (rooms : List (Room F)) (pad i n : ℕ)
      → Hundred rooms
      → pad < 20
      → i ≤ 4
      → Ends Any (check_watchers e origins rooms pad i n)
  unfolding check_watchers
  check_watchers-Ends rooms pad i zero hundred h small = Ends-pure Any tt tt
  check_watchers-Ends rooms pad i (suc n) hundred h small =
      Ends-bind Any Any _ _ (check_watcher-Ends rooms pad i hundred h small)
        λ _ _. check_watchers-Ends rooms pad i n hundred h small

  check_rooms_from-Ends :
      (rooms : List (Room F)) (pad : ℕ) (is : List ℕ)
      → Hundred rooms
      → pad < 20
      → All (λ i. i ≤ 4) is
      → Ends Any (check_rooms_from e origins rooms pad is)
  unfolding check_rooms_from
  check_rooms_from-Ends rooms pad [] hundred h small = Ends-pure Any tt tt
  check_rooms_from-Ends rooms pad (i ∷ is) hundred h small =
      Ends-bind Any Any _ _ (check_watchers-Ends rooms pad i i hundred h small.0)
        λ _ _. check_rooms_from-Ends rooms pad is hundred h small.1

  pub watcher_count_increases-Ends : Ends Any (watcher_count_increases e origins)
  unfolding watcher_count_increases
  watcher_count_increases-Ends = Ends-bind Any Any _ _ (new_session-Ends e origins k) λ s _.
      Ends-bind (If Hundred) Any _ _ (get_rooms_api-Ends e s) λ o q.
        Ends-required Hundred _ o _ q λ rooms hundred.
          Ends-bind (λ i. i < 20) Any _ _ (Ends-rand_int e k.below 20 (omega arith))
            λ pad h.
              check_rooms_from-Ends rooms pad _ hundred h
                (omega arith, (omega arith, (omega arith, (omega arith, (omega arith, tt)))))
