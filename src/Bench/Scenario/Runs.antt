-- ===== src/Bench/Scenario/Runs.antt =====
-- The scenarios never panic, whatever a site answers: every access to a list is within its bounds.
use isucon6_final.Common.{
  ℕ, zero, suc, ◌+◌, ◌%◌, ◌<◌, ◌≡◌, refl, true, not, some, List, [], ◌∷◌, String, str_eq, ◌==◌,
  length, drop, get_elem?, All, if◌then◌else◌, arith,
}
use isucon6_final.Webapp.Schema.{PostedStroke}
use isucon6_final.Bench.Fails.{Tally}
use isucon6_final.Bench.Svg.{near_points}
use isucon6_final.Bench.Matsuri.{second}
use isucon6_final.Bench.Scenario.{
  Stroke, Room, Document, Session, Url, Env, Scenario, elem_at, ◌>>=◌, random_origin, open_session,
  new_session, when_some, required,
}
use isucon6_final.Bench.Scenario.Grown.{Grown-refl, Grown-logger_critical}
use isucon6_final.Bench.Scenario.Ends.{
  Ends, Any, If, Below, Ends-pure, Ends-elem_at, Ends-bind, Ends-when_some, Ends-required, Ends-if,
  Ends-critical_if, Ends-fails_critical, Ends-rand_int, Ends-time_now, Ends-fluctuate, Ends-fetch,
  Ends-submit,
}
use isucon6_final.Bench.Scenario.Sound.{
  Sound, Sound-if, Hundred, with_document-Checks, anything-Checks, fetch_csrf_token-Ends,
  make_room-Ends, draw_stroke-Ends, get_rooms_api-Ends, get_room_api-Ends, check_reflected-Ends,
  load_static_files-Ends,
}
use isucon6_final.Bench.Scenario.PageChecks.{
  check_top-Sound, compare_to_top_html-Ends, compare_to_room_html-Ends,
}
use isucon6_final.Bench.Scenario.Checks.{extract_images, fetch_csrf_token, make_room}
use isucon6_final.Bench.Scenario.Initial.{
  lists_image, check_shown, check_hidden, draw_rest, stroke_reflected_to_top,
  room_without_stroke_not_shown_at_top, csrf_token_refreshed,
  cant_draw_first_stroke_on_someone_elses_room, top_page_content, check_static_files,
  api_and_html_must_be_consistent, is_misdated, no_stroke, after_first,
}

module _ {A : Type 0} {P : A → Type 0} where
  get_elem?-All :
      (xs : List A) (i : ℕ) → All P xs → i < length xs → (a : A) × (get_elem? xs i ≡ some a) × P a
  get_elem?-All [] i k h = absurd (omega (arith, h))
  get_elem?-All (x ∷ xs) zero k h = (x, refl, k.0)
  get_elem?-All (x ∷ xs) (suc i) k h = get_elem?-All xs i k.1 (omega (arith, h))

module _ {S F : Type 0} (e : Env S F) where
  -- Each origin is a URL.
  abbrev pub IsUrl : String → Type 0
  IsUrl o = (u : Url) × (e.parse_url o ≡ some u)

  -- There is an origin, and each is a URL; a random number is below its bound; there are strokes.
  pub record Ready (origins : List String) : Type 0 where
    pub some_origin : 0 < length origins
    pub urls : All IsUrl origins
    pub below : Below e
    pub stool : 0 < length (e.get_strokes "stool")
    pub star : 0 < length (e.get_strokes "star")
    pub www : 0 < length (e.get_strokes "www")

  open_session-Ends : (o : String) → IsUrl o → Ends Any (open_session e o)
  unfolding open_session
  open_session-Ends o (u, h) = record { at = λ r. rw h (_, refl, tt, Grown-refl r.tally) }

module _ {S F : Type 0} (e : Env S F) (origins : List String) (k : Ready e origins) where
  origin_at-Ends : (i : ℕ) → i < length origins → Ends {S = S} (IsUrl e) (elem_at origins i)
  unfolding elem_at
  origin_at-Ends i h = record {
    at = λ r.
        let (o, found, url) = get_elem?-All origins i k.urls h in
        (o, found, url, Grown-refl r.tally);
  }

  pub new_session-Ends : Ends Any (new_session e origins)
  unfolding new_session random_origin
  new_session-Ends =
      Ends-bind (IsUrl e) Any _ _
        (Ends-bind (λ i. i < length origins) (IsUrl e) _ _
          (Ends-rand_int e k.below (length origins) k.some_origin) origin_at-Ends)
        (open_session-Ends e)

  -- The token of a page.
  pub token-Ends :
      (s : Session) (path : String) (f : String → Scenario S (Unit {0}))
      → ((token : String) → Ends Any (f token))
      → Ends Any (fetch_csrf_token e s path >>= λ t. when_some t f)
  token-Ends s path f h =
      Ends-bind (If Any) Any _ _ (fetch_csrf_token-Ends e s path)
        λ t q. Ends-when_some Any t f q λ token _. h token

  -- A new room.
  pub room-Ends :
      (s : Session) (token m : String) (f : Room F → Scenario S (Unit {0}))
      → ((room : Room F) → Ends Any (f room))
      → Ends Any (make_room e s token >>= λ o. required m o f)
  room-Ends s token m f h =
      Ends-bind (If Any) Any _ _ (make_room-Ends e s token)
        λ o q. Ends-required Any m o f q λ room _. h room

  sessions-Ends :
      (f : Session → Session → Scenario S (Unit {0}))
      → ((s1 s2 : Session) → Ends Any (f s1 s2))
      → Ends Any (new_session e origins >>= λ s1. new_session e origins >>= f s1)
  sessions-Ends f h =
      Ends-bind Any Any _ _ new_session-Ends
        λ s1 _. Ends-bind Any Any _ _ new_session-Ends λ s2 _. h s1 s2

  pub csrf_token_refreshed-Ends : Ends Any (csrf_token_refreshed e origins)
  unfolding csrf_token_refreshed
  csrf_token_refreshed-Ends = sessions-Ends _ λ s1 s2.
      token-Ends s1 "/" _
        λ token1. token-Ends s2 "/" _ λ token2. Ends-critical_if (str_eq token1 token2) _

  check_hidden-Sound :
      (image : String) (d : Document) (prefix : String) (s : Tally)
      → Sound Any s (check_hidden image d prefix s)
  unfolding check_hidden
  check_hidden-Sound image d prefix s =
      Sound-if Any s (lists_image image (extract_images d)) _ _ (tt, Grown-logger_critical _ _ s)
        (tt, Grown-refl s)

  check_shown-Sound :
      (image : String) (d : Document) (prefix : String) (s : Tally)
      → Sound Any s (check_shown image d prefix s)
  unfolding check_shown
  check_shown-Sound image d prefix s =
      Sound-if Any s (lists_image image (extract_images d)) _ _ (tt, Grown-refl s)
        (tt, Grown-logger_critical _ _ s)

  pub room_without_stroke_not_shown_at_top-Ends :
      Ends Any (room_without_stroke_not_shown_at_top e origins)
  unfolding room_without_stroke_not_shown_at_top
  room_without_stroke_not_shown_at_top-Ends = sessions-Ends _ λ s1 s2. token-Ends s1 "/" _ λ token.
      room-Ends s1 token _ _ λ room.
        Ends-bind (If Any) Any _ _
          (Ends-fetch e Any s2 "/" _ (with_document-Checks Any _ (check_hidden-Sound _)))
          λ _ _. Ends-pure Any tt tt

  pub cant_draw_first_stroke_on_someone_elses_room-Ends :
      Ends Any (cant_draw_first_stroke_on_someone_elses_room e origins)
  unfolding cant_draw_first_stroke_on_someone_elses_room
  cant_draw_first_stroke_on_someone_elses_room-Ends = sessions-Ends _ λ s1 s2.
      token-Ends s1 "/" _ λ token1. room-Ends s1 token1 _ _ λ room. token-Ends s2 "/" _ λ token2.
        Ends-bind Any Any _ _ (Ends-elem_at _ 0 k.star) λ first _.
          Ends-bind Any Any _ _ (Ends-fluctuate e first) λ stroke _.
            Ends-bind (If Any) Any _ _ (Ends-submit e Any 400 _ _ _ anything-Checks)
              λ refused q. Ends-required Any _ refused _ q λ _ _. Ends-pure Any tt tt

  pub top_page_content-Ends : Ends Any (top_page_content e origins)
  unfolding top_page_content
  top_page_content-Ends = Ends-bind Any Any _ _ new_session-Ends λ s _.
      Ends-bind (If Any) Any _ _
        (Ends-fetch e Any s "/" _ (with_document-Checks Any _ (check_top-Sound e)))
        λ _ _. Ends-pure Any tt tt

  pub check_static_files-Ends : Ends Any (check_static_files e origins)
  unfolding check_static_files
  check_static_files-Ends = Ends-bind Any Any _ _ new_session-Ends λ s _.
      Ends-bind Any Any _ _ (load_static_files-Ends e s true)
        λ fine _. Ends-critical_if (not fine) _

  pub api_and_html_must_be_consistent-Ends : Ends Any (api_and_html_must_be_consistent e origins)
  unfolding api_and_html_must_be_consistent
  api_and_html_must_be_consistent-Ends = Ends-bind Any Any _ _ new_session-Ends λ s _.
      Ends-bind (If Hundred) Any _ _ (get_rooms_api-Ends e s) λ o q.
        Ends-required Hundred _ o _ q λ rooms hundred.
          Ends-bind Any Any _ _ (compare_to_top_html-Ends e s rooms) λ same _.
            Ends-if (not same) _ _ (Ends-pure Any tt tt) (
              Ends-bind (λ i. i < 50) Any _ _ (Ends-rand_int e k.below 50 (omega arith))
                λ i h.
                  Ends-bind Any Any _ _ (Ends-elem_at rooms (i + 50) (omega (arith, h, hundred)))
                    λ room _. Ends-bind (If Any) Any _ _ (get_room_api-Ends e s room.id) λ o q.
                      Ends-required Any _ o _ q λ room2 _.
                        Ends-bind (If Any) Any _ _
                          (compare_to_room_html-Ends e s room2.id room2.strokes)
                          λ _ _. Ends-pure Any tt tt)

  draw_rest-Ends :
      (s1 s2 : Session) (token : String) (room no_nano : ℕ) (seeds : List (PostedStroke F))
      → Ends Any (draw_rest e s1 s2 token room no_nano seeds)
  unfolding draw_rest
  draw_rest-Ends s1 s2 token room no_nano [] = Ends-pure Any tt tt
  draw_rest-Ends s1 s2 token room no_nano (seed ∷ seeds) =
      Ends-bind Any Any _ _ (Ends-fluctuate e seed) λ drawn _.
        Ends-bind (If Any) Any _ _ (draw_stroke-Ends e s1 token room drawn) λ answer q.
          Ends-required Any _ answer _ q λ stroke _.
            Ends-if (not (length stroke.points == length drawn.points)) _ _ (Ends-fails_critical _)
              (Ends-if (not (near_points e.far stroke.points drawn.points)) _ _
                (Ends-fails_critical _)
                (Ends-if _ _ _ (Ends-fails_critical _) (
                  Ends-bind (If Any) Any _ _ (check_reflected-Ends e s2 room stroke.id drawn.points)
                    λ seen r. Ends-when_some Any seen _ r λ _ _.
                      draw_rest-Ends s1 s2 token room
                        (if (stroke.created_at % second) == 0 then no_nano + 1 else no_nano)
                        seeds)))

  after_first-Ends :
      (s1 s2 : Session) (token : String) (room t2 : ℕ) (stroke : Stroke F)
      → Ends Any (after_first e s1 s2 token room t2 stroke)
  unfolding after_first
  after_first-Ends s1 s2 token room t2 stroke = Ends-bind Any Any _ _ (Ends-time_now e) λ t3 _.
      Ends-bind Any Any _ _ (Ends-critical_if (is_misdated t2 t3 stroke.created_at) _) λ _ _.
        Ends-bind (If Any) Any _ _
          (Ends-fetch e Any s2 "/" _ (with_document-Checks Any _ (check_shown-Sound _)))
          λ shown q.
            Ends-when_some Any shown _ q
              λ _ _. draw_rest-Ends s1 s2 token room 0 (drop 1 (e.get_strokes "stool"))

  pub stroke_reflected_to_top-Ends : Ends Any (stroke_reflected_to_top e origins)
  unfolding stroke_reflected_to_top
  stroke_reflected_to_top-Ends = sessions-Ends _ λ s1 s2. token-Ends s1 "/" _ λ token.
      Ends-bind Any Any _ _ (Ends-time_now e) λ t1 _. room-Ends s1 token _ _ λ room.
        Ends-bind Any Any _ _ (Ends-time_now e) λ t2 _.
          Ends-bind Any Any _ _ (Ends-critical_if (is_misdated t1 t2 room.created_at) _) λ _ _.
            Ends-bind Any Any _ _ (Ends-elem_at _ 0 k.stool) λ first _.
              Ends-bind Any Any _ _ (Ends-fluctuate e first) λ drawn _.
                Ends-bind (If Any) Any _ _ (draw_stroke-Ends e s1 token room.id drawn) λ o q.
                  Ends-required Any no_stroke o _ q
                    λ stroke _. after_first-Ends s1 s2 token room.id t2 stroke
