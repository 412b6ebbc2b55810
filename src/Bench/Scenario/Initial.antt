-- ===== src/Bench/Scenario/Initial.antt =====
-- The scenarios of bench/scenario/initial_check.go.
use isucon6_final.Common.{
  ℕ, ◌+◌, ◌%◌, ◌==◌, Bool, true, false, not, ◌&&◌, ◌||◌, Option, none, some, List, [], ◌∷◌, String,
  str_eq, ltb, length, drop, if◌then◌else◌,
}
use isucon6_final.Webapp.Schema.{PostedStroke}
use isucon6_final.Bench.Fails.{Tally, logger_critical}
use isucon6_final.Bench.Action.{bad_request_checker}
use isucon6_final.Bench.Matsuri.{second}
use isucon6_final.Bench.Svg.{near_points}
use isucon6_final.Bench.Scenario.{
  Stroke, Document, Session, new_stroke, Env, Scenario, pure, elem_at, fails_critical, when_some,
  required, critical_if, ◌>>=◌, ◌>>◌, rand_int, time_now, new_session, fluctuate, fetch, submit,
}
use isucon6_final.Bench.Scenario.Checks.{
  with_document, extract_images, anything, fetch_csrf_token, make_room, strokes_path, draw_stroke,
  get_rooms_api, get_room_api, image_path, check_reflected, load_static_files,
}
use isucon6_final.Bench.Scenario.Pages.{check_top, compare_to_top_html, compare_to_room_html}

-- 500 milliseconds
abbrev pub half_second : ℕ
half_second = 500000000

abbrev pub is_misdated : ℕ → ℕ → ℕ → Bool
is_misdated before after created =
    ltb (after + half_second) created || ltb (created + half_second) before

abbrev pub lists_image : String → List String → Bool
lists_image image [] = false
lists_image image (i ∷ is) = str_eq i image || lists_image image is

-- The page shows the picture of the room, or does not.
unfoldable pub check_shown : String → Document → String → Tally → Option (Unit {0}) × Tally
check_shown image d prefix s =
    if lists_image image (extract_images d)
    then (some tt, s)
    else (none, logger_critical prefix "投稿が反映されていません" s)

unfoldable pub check_hidden : String → Document → String → Tally → Option (Unit {0}) × Tally
check_hidden image d prefix s =
    if lists_image image (extract_images d)
    then (none, logger_critical prefix "まだ線の無い部屋が表示されています" s)
    else (some tt, s)

abbrev pub no_room : String
no_room = "部屋の作成に失敗しました"

abbrev pub no_stroke : String
no_stroke = "線の投稿に失敗しました"

abbrev pub wrong_time : String
wrong_time = "作成した部屋のcreated_atが正しくありません"

module _ {S F : Type 0} (e : Env S F) where
  -- The strokes after the first: each is drawn, compared with the answer and looked for in the picture.
  -- `no_nano` counts the times without a fraction of a second.
  unfoldable pub draw_rest :
      Session → Session → String → ℕ → ℕ → List (PostedStroke F) → Scenario S (Unit {0})
  draw_rest s1 s2 token room no_nano [] = pure tt
  draw_rest s1 s2 token room no_nano (seed ∷ seeds) = do
    drawn ← fluctuate e seed
    answer ← draw_stroke e s1 token room drawn
    required no_stroke answer λ stroke.
        let whole = (stroke.created_at % second) == 0 in
        let n = if whole then no_nano + 1 else no_nano in
        let rest = draw_rest s1 s2 token room n seeds in
        if not (length stroke.points == length drawn.points)
        then fails_critical "投稿した線が反映されていません"
        else if not (near_points e.far stroke.points drawn.points)
        then fails_critical "投稿が反映されていません（x,yの値が改変されています）"
        else if whole && ltb 2 n
        then fails_critical "秒以下の時刻が記録されていません"
        else do seen ← check_reflected e s2 room stroke.id drawn.points; when_some seen λ _. rest

  -- After the first stroke of the room, which was drawn after `t2`.
  unfoldable pub after_first : Session → Session → String → ℕ → ℕ → Stroke F → Scenario S (Unit {0})
  after_first s1 s2 token room t2 stroke = do
    t3 ← time_now e
    critical_if (is_misdated t2 t3 stroke.created_at) wrong_time
    shown ← fetch e s2 "/" (with_document (check_shown (image_path e room)))
    when_some shown λ _. draw_rest s1 s2 token room 0 (drop 1 (e.get_strokes "stool"))

  unfoldable pub stroke_reflected_to_top : List String → Scenario S (Unit {0})
  stroke_reflected_to_top origins = do
    s1 ← new_session e origins
    s2 ← new_session e origins
    token ← fetch_csrf_token e s1 "/"
    when_some token λ token. do
      t1 ← time_now e
      room ← make_room e s1 token
      required no_room room λ room. do
        t2 ← time_now e
        critical_if (is_misdated t1 t2 room.created_at) wrong_time
        first ← elem_at (e.get_strokes "stool") 0
        drawn ← fluctuate e first
        stroke ← draw_stroke e s1 token room.id drawn
        required no_stroke stroke λ stroke. after_first s1 s2 token room.id t2 stroke

  unfoldable pub room_without_stroke_not_shown_at_top : List String → Scenario S (Unit {0})
  room_without_stroke_not_shown_at_top origins = do
    s1 ← new_session e origins
    s2 ← new_session e origins
    token ← fetch_csrf_token e s1 "/"
    when_some token λ token. do
      room ← make_room e s1 token
      required no_room room
          λ room. do fetch e s2 "/" (with_document (check_hidden (image_path e room.id))); pure tt

  unfoldable pub csrf_token_refreshed : List String → Scenario S (Unit {0})
  csrf_token_refreshed origins = do
    s1 ← new_session e origins
    s2 ← new_session e origins
    token1 ← fetch_csrf_token e s1 "/"
    when_some token1 λ token1. do
      token2 ← fetch_csrf_token e s2 "/"
      when_some token2 λ token2. critical_if (str_eq token1 token2) "csrf_tokenが使いまわされています"

  unfoldable pub cant_draw_first_stroke_on_someone_elses_room : List String → Scenario S (Unit {0})
  cant_draw_first_stroke_on_someone_elses_room origins = do
    s1 ← new_session e origins
    s2 ← new_session e origins
    token1 ← fetch_csrf_token e s1 "/"
    when_some token1 λ token1. do
      room ← make_room e s1 token1
      required no_room room λ room. do
        token2 ← fetch_csrf_token e s2 "/"
        when_some token2 λ token2. do
          first ← elem_at (e.get_strokes "star") 0
          stroke ← fluctuate e first
          refused ←
              submit e bad_request_checker (strokes_path e room.id)
                (new_stroke s2 token2 room.id stroke) anything
          required "他人の作成した部屋に1画目を描くことができました" refused λ _. pure tt

  unfoldable pub top_page_content : List String → Scenario S (Unit {0})
  top_page_content origins = do
    s ← new_session e origins
    fetch e s "/" (with_document (check_top e))
    pure tt

  unfoldable pub check_static_files : List String → Scenario S (Unit {0})
  check_static_files origins = do
    s ← new_session e origins
    fine ← load_static_files e s true
    critical_if (not fine) "静的ファイルが正しくありません"

  unfoldable pub api_and_html_must_be_consistent : List String → Scenario S (Unit {0})
  api_and_html_must_be_consistent origins = do
    s ← new_session e origins
    rooms ← get_rooms_api e s
    required "部屋一覧APIの取得に失敗しました" rooms λ rooms. do
      same ← compare_to_top_html e s rooms
      if not same then pure tt else do
        i ← rand_int e 50
        room ← elem_at rooms (i + 50)
        room2 ← get_room_api e s room.id
        required "部屋APIの取得に失敗しました" room2
            λ room2. do compare_to_room_html e s room2.id room2.strokes; pure tt
