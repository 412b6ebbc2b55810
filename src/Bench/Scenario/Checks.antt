-- ===== src/Bench/Scenario/Checks.antt =====
-- The requests that the scenarios share (bench/scenario/misc.go) and the check of the static files
-- (bench/scenario/static_file.go).
use isucon6_final.Common.{
  ℕ, ◌==◌, Bool, true, false, not, ◌&&◌, ◌||◌, Option, none, some, List, [], ◌∷◌, String, str_eq,
  text_append, length, if◌then◌else◌,
}
use isucon6_final.Webapp.Schema.{PostedPoint, PostedStroke}
use isucon6_final.Bench.Fails.{Tally, logger_add}
use isucon6_final.Bench.Action.{ok_checker}
use isucon6_final.Bench.Svg.{PolyLine, check_picture}
use isucon6_final.Bench.Scenario.{
  Stroke, Room, Response, Document, Body, Session, new_room, new_stroke, Env, Scenario, pure, ◌>>=◌,
  is_some, Check, is_over, fetch, submit,
}

module _ {F A : Type 0} where
  -- makeDocument, and what a check does with the page.
  abbrev pub with_document : (Document → String → Tally → Option A × Tally) → Check F A
  with_document f b prefix s = parsed b.document
    where
      parsed : Option Document → Option A × Tally
      parsed none = (none, logger_add prefix "ページのHTMLがパースできませんでした" s)
      parsed (some d) = f d prefix s

  -- A body that is decoded as JSON; `told` is what is said of one that is none.
  abbrev pub with_json : String → (Response F → String → Tally → Option A × Tally) → Check F A
  with_json told f b prefix s = parsed b.json
    where
      parsed : Option (Response F) → Option A × Tally
      parsed none = (none, logger_add prefix told s)
      parsed (some r) = f r prefix s

  -- parseResponseJSON, which reads the body first.
  abbrev pub with_response : String → (Response F → String → Tally → Option A × Tally) → Check F A
  with_response told f b prefix s =
      if b.is_read
      then with_json told f b prefix s
      else (none, logger_add prefix "レスポンス内容が読み込めませんでした" s)

-- The last html element with the attribute decides.
abbrev pub last_attr : String → List (Option String) → String
last_attr token [] = token
last_attr token (none ∷ ts) = last_attr token ts
last_attr token (some t ∷ ts) = last_attr t ts

unfoldable pub extract_csrf_token : Document → String → Tally → Option String × Tally
extract_csrf_token d prefix s =
    let token = last_attr "" d.csrf_tokens in
    if str_eq token "" then (none, logger_add prefix "トークンが取得できませんでした" s) else (some token, s)

abbrev pub present : List (Option String) → List String
present [] = []
present (none ∷ more) = present more
present (some a ∷ more) = a ∷ present more

abbrev pub extract_images : Document → List String
extract_images d = present d.image_sources

abbrev pub no_json : String
no_json = "レスポンスのJSONがパースできませんでした: "

abbrev pub wrong_answer : String
wrong_answer = "レスポンス内容が正しくありません"

-- A member of the answer that is not nil, nor empty in the sense of the test.
unfoldable pub filled : {A : Type 0} → (A → Bool) → Option A → String → Tally → Option A × Tally
filled is_empty none prefix s = (none, logger_add prefix wrong_answer s)
filled is_empty (some a) prefix s =
    if is_empty a then (none, logger_add prefix wrong_answer s) else (some a, s)

module _ {F : Type 0} where
  -- The room or the stroke of an answer, with an id above 0.
  abbrev pub check_room : Response F → String → Tally → Option (Room F) × Tally
  check_room res = filled (λ (room : Room F). room.id == 0) res.room

  abbrev pub check_stroke : Response F → String → Tally → Option (Stroke F) × Tally
  check_stroke res = filled (λ (stroke : Stroke F). stroke.id == 0) res.stroke

  -- A room with a stroke.
  abbrev pub check_drawn : Response F → String → Tally → Option (Room F) × Tally
  check_drawn res = filled (λ (room : Room F). length room.strokes == 0) res.room

  unfoldable pub check_rooms :
      (ℕ → String) → Response F → String → Tally → Option (List (Room F)) × Tally
  check_rooms itoa res prefix s =
      if not (length res.rooms == 100)
      then (
        none,
        logger_add prefix (text_append ("部屋の数が100件になっていません: " ∷ itoa (length res.rooms) ∷ [])) s,
      )
      else (some res.rooms, s)

  abbrev pub anything : Check F (Unit {0})
  anything b prefix s = (some tt, s)

  -- The file can be read, and is the one that is expected where that is checked.
  unfoldable pub check_file : Bool → String → Check F (Unit {0})
  check_file check_hash md5 b prefix s =
      if not b.is_read
      then (none, logger_add prefix "ファイルの読み込みに失敗しました" s)
      else if check_hash && not (str_eq b.md5 md5)
      then (none, logger_add prefix "ファイルの内容が正しくありません" s)
      else (some tt, s)

module _ {S F : Type 0} (e : Env S F) where
  unfoldable pub fetch_csrf_token : Session → String → Scenario S (Option String)
  fetch_csrf_token s path = fetch e s path (with_document extract_csrf_token)

  unfoldable pub make_room : Session → String → Scenario S (Option (Room F))
  make_room s token =
      submit e ok_checker "/api/rooms" (new_room s token) (with_response wrong_answer check_room)

  abbrev pub strokes_path : ℕ → String
  strokes_path room = text_append ("/api/strokes/rooms/" ∷ e.itoa room ∷ [])

  unfoldable pub draw_stroke :
      Session → String → ℕ → PostedStroke F → Scenario S (Option (Stroke F))
  draw_stroke s token room stroke =
      submit e ok_checker (strokes_path room) (new_stroke s token room stroke)
        (with_response wrong_answer check_stroke)

  unfoldable pub get_rooms_api : Session → Scenario S (Option (List (Room F)))
  get_rooms_api s = fetch e s "/api/rooms" (with_response no_json (check_rooms e.itoa))

  unfoldable pub get_room_api : Session → ℕ → Scenario S (Option (Room F))
  get_room_api s room =
      fetch e s (text_append ("/api/rooms/" ∷ e.itoa room ∷ [])) (with_response no_json check_drawn)

  -- checkStrokeReflectedToSVG
  abbrev pub read_picture : Body F → Option (Option (List (PolyLine F)))
  read_picture b = if b.is_read then some b.picture else none

  abbrev pub as_value : Bool × Tally → Option (Unit {0}) × Tally
  as_value (true, s) = (some tt, s)
  as_value (false, s) = (none, s)

  abbrev pub check_svg : ℕ → List (PostedPoint F) → Check F (Unit {0})
  check_svg stroke points b prefix s =
      as_value (check_picture e.far (read_picture b) (e.itoa stroke) points prefix s)

  abbrev pub image_path : ℕ → String
  image_path room = text_append ("/img/" ∷ e.itoa room ∷ [])

  unfoldable pub check_reflected :
      Session → ℕ → ℕ → List (PostedPoint F) → Scenario S (Option (Unit {0}))
  check_reflected s room stroke points = fetch e s (image_path room) (check_svg stroke points)

  -- One request after another; all are made, and the failure of one is the result.
  unfoldable pub load_all : Session → List (String × Check F (Unit {0})) → Scenario S Bool
  load_all s [] = pure true
  load_all s ((path, c) ∷ rest) = do
    one ← fetch e s path c
    more ← load_all s rest
    pure (is_some one && more)

  -- loadImages does not wait for the requests that it has started last: a failure counts only where
  -- the request is over before the function returns.
  unfoldable pub load_images : Session → List String → Scenario S Bool
  load_images s [] = pure true
  load_images s (image ∷ images) = do
    one ← fetch e s image anything
    over ← is_over e
    more ← load_images s images
    pure ((is_some one || not over) && more)

  unfoldable pub load_static_files : Session → Bool → Scenario S Bool
  load_static_files s check_hash = load_all s (
      ("/css/rc-color-picker.css", check_file check_hash "78055c5c02a2dd66f6207fa19f7ca928")
      ∷ ("/css/sanitize.css", check_file check_hash "7375990d0f1f7d436a952314e3ac7fd0")
      ∷ ("/bundle.js", check_file check_hash "b1070be102c1f9d5aaace9300fe6f193")
      ∷ [])
