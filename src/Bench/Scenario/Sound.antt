-- ===== src/Bench/Scenario/Sound.antt =====
-- The requests and the checks of the scenarios never panic, whatever a site answers.
use isucon6_final.Common.{
  ℕ, ◌≡◌, Bool, true, false, ◌&&◌, not, Option, none, some, List, [], ◌∷◌, String, str_eq, ◌==◌,
  length, Bool-cases, inl, inr, if◌then◌else◌, arith,
}
use isucon6_final.Webapp.Schema.{PostedPoint, PostedStroke}
use isucon6_final.Bench.Fails.{Tally, logger_add}
use isucon6_final.Bench.Svg.{PolyLine, check_points, check_lines, check_picture, near_points}
use isucon6_final.Bench.Scenario.{
  Room, Response, Document, Session, Env, Scenario, pure, ◌>>=◌, is_some, fetch,
}
use isucon6_final.Bench.Scenario.Grown.{Grown, Grown-refl, Grown-logger_add, Grown-logger_critical}
use isucon6_final.Bench.Scenario.Ends.{
  Ends, Any, If, Checks, Ends-pure, Ends-bind, Ends-fetch, Ends-submit, Ends-is_over,
}
use isucon6_final.Bench.Scenario.Checks.{
  with_document, with_json, with_response, last_attr, extract_csrf_token, filled, check_rooms,
  anything, check_file, fetch_csrf_token, make_room, draw_stroke, get_rooms_api, get_room_api,
  read_picture, as_value, check_reflected, load_all, load_images, load_static_files,
}

-- What is found and how the tally has grown.
abbrev pub Sound : {A : Type 0} → (A → Type 0) → Tally → Option A × Tally → Type 0
Sound Q s (v, t) = If Q v × Grown s t

pub Sound-if :
    {A : Type 0} (Q : A → Type 0) (s : Tally) (b : Bool) (x y : Option A × Tally)
    → Sound Q s x
    → Sound Q s y
    → Sound Q s (if b then x else y)
Sound-if Q s true x y h k = h
Sound-if Q s false x y h k = k

module _ {F A : Type 0} (Q : A → Type 0) where
  pub with_document-Checks :
      (f : Document → String → Tally → Option A × Tally)
      → ((d : Document) (prefix : String) (s : Tally) → Sound Q s (f d prefix s))
      → Checks {F = F} Q (with_document f)
  with_document-Checks f k = record { at = λ b prefix s. one b.document prefix s }
    where
      one :
          (d : Option Document) (prefix : String) (s : Tally)
          → Sound Q s (elim d [
            | none ↦ (none, logger_add prefix "ページのHTMLがパースできませんでした" s)
            | some d ↦ f d prefix s
          ])
      one none prefix s = (tt, Grown-logger_add _ _ s)
      one (some d) prefix s = k d prefix s

  pub with_json-Checks :
      (told : String) (f : Response F → String → Tally → Option A × Tally)
      → ((res : Response F) (prefix : String) (s : Tally) → Sound Q s (f res prefix s))
      → Checks {F = F} Q (with_json told f)
  with_json-Checks told f k = record { at = λ b prefix s. one b.json prefix s }
    where
      one :
          (r : Option (Response F)) (prefix : String) (s : Tally)
          → Sound Q s (elim r [ none ↦ (none, logger_add prefix told s) | some r ↦ f r prefix s ])
      one none prefix s = (tt, Grown-logger_add _ _ s)
      one (some r) prefix s = k r prefix s

  pub with_response-Checks :
      (told : String) (f : Response F → String → Tally → Option A × Tally)
      → ((res : Response F) (prefix : String) (s : Tally) → Sound Q s (f res prefix s))
      → Checks {F = F} Q (with_response told f)
  with_response-Checks told f k = record {
    at = λ b prefix s.
        Sound-if Q s b.is_read _ _ ((with_json-Checks told f k).at b prefix s)
          (tt, Grown-logger_add _ _ s);
  }

extract_csrf_token-Sound :
    (d : Document) (prefix : String) (s : Tally) → Sound Any s (extract_csrf_token d prefix s)
unfolding extract_csrf_token
extract_csrf_token-Sound d prefix s =
    Sound-if Any s (str_eq (last_attr "" d.csrf_tokens) "") _ _ (tt, Grown-logger_add _ _ s)
      (tt, Grown-refl s)

filled-Sound :
    {A : Type 0} (is_empty : A → Bool) (o : Option A) (prefix : String) (s : Tally)
    → Sound Any s (filled is_empty o prefix s)
unfolding filled
filled-Sound is_empty none prefix s = (tt, Grown-logger_add _ _ s)
filled-Sound is_empty (some a) prefix s =
    Sound-if Any s (is_empty a) _ _ (tt, Grown-logger_add _ _ s) (tt, Grown-refl s)

abbrev pub Hundred : {F : Type 0} → List (Room F) → Type 0
Hundred rooms = length rooms ≡ 100

module _ {F : Type 0} where
  pub check_rooms-Sound :
      (itoa : ℕ → String) (res : Response F) (prefix : String) (s : Tally)
      → Sound Hundred s (check_rooms itoa res prefix s)
  unfolding check_rooms
  check_rooms-Sound itoa res prefix s = elim (Bool-cases (length res.rooms == 100)) [
    | inl e ↦ rw e (ground (arith, e), Grown-refl s)
    | inr e ↦ rw e (tt, Grown-logger_add _ _ s)
  ]

  pub anything-Checks : Checks {F = F} Any anything
  anything-Checks = record { at = λ b prefix s. (tt, Grown-refl s) }

  check_file-Checks :
      (check_hash : Bool) (md5 : String) → Checks {F = F} Any (check_file check_hash md5)
  unfolding check_file
  check_file-Checks check_hash md5 = record {
    at = λ b prefix s.
        Sound-if Any s (not b.is_read) _ _ (tt, Grown-logger_add _ _ s)
          (Sound-if Any s (check_hash && not (str_eq b.md5 md5)) _ _ (tt, Grown-logger_add _ _ s)
            (tt, Grown-refl s));
  }

abbrev Judged : Tally → Bool × Tally → Type 0
Judged s p = Grown s p.1

module _ {F : Type 0} (far : F → F → Bool) where
  check_points-Judged :
      (prefix : String) (ps qs : List (PostedPoint F)) (s : Tally)
      → Judged s (check_points far prefix ps qs s)
  unfolding check_points
  check_points-Judged prefix ps qs s = elim (Bool-cases (length ps == length qs)) [
    | inr e ↦ rw e (Grown-logger_critical _ _ s)
    | inl e ↦ elim (Bool-cases (near_points far ps qs)) [
      | inl d ↦ rw (e, d) (Grown-refl s)
      | inr d ↦ rw (e, d) (Grown-logger_critical _ _ s)
    ]
  ]

  check_lines-Judged :
      (prefix id : String) (ps : List (PostedPoint F)) (ls : List (PolyLine F)) (s : Tally)
      → Judged s (check_lines far prefix id ps ls s)
  unfolding check_lines
  check_lines-Judged prefix id ps [] s = Grown-logger_critical _ _ s
  check_lines-Judged prefix id ps (l ∷ ls) s = elim (Bool-cases (str_eq l.id id)) [
    | inl e ↦ rw e (check_points-Judged prefix ps l.points s)
    | inr e ↦ rw e (check_lines-Judged prefix id ps ls s)
  ]

  check_picture-Judged :
      (body : Option (Option (List (PolyLine F)))) (id : String) (ps : List (PostedPoint F))
      (prefix : String) (s : Tally)
      → Judged s (check_picture far body id ps prefix s)
  unfolding check_picture
  check_picture-Judged none id ps prefix s = Grown-logger_critical _ _ s
  check_picture-Judged (some none) id ps prefix s = Grown-logger_critical _ _ s
  check_picture-Judged (some (some ls)) id ps prefix s = check_lines-Judged prefix id ps ls s

module _ {S F : Type 0} (e : Env S F) where
  pub fetch_csrf_token-Ends :
      (s : Session) (path : String) → Ends (If Any) (fetch_csrf_token e s path)
  unfolding fetch_csrf_token
  fetch_csrf_token-Ends s path =
      Ends-fetch e Any s path _ (with_document-Checks Any _ extract_csrf_token-Sound)

  pub make_room-Ends : (s : Session) (token : String) → Ends (If Any) (make_room e s token)
  unfolding make_room
  make_room-Ends s token =
      Ends-submit e Any 200 _ _ _ (with_response-Checks Any _ _ (λ res. filled-Sound _ res.room))

  pub draw_stroke-Ends :
      (s : Session) (token : String) (room : ℕ) (stroke : PostedStroke F)
      → Ends (If Any) (draw_stroke e s token room stroke)
  unfolding draw_stroke
  draw_stroke-Ends s token room stroke =
      Ends-submit e Any 200 _ _ _ (with_response-Checks Any _ _ (λ res. filled-Sound _ res.stroke))

  pub get_rooms_api-Ends : (s : Session) → Ends (If Hundred) (get_rooms_api e s)
  unfolding get_rooms_api
  get_rooms_api-Ends s =
      Ends-fetch e Hundred s _ _ (with_response-Checks Hundred _ _ (check_rooms-Sound e.itoa))

  pub get_room_api-Ends : (s : Session) (room : ℕ) → Ends (If Any) (get_room_api e s room)
  unfolding get_room_api
  get_room_api-Ends s room =
      Ends-fetch e Any s _ _ (with_response-Checks Any _ _ (λ res. filled-Sound _ res.room))

  as_value-Sound : (s : Tally) (p : Bool × Tally) → Judged s p → Sound Any s (as_value e p)
  as_value-Sound s (true, t) h = (tt, h)
  as_value-Sound s (false, t) h = (tt, h)

  pub check_reflected-Ends :
      (s : Session) (room stroke : ℕ) (points : List (PostedPoint F))
      → Ends (If Any) (check_reflected e s room stroke points)
  unfolding check_reflected
  check_reflected-Ends s room stroke points = Ends-fetch e Any s _ _ (record {
    at = λ b prefix t.
        as_value-Sound t _
          (check_picture-Judged e.far (read_picture e b) (e.itoa stroke) points prefix t);
  })

  pub load_images-Ends : (s : Session) (images : List String) → Ends Any (load_images e s images)
  unfolding load_images
  load_images-Ends s [] = Ends-pure Any true tt
  load_images-Ends s (image ∷ images) =
      Ends-bind (If Any) Any _ _ (Ends-fetch e Any s image _ anything-Checks) λ one _.
        Ends-bind Any Any _ _ (Ends-is_over e)
          λ over _. Ends-bind Any Any _ _ (load_images-Ends s images) λ more _. Ends-pure Any _ tt

  pub load_static_files-Ends :
      (s : Session) (check_hash : Bool) → Ends Any (load_static_files e s check_hash)
  unfolding load_static_files load_all
  load_static_files-Ends s check_hash = file "78055c5c02a2dd66f6207fa19f7ca928" _ _ (
      file "7375990d0f1f7d436a952314e3ac7fd0" _ _
        (file "b1070be102c1f9d5aaace9300fe6f193" _ _ (Ends-pure Any true tt)))
    where
      file :
          (md5 path : String) (rest : Scenario S Bool)
          → Ends Any rest
          → Ends Any (do
            one ← fetch e s path (check_file check_hash md5)
            more ← rest
            pure (is_some one && more))
      file md5 path rest k =
          Ends-bind (If Any) Any _ _ (Ends-fetch e Any s path _ (check_file-Checks check_hash md5))
            λ one _. Ends-bind Any Any _ _ k λ more _. Ends-pure Any _ tt
