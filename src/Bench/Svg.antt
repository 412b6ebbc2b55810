-- ===== src/Bench/Svg.antt =====
-- The pictures that the benchmarker checks (bench/svg/parse.go, and checkStrokeReflectedToSVG of
-- bench/scenario/misc.go). The XML decoder, strings.Split, strconv.ParseFloat and the arithmetic of
-- floats are parameters: a picture comes as the polylines that the decoder finds.
use isucon6_final.Common.{
  ℕ, ◌≡◌, refl, Bool, true, false, Option, none, some, List, [], ◌∷◌, String, not, text_append,
  str_eq, ◌==◌, length, Bool-cases, inl, inr, if◌then◌else◌,
}
use isucon6_final.Bench.Fails.{Tally, logger_critical, critical}
use isucon6_final.Bench.Action.{Outcome, ok_checker, get}
use isucon6_final.Webapp.Schema.{PostedPoint}

pub record RawLine : Type 0 where
  pub id : String
  pub points_raw : String

pub record PolyLine (F : Type 0) : Type 0 where
  pub id : String
  pub points : List (PostedPoint F)

abbrev pub consed : {A : Type 0} → Option A → Option (List A) → Option (List A)
consed none rest = none
consed (some a) none = none
consed (some a) (some rest) = some (a ∷ rest)

module _ {F : Type 0} (split : String → String → List String)
    (parse_float : String → Option F) where
  abbrev pub point_of : Option F → Option F → Option (PostedPoint F)
  point_of none y = none
  point_of (some x) none = none
  point_of (some x) (some y) = some (record { x = x; y = y })

  -- Less than two parts are an error.
  unfoldable pub parse_parts : List String → Option (PostedPoint F)
  parse_parts [] = none
  parse_parts (x ∷ []) = none
  parse_parts (x ∷ y ∷ more) = point_of (parse_float x) (parse_float y)

  unfoldable pub parse_points : List String → Option (List (PostedPoint F))
  parse_points [] = some []
  parse_points (s ∷ ss) = consed (parse_parts (split s ",")) (parse_points ss)

  abbrev pub line_of : String → Option (List (PostedPoint F)) → Option (PolyLine F)
  line_of id none = none
  line_of id (some ps) = some (record { id = id; points = ps })

  unfoldable pub parse_lines : List RawLine → Option (List (PolyLine F))
  parse_lines [] = some []
  parse_lines (l ∷ ls) =
      consed (line_of l.id (parse_points (split l.points_raw " "))) (parse_lines ls)

  -- `decode` is xml.Unmarshal, with no value for an error.
  unfoldable pub parse : {A : Type 0} → (A → Option (List RawLine)) → A → Option (List (PolyLine F))
  unfolding parse_lines
  parse decode text = decoded (decode text)
    where
      decoded : Option (List RawLine) → Option (List (PolyLine F))
      decoded none = none
      decoded (some ls) = parse_lines ls

-- `far a b` is whether two coordinates differ by more than 0.1.
module _ {F : Type 0} (far : F → F → Bool) where
  -- The loop over points, of lists of one length.
  unfoldable pub near_points : List (PostedPoint F) → List (PostedPoint F) → Bool
  near_points [] qs = true
  near_points (p ∷ ps) [] = true
  near_points (p ∷ ps) (q ∷ qs) =
      let rest = near_points ps qs in
      if far p.x q.x then false else if far p.y q.y then false else rest

  unfoldable pub check_points :
      String → List (PostedPoint F) → List (PostedPoint F) → Tally → Bool × Tally
  check_points prefix ps qs s =
      if not (length ps == length qs)
      then (false, logger_critical prefix "投稿が反映されていません（pointが足りません）" s)
      else if near_points ps qs
      then (true, s)
      else (false, logger_critical prefix "投稿が反映されていません（x,yの値が改変されています）" s)

  -- The first polyline with the id of the stroke decides.
  unfoldable pub check_lines :
      String → String → List (PostedPoint F) → List (PolyLine F) → Tally → Bool × Tally
  check_lines prefix id ps [] s = (false, logger_critical prefix "投稿が反映されていません" s)
  check_lines prefix id ps (l ∷ ls) s =
      let rest = check_lines prefix id ps ls s in
      if str_eq l.id id then check_points prefix ps l.points s else rest

  -- The body of the answer cannot be read, or is no picture, or is one.
  unfoldable pub check_picture :
      Option (Option (List (PolyLine F)))
      → String
      → List (PostedPoint F)
      → String
      → Tally
      → Bool × Tally
  check_picture none id ps prefix s = (false, logger_critical prefix "内容が読み込めませんでした" s)
  check_picture (some none) id ps prefix s = (false, logger_critical prefix "SVGがパースできませんでした" s)
  check_picture (some (some ls)) id ps prefix s = check_lines prefix id ps ls s

  unfoldable pub check_stroke_reflected :
      (ℕ → String)
      → ℕ
      → ℕ
      → List (PostedPoint F)
      → Outcome
      → Option (Option (List (PolyLine F)))
      → Tally
      → Bool × Tally
  check_stroke_reflected itoa room stroke ps outcome body =
      get itoa (text_append ("/img/" ∷ itoa room ∷ [])) outcome
        (ok_checker (check_picture body (itoa stroke) ps))

  -- A check that is not passed is critical, and one that is passed changes nothing.
  abbrev pub Decides : Tally → Bool × Tally → Type 0
  Decides s (true, t) = t ≡ s
  Decides s (false, t) = t.is_critical ≡ true

  check_points-Decides :
      (prefix : String) (ps qs : List (PostedPoint F)) (s : Tally)
      → Decides s (check_points prefix ps qs s)
  unfolding check_points logger_critical critical
  check_points-Decides prefix ps qs s = elim (Bool-cases (length ps == length qs)) [
    | inr differ ↦ rw differ refl
    | inl same ↦ elim (Bool-cases (near_points ps qs)) [
      | inl near ↦ rw (same, near) refl
      | inr moved ↦ rw (same, moved) refl
    ]
  ]

  check_lines-Decides :
      (prefix id : String) (ps : List (PostedPoint F)) (ls : List (PolyLine F)) (s : Tally)
      → Decides s (check_lines prefix id ps ls s)
  unfolding check_lines logger_critical critical
  check_lines-Decides prefix id ps [] s = refl
  check_lines-Decides prefix id ps (l ∷ ls) s = elim (Bool-cases (str_eq l.id id)) [
    | inl this ↦ rw this (check_points-Decides prefix ps l.points s)
    | inr other ↦ rw other (check_lines-Decides prefix id ps ls s)
  ]

  -- Whatever the answer holds, a picture that does not pass is a critical failure, and one that passes
  -- changes nothing.
  pub check_picture-Decides :
      (body : Option (Option (List (PolyLine F)))) (id : String) (ps : List (PostedPoint F))
      (prefix : String) (s : Tally)
      → Decides s (check_picture body id ps prefix s)
  unfolding check_picture logger_critical critical
  check_picture-Decides none id ps prefix s = refl
  check_picture-Decides (some none) id ps prefix s = refl
  check_picture-Decides (some (some ls)) id ps prefix s = check_lines-Decides prefix id ps ls s

module _ {F : Type 0} (split : String → String → List String)
    (parse_float : String → Option F) where
  -- A polyline without points makes the whole picture an error, if a text without a separator is its
  -- only part.
  pub parse_lines-empty :
      (l : RawLine) (ls : List RawLine)
      → split l.points_raw " " ≡ "" ∷ []
      → split "" "," ≡ "" ∷ []
      → parse_lines split parse_float (l ∷ ls) ≡ none
  unfolding parse_lines parse_points parse_parts
  parse_lines-empty l ls h k = rw (h, k) refl
