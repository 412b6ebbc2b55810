-- ===== src/Bench/Scenario/Pages.antt =====
-- What bench/scenario/initial_check.go checks of pages: the first page by itself, and the pages
-- against the API. `async_props` is json.Unmarshal of a script without its beginning.
use isucon6_final.Common.{
  ℕ, ◌+◌, ◌-◌, ◌^◌, ◌==◌, Bool, true, false, not, Option, none, some, List, [], ◌∷◌, String, str_eq,
  text_append, has_prefix, ltb, length, if◌then◌else◌,
}
use isucon6_final.Bench.Fails.{Tally, critical, logger_critical}
use isucon6_final.Bench.Adler32.{adler32}
use isucon6_final.Bench.Scenario.{
  Stroke, Room, Response, RoomEntry, Document, Session, Env, Scenario, ◌>>=◌, fetch,
}
use isucon6_final.Bench.Scenario.Checks.{with_document, extract_images}

abbrev pub wrong_page : String
wrong_page = "トップページの内容が正しくありません"

abbrev pub wrong_props : String
wrong_props = "__ASYNC_PROPS__が正しくありません"

abbrev pub too_different : String
too_different = "APIとHTMLの差分が大きすぎます"

-- AttrOr of the first html element.
abbrev pub first_attr : List (Option String) → String
first_attr [] = ""
first_attr (none ∷ ts) = ""
first_attr (some t ∷ ts) = t

-- A check that failed with a critical message.
abbrev pub refuse : {A : Type 0} → String → String → Tally → Option A × Tally
refuse prefix m s = (none, logger_critical prefix m s)

module _ {S F : Type 0} (e : Env S F) where
  -- `roomsMap[id]`: of rooms with one id the last.
  unfoldable pub room_of : String → List (Room F) → Option (Room F)
  room_of id [] = none
  room_of id (r ∷ rs) = later (room_of id rs)
    where
      later : Option (Room F) → Option (Room F)
      later none = if str_eq (e.itoa r.id) id then some r else none
      later (some q) = some q

  unfoldable pub check_entry : List (Room F) → RoomEntry → Tally → Tally
  check_entry rooms entry s = identified entry.id
    where
      found : Option (Room F) → Tally
      found none = critical wrong_page s
      found (some room) =
          if str_eq entry.stroke_count (e.itoa room.stroke_count) then s else critical wrong_page s

      identified : Option String → Tally
      identified none = critical "roomのidがありません" s
      identified (some id) = found (room_of id rooms)

  unfoldable pub check_entries : List (Room F) → List RoomEntry → Tally → Tally
  check_entries rooms [] s = s
  check_entries rooms (x ∷ xs) s = check_entries rooms xs (check_entry rooms x s)

  -- The one element of `__ASYNC_PROPS__`; what is wrong with a room does not fail the check.
  unfoldable pub check_props :
      Document → Option (List (Response F)) → String → Tally → Option (Unit {0}) × Tally
  check_props d none prefix s = refuse prefix wrong_props s
  check_props d (some []) prefix s = refuse prefix wrong_props s
  check_props d (some (r ∷ q ∷ rs)) prefix s = refuse prefix wrong_props s
  check_props d (some (r ∷ [])) prefix s =
      if str_eq (first_attr d.csrf_tokens) r.csrf_token
      then (some tt, check_entries r.rooms d.rooms s)
      else refuse prefix wrong_props s

  -- The digits of the 32 bits, which have a sign.
  abbrev pub signed_text : ℕ → String
  signed_text n = if ltb n (2 ^ 31) then e.itoa n else text_append ("-" ∷ e.itoa (2 ^ 32 - n) ∷ [])

  abbrev pub checksum_of : String → String
  checksum_of markup = signed_text (
      adler32 (
        e.runes
          (text_append ("<div data-reactroot=\"\" data-reactid=\"1\">" ∷ markup ∷ "</div>" ∷ []))))

  unfoldable pub check_markup :
      Document → Option String → String → Tally → Option (Unit {0}) × Tally
  check_markup d none prefix s = refuse prefix wrong_page s
  check_markup d (some markup) prefix s =
      if not (str_eq (checksum_of markup) d.react_checksum)
      then refuse prefix wrong_page s
      else if not (has_prefix d.script "__ASYNC_PROPS__ = ")
      then refuse prefix "__ASYNC_PROPS__がありません" s
      else check_props d (e.async_props d.script) prefix s

  unfoldable pub check_top : Document → String → Tally → Option (Unit {0}) × Tally
  check_top d prefix s =
      if ltb (length (extract_images d)) 100
      then refuse prefix "画像の枚数が少なすぎます" s
      else if not (d.reactids == 1525)
      then refuse prefix wrong_page s
      else check_markup d d.markup prefix s

  -- The map `roomStrokeCounts`.
  abbrev pub assign : ℕ → ℕ → List (ℕ × ℕ) → List (ℕ × ℕ)
  assign id n [] = (id, n) ∷ []
  assign id n ((k, m) ∷ counts) =
      let rest = assign id n counts in if k == id then (k, n) ∷ counts else (k, m) ∷ rest

  abbrev pub count_at : ℕ → List (ℕ × ℕ) → Option ℕ
  count_at id [] = none
  count_at id ((k, m) ∷ counts) = let rest = count_at id counts in if k == id then some m else rest

  unfoldable pub count_entry : RoomEntry → List (ℕ × ℕ) × Tally → List (ℕ × ℕ) × Tally
  count_entry entry (counts, s) = identified entry.id
    where
      counted : ℕ → Option ℕ → List (ℕ × ℕ) × Tally
      counted id none = (counts, critical "stroke_countが数字ではありません" s)
      counted id (some n) = (assign id n counts, s)

      numbered : Option ℕ → List (ℕ × ℕ) × Tally
      numbered none = (counts, critical "roomのidが数字ではありません" s)
      numbered (some id) =
          if str_eq entry.stroke_count ""
          then (counts, critical "stroke_countがありません" s)
          else counted id (e.parse_int entry.stroke_count)

      identified : Option String → List (ℕ × ℕ) × Tally
      identified none = (counts, critical "roomのidがありません" s)
      identified (some id) = numbered (e.parse_int id)

  unfoldable pub count_entries : List RoomEntry → List (ℕ × ℕ) × Tally → List (ℕ × ℕ) × Tally
  count_entries [] p = p
  count_entries (x ∷ xs) p = count_entries xs (count_entry x p)

  unfoldable pub read_counts : Document → String → Tally → Option (List (ℕ × ℕ)) × Tally
  read_counts d prefix s =
      let (counts, t) = count_entries d.rooms ([], s) in
      if not (length counts == 100)
      then (none, critical (text_append ("部屋の数が100件になっていません: " ∷ e.itoa (length counts) ∷ [])) t)
      else (some counts, t)

  -- The rooms of the API against those of the page: `bad` are those that the page does not show.
  unfoldable pub compare_counts : List (Room F) → List (ℕ × ℕ) → ℕ → Tally → Bool × Tally
  compare_counts [] counts bad s =
      if ltb 90 bad then (false, critical too_different s) else (true, s)
  compare_counts (room ∷ rooms) counts bad s =
      compared (count_at room.id counts) (compare_counts rooms counts bad s)
        (compare_counts rooms counts (bad + 1) s)
    where
      compared : Option ℕ → Bool × Tally → Bool × Tally → Bool × Tally
      compared none rest without = without
      compared (some n) rest without =
          if ltb n room.stroke_count then (false, critical too_different s) else rest

  unfoldable pub judge_counts : List (Room F) → Option (List (ℕ × ℕ)) → Scenario S Bool
  judge_counts rooms none r = (some false, r)
  judge_counts rooms (some counts) r =
      let (fine, t) = compare_counts rooms counts 0 r.tally in (some fine, record r { tally = t })

  unfoldable pub compare_to_top_html : Session → List (Room F) → Scenario S Bool
  compare_to_top_html s rooms = do
    counts ← fetch e s "/" (with_document read_counts)
    judge_counts rooms counts

  -- Too few polylines are critical, but do not fail the check.
  unfoldable pub check_polylines :
      List (Stroke F) → Document → String → Tally → Option (Unit {0}) × Tally
  check_polylines strokes d prefix s =
      (some tt, if ltb d.polylines (length strokes) then critical too_different s else s)

  unfoldable pub compare_to_room_html :
      Session → ℕ → List (Stroke F) → Scenario S (Option (Unit {0}))
  compare_to_room_html s room strokes =
      fetch e s (text_append ("/rooms/" ∷ e.itoa room ∷ []))
        (with_document (check_polylines strokes))
