-- ===== src/Bench/Scenario/PageChecks.antt =====
-- The checks of pages never panic and only add to what is counted.
use isucon6_final.Common.{
  ℕ, ◌+◌, refl, Bool, true, false, not, Option, none, some, List, [], ◌∷◌, String, str_eq,
  has_prefix, ltb, length, ◌==◌, if◌then◌else◌, Bool-cases, Option-cases, inl, inr,
}
use isucon6_final.Bench.Fails.{Tally}
use isucon6_final.Bench.Scenario.{Stroke, Room, Response, RoomEntry, Document, Session, Env}
use isucon6_final.Bench.Scenario.Grown.{
  Grown, Grown-refl, Grown-trans, Grown-critical, Grown-logger_critical,
}
use isucon6_final.Bench.Scenario.Ends.{Ends, Any, If, Ends-bind, Ends-fetch}
use isucon6_final.Bench.Scenario.Sound.{Sound, Sound-if, with_document-Checks}
use isucon6_final.Bench.Scenario.Checks.{extract_images}
use isucon6_final.Bench.Scenario.Pages.{
  first_attr, refuse, room_of, check_entry, check_entries, check_props, checksum_of, check_markup,
  check_top, count_at, count_entry, count_entries, read_counts, compare_counts, judge_counts,
  compare_to_top_html, check_polylines, compare_to_room_html,
}

Grown-if :
    (s : Tally) (b : Bool) (x y : Tally) → Grown s x → Grown s y → Grown s (if b then x else y)
Grown-if s true x y h k = h
Grown-if s false x y h k = k

refused-Sound :
    {A : Type 0} (Q : A → Type 0) (prefix m : String) (s : Tally) → Sound Q s (refuse prefix m s)
refused-Sound Q prefix m s = (tt, Grown-logger_critical prefix m s)

module _ {S F : Type 0} (e : Env S F) where
  check_entry-Grown :
      (rooms : List (Room F)) (x : RoomEntry) (s : Tally) → Grown s (check_entry e rooms x s)
  unfolding check_entry
  check_entry-Grown rooms x s = elim (Option-cases x.id) [
    | inl none_given ↦ rw none_given (Grown-critical _ s)
    | inr (id, given) ↦ elim (Option-cases (room_of e id rooms)) [
      | inl unknown ↦ rw (given, unknown) (Grown-critical _ s)
      | inr (room, known) ↦
          rw (given, known)
            (Grown-if s (str_eq x.stroke_count (e.itoa room.stroke_count)) _ _ (Grown-refl s)
              (Grown-critical _ s))
    ]
  ]

  check_entries-Grown :
      (rooms : List (Room F)) (xs : List RoomEntry) (s : Tally)
      → Grown s (check_entries e rooms xs s)
  unfolding check_entries
  check_entries-Grown rooms [] s = Grown-refl s
  check_entries-Grown rooms (x ∷ xs) s =
      Grown-trans _ _ _ (check_entry-Grown rooms x s)
        (check_entries-Grown rooms xs (check_entry e rooms x s))

  check_props-Sound :
      (d : Document) (ps : Option (List (Response F))) (prefix : String) (s : Tally)
      → Sound Any s (check_props e d ps prefix s)
  unfolding check_props
  check_props-Sound d none prefix s = refused-Sound {A = Unit {0}} Any _ _ s
  check_props-Sound d (some []) prefix s = refused-Sound {A = Unit {0}} Any _ _ s
  check_props-Sound d (some (r ∷ q ∷ rs)) prefix s = refused-Sound {A = Unit {0}} Any _ _ s
  check_props-Sound d (some (r ∷ [])) prefix s =
      Sound-if Any s (str_eq (first_attr d.csrf_tokens) r.csrf_token) _ _
        (tt, check_entries-Grown r.rooms d.rooms s) (refused-Sound {A = Unit {0}} Any _ _ s)

  check_markup-Sound :
      (d : Document) (markup : Option String) (prefix : String) (s : Tally)
      → Sound Any s (check_markup e d markup prefix s)
  unfolding check_markup
  check_markup-Sound d none prefix s = refused-Sound {A = Unit {0}} Any _ _ s
  check_markup-Sound d (some markup) prefix s =
      Sound-if Any s (not (str_eq (checksum_of e markup) d.react_checksum)) _ _
        (refused-Sound {A = Unit {0}} Any _ _ s)
        (Sound-if Any s (not (has_prefix d.script "__ASYNC_PROPS__ = ")) _ _
          (refused-Sound {A = Unit {0}} Any _ _ s)
          (check_props-Sound d (e.async_props d.script) prefix s))

  pub check_top-Sound :
      (d : Document) (prefix : String) (s : Tally) → Sound Any s (check_top e d prefix s)
  unfolding check_top
  check_top-Sound d prefix s =
      Sound-if Any s (ltb (length (extract_images d)) 100) _ _
        (refused-Sound {A = Unit {0}} Any _ _ s)
        (Sound-if Any s (not (d.reactids == 1525)) _ _ (refused-Sound {A = Unit {0}} Any _ _ s)
          (check_markup-Sound d d.markup prefix s))

  count_entry-Grown : (x : RoomEntry) (p : List (ℕ × ℕ) × Tally) → Grown p.1 (count_entry e x p).1
  unfolding count_entry
  count_entry-Grown x (counts, s) = elim (Option-cases x.id) [
    | inl none_given ↦ rw none_given (Grown-critical _ s)
    | inr (text, given) ↦ elim (Option-cases (e.parse_int text)) [
      | inl no_number ↦ rw (given, no_number) (Grown-critical _ s)
      | inr (id, number) ↦ elim (Bool-cases (str_eq x.stroke_count "")) [
        | inl empty ↦ rw (given, number, empty) (Grown-critical _ s)
        | inr full ↦ elim (Option-cases (e.parse_int x.stroke_count)) [
          | inl uncounted ↦ rw (given, number, full, uncounted) (Grown-critical _ s)
          | inr (n, counted) ↦ rw (given, number, full, counted) (Grown-refl s)
        ]
      ]
    ]
  ]

  count_entries-Grown :
      (xs : List RoomEntry) (p : List (ℕ × ℕ) × Tally) → Grown p.1 (count_entries e xs p).1
  unfolding count_entries
  count_entries-Grown [] p = Grown-refl p.1
  count_entries-Grown (x ∷ xs) p =
      Grown-trans _ _ _ (count_entry-Grown x p) (count_entries-Grown xs (count_entry e x p))

  read_counts-Sound :
      (d : Document) (prefix : String) (s : Tally) → Sound Any s (read_counts e d prefix s)
  unfolding read_counts
  read_counts-Sound d prefix s =
      let (counts, t) = count_entries e d.rooms ([], s) in
      Sound-if Any s (not (length counts == 100)) _ _
        (tt, Grown-trans _ _ _ (count_entries-Grown d.rooms ([], s)) (Grown-critical _ t))
        (tt, count_entries-Grown d.rooms ([], s))

  compare_counts-Grown :
      (rooms : List (Room F)) (counts : List (ℕ × ℕ)) (bad : ℕ) (s : Tally)
      → Grown s (compare_counts e rooms counts bad s).1
  unfolding compare_counts
  compare_counts-Grown [] counts bad s = elim (Bool-cases (ltb 90 bad)) [
    | inl d ↦ rw d (Grown-critical _ s)
    | inr d ↦ rw d (Grown-refl s)
  ]
  compare_counts-Grown (room ∷ rooms) counts bad s =
      elim (Option-cases (count_at e room.id counts)) [
        | inl missing ↦ rw missing (compare_counts-Grown rooms counts (bad + 1) s)
        | inr (n, found) ↦ elim (Bool-cases (ltb n room.stroke_count)) [
          | inl fewer ↦ rw (found, fewer) (Grown-critical _ s)
          | inr enough ↦ rw (found, enough) (compare_counts-Grown rooms counts bad s)
        ]
      ]

  judge_counts-Ends :
      (rooms : List (Room F)) (counts : Option (List (ℕ × ℕ)))
      → Ends Any (judge_counts e rooms counts)
  unfolding judge_counts
  judge_counts-Ends rooms none = record { at = λ r. (false, refl, tt, Grown-refl r.tally) }
  judge_counts-Ends rooms (some counts) = record {
    at = λ r. (_, refl, tt, compare_counts-Grown rooms counts 0 r.tally);
  }

  pub compare_to_top_html-Ends :
      (s : Session) (rooms : List (Room F)) → Ends Any (compare_to_top_html e s rooms)
  unfolding compare_to_top_html
  compare_to_top_html-Ends s rooms =
      Ends-bind (If Any) Any _ _
        (Ends-fetch e Any s "/" _ (with_document-Checks Any _ read_counts-Sound))
        (λ counts _. judge_counts-Ends rooms counts)

  pub compare_to_room_html-Ends :
      (s : Session) (room : ℕ) (strokes : List (Stroke F))
      → Ends (If Any) (compare_to_room_html e s room strokes)
  unfolding compare_to_room_html check_polylines
  compare_to_room_html-Ends s room strokes = Ends-fetch e Any s _ _ (
      with_document-Checks Any _ (λ d prefix t. (
        tt,
        Grown-if t (ltb d.polylines (length strokes)) _ _ (Grown-critical _ t) (Grown-refl t),
      )))
