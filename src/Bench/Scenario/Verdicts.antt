-- ===== src/Bench/Scenario/Verdicts.antt =====
-- When the checks of pages pass.
use isucon6_final.Common.{
  ℕ, ◌+◌, ◌≤◌, ◌≡◌, refl, sym, ◌∙◌, ap, Bool, true, false, ◌&&◌, not, Option, none, some, List, [],
  ◌∷◌, String, str_eq, has_prefix, ltb, length, ◌==◌, if◌then◌else◌, Bool-cases, Option-cases, inl,
  inr, arith, eq_iff, text_append,
}
use isucon6_final.Sql.{count_rows}
use isucon6_final.Bench.Fails.{Tally}
use isucon6_final.Bench.Adler32.Plain.{plain_adler32, adler32-plain}
use isucon6_final.Bench.Scenario.{Room, Response, Document, Env}
use isucon6_final.Bench.Scenario.Checks.{extract_images}
use isucon6_final.Bench.Scenario.Pages.{
  first_attr, check_props, signed_text, checksum_of, check_markup, check_top, count_at,
  compare_counts,
}

-- A check that goes on, and one that ends, with a value.
passed :
    (b : Bool) (x y : Option (Unit {0}) × Tally)
    → x.0 ≡ none
    → (if b then x else y).0 ≡ some tt
    → (b ≡ false) × (y.0 ≡ some tt)
passed true x y h k = absurd cc
passed false x y h k = (refl, k)

chosen :
    (b : Bool) (x y : Option (Unit {0}) × Tally)
    → y.0 ≡ none
    → (if b then x else y).0 ≡ some tt
    → b ≡ true
chosen true x y h k = refl
chosen false x y h k = absurd cc

module _ {S F : Type 0} (e : Env S F) where
  -- The page shows the room with fewer strokes than the API said before.
  abbrev pub lags : List (ℕ × ℕ) → Room F → Bool
  lags counts room = fewer (count_at e room.id counts)
    where
      fewer : Option ℕ → Bool
      fewer none = false
      fewer (some n) = ltb n room.stroke_count

  abbrev pub is_unshown : List (ℕ × ℕ) → Room F → Bool
  is_unshown counts room = lacks (count_at e room.id counts)
    where
      lacks : Option ℕ → Bool
      lacks none = true
      lacks (some n) = false

  compare_counts-from :
      (rooms : List (Room F)) (counts : List (ℕ × ℕ)) (bad : ℕ) (s : Tally)
      → (compare_counts e rooms counts bad s).0 ≡ (
          (count_rows (lags counts) rooms == 0)
          && not (ltb 90 (bad + count_rows (is_unshown counts) rooms)))
  unfolding compare_counts count_rows
  compare_counts-from [] counts bad s = ground arith
  compare_counts-from (room ∷ rooms) counts bad s =
      elim (Option-cases (count_at e room.id counts)) [
        | inl missing ↦ rw missing (ground (arith, compare_counts-from rooms counts (bad + 1) s))
        | inr (n, found) ↦ elim (Bool-cases (ltb n room.stroke_count)) [
          | inl fewer ↦ rw (found, fewer) (ground arith)
          | inr enough ↦ rw (found, enough) (ground (arith, compare_counts-from rooms counts bad s))
        ]
      ]

  -- The comparison of the API with the first page passes exactly if the page shows no room with
  -- fewer strokes than the API told before, and at most 90 rooms of the API are not on the page.
  pub compare_counts-eq :
      (rooms : List (Room F)) (counts : List (ℕ × ℕ)) (s : Tally)
      → (compare_counts e rooms counts 0 s).0 ≡ (
          (count_rows (lags counts) rooms == 0)
          && not (ltb 90 (count_rows (is_unshown counts) rooms)))
  compare_counts-eq rooms counts s = ground (arith, compare_counts-from rooms counts 0 s)

  -- What the first page must be to pass.
  pub record IsTop (d : Document) : Type 0 where
    pub many_images : 100 ≤ length (extract_images d)
    pub reactids : d.reactids ≡ 1525
    pub markup :
        (text : String) × (d.markup ≡ some text)
        × (d.react_checksum
            ≡ signed_text e (
                plain_adler32 (
                  e.runes (
                    text_append
                      ("<div data-reactroot=\"\" data-reactid=\"1\">" ∷ text ∷ "</div>" ∷ [])))))
    pub props :
        (r : Response F) × (e.async_props d.script ≡ some (r ∷ []))
        × (first_attr d.csrf_tokens ≡ r.csrf_token)

  check_props-one :
      (d : Document) (ps : Option (List (Response F))) (prefix : String) (s : Tally)
      → (check_props e d ps prefix s).0 ≡ some tt
      → (r : Response F) × (ps ≡ some (r ∷ [])) × (first_attr d.csrf_tokens ≡ r.csrf_token)
  unfolding check_props
  check_props-one d none prefix s h = absurd cc
  check_props-one d (some []) prefix s h = absurd cc
  check_props-one d (some (r ∷ q ∷ rs)) prefix s h = absurd cc
  check_props-one d (some (r ∷ [])) prefix s h = (
    r,
    refl,
    (eq_iff (first_attr d.csrf_tokens) r.csrf_token).0
        (chosen (str_eq (first_attr d.csrf_tokens) r.csrf_token) _ _ refl h),
  )

  check_markup-IsTop :
      (d : Document) (markup : Option String) (prefix : String) (s : Tally)
      → 100 ≤ length (extract_images d)
      → d.reactids ≡ 1525
      → d.markup ≡ markup
      → (check_markup e d markup prefix s).0 ≡ some tt
      → IsTop d
  unfolding check_markup
  check_markup-IsTop d none prefix s many ids same h = absurd cc
  check_markup-IsTop d (some text) prefix s many ids same h =
      let (summed, after) =
        passed (not (str_eq (checksum_of e text) d.react_checksum)) _ _ refl h in
      let (begins, last) = passed (not (has_prefix d.script "__ASYNC_PROPS__ = ")) _ _ refl after in
      record {
        many_images = many;
        reactids = ids;
        markup = (
          text,
          same,
          sym ((eq_iff (checksum_of e text) d.react_checksum).0 (ground (arith, summed)))
              ∙ ap (signed_text e) (adler32-plain _),
        );
        props = check_props-one d (e.async_props d.script) prefix s last;
      }

  -- A first page that passes has at least 100 pictures, 1525 elements with a data-reactid, the plain
  -- Adler-32 of its markup as the checksum, and one set of properties, with the token of the page.
  pub check_top-IsTop :
      (d : Document) (prefix : String) (s : Tally) → (check_top e d prefix s).0 ≡ some tt → IsTop d
  unfolding check_top
  check_top-IsTop d prefix s h =
      let (many, after) = passed (ltb (length (extract_images d)) 100) _ _ refl h in
      let (ids, last) = passed (not (d.reactids == 1525)) _ _ refl after in
      check_markup-IsTop d d.markup prefix s (ground (arith, many)) (ground (arith, ids)) refl last
