-- ===== src/Bench/Fails/Tests.antt =====
-- Runs of the tally, and its theorem at a concrete input.
use Prim.Native.Char.{code}
use Prim.Native.String.{◌∷◌ as char_before, [] as no_char}
use text.Mathlib.TextEquality.{Char-path}
use isucon6_final.Common.{
  ◌≡◌, refl, Bool, true, false, not, ◌&&◌, [], ◌∷◌, String, str_eq, ltb, ◌==◌, arith, if◌then◌else◌,
}
use isucon6_final.Sql.{count_rows, order_by, insert_row}
use isucon6_final.Bench.Fails.{
  Tally, get_unique, drop_repeats, lists, IsTextOrder, count_rows-get_unique,
}

abbrev keep_order : String → String → Bool
keep_order a b = true

abbrev two_kinds : Tally
two_kinds = record { msgs = "late" ∷ "late" ∷ "wrong" ∷ []; is_critical = false; score = 0 }

each_once : (get_unique keep_order two_kinds).0 ≡ "late" ∷ "wrong" ∷ []
unfolding get_unique drop_repeats order_by insert_row
each_once = refl

-- Texts by the numbers of their characters.
unfoldable text_le : String → String → Bool
text_le no_char t = true
text_le (char_before c s) no_char = false
text_le (char_before c s) (char_before d t) =
    let rest = text_le s t in
    if ltb (code c) (code d) then true else if code c == code d then rest else false

text_le_total : (s t : String) → text_le s t ≡ false → text_le t s ≡ true
unfolding text_le
text_le_total no_char t h = absurd cc
text_le_total (char_before c s) no_char h = refl
text_le_total (char_before c s) (char_before d t) h = ground (arith, h, text_le_total s t)

text_le_chain : (s t u : String) → text_le s t ≡ true → text_le t u ≡ true → text_le s u ≡ true
unfolding text_le
text_le_chain no_char t u h k = refl
text_le_chain (char_before c s) no_char u h k = absurd cc
text_le_chain (char_before c s) (char_before d t) no_char h k = absurd cc
text_le_chain (char_before c s) (char_before d t) (char_before e u) h k =
    ground (arith, h, k, text_le_chain s t u)

text_le_antisym : (s t : String) → text_le s t ≡ true → text_le t s ≡ true → s ≡ t
unfolding text_le
text_le_antisym no_char no_char h k = refl
text_le_antisym no_char (char_before d t) h k = absurd cc
text_le_antisym (char_before c s) no_char h k = absurd cc
text_le_antisym (char_before c s) (char_before d t) h k =
    let same : code c ≡ code d = ground (arith, h, k) in
    let first : c ≡ d = Char-path c d same in
    let rest : s ≡ t = text_le_antisym s t (ground (arith, h, same)) (ground (arith, k, same)) in
    ap2 first rest
  where
    ap2 : c ≡ d → s ≡ t → char_before c s ≡ char_before d t
    ap2 p q = λ i. char_before (p i) (q i)

text_le-IsTextOrder : IsTextOrder text_le
unfolding text_le
text_le-IsTextOrder = record {
  total = text_le_total;
  chain = text_le_chain;
  antisym = text_le_antisym;
  empty_first = λ a. refl;
}

count_rows-get_unique_example :
    count_rows (str_eq "late") (get_unique text_le two_kinds).0
    ≡ (if lists "late" two_kinds.msgs && not (str_eq "late" "") then 1 else 0)
count_rows-get_unique_example = count_rows-get_unique text_le two_kinds "late" text_le-IsTextOrder
