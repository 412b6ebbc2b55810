-- ===== src/Bench/Fails.antt =====
-- What the benchmarker counts against a contestant and for him (bench/fails/fails.go and
-- bench/score/score.go). sort.Strings orders texts by a total order, which is a parameter. What is
-- printed to the standard error is left out. One operation runs at a time, as the locks see to.
mod Tests
use isucon6_final.Common.{
  ℕ, ◌+◌, ◌≡◌, sym, refl, ◌∙◌, Bool, true, false, not, ◌&&◌, ◌||◌, All, All-mono, subst, List, [],
  ◌∷◌, ◌++◌, String, str_eq, text_append, if◌then◌else◌, arith, Bool-cases, inl, inr, eq_iff,
}
use isucon6_final.Sql.{count_rows, order_by, insert_row}
use isucon6_final.Sql.Order.{All-insert_row}

-- The variables of both packages.
pub record Tally : Type 0 where
  pub msgs : List String
  pub is_critical : Bool
  pub score : ℕ

abbrev pub add : String → Tally → Tally
add msg s = record s { msgs = s.msgs ++ msg ∷ [] }

unfoldable pub critical : String → Tally → Tally
critical msg s = record (add (text_append (msg ∷ " (critical)" ∷ [])) s) { is_critical = true }

-- The methods of `Logger`: the second leaves the prefix out.
unfoldable pub logger_add : String → String → Tally → Tally
logger_add prefix msg s = add (text_append (prefix ∷ msg ∷ [])) s

unfoldable pub logger_critical : String → String → Tally → Tally
logger_critical prefix msg s = critical msg s

abbrev pub increment : ℕ → Tally → Tally
increment point s = record s { score = s.score + point }

-- The loop of `GetUnique`: `tmp` is the message before.
unfoldable pub drop_repeats : String → List String → List String
drop_repeats tmp [] = []
drop_repeats tmp (m ∷ ms) =
    let same = str_eq tmp m in
    let rest = drop_repeats (if same then tmp else m) ms in if same then rest else m ∷ rest

module _ (le : String → String → Bool) where
  -- It also sorts the slice that `msgs` is: the two share their elements.
  unfoldable pub get_unique : Tally → List String × Tally
  get_unique s =
      let sorted = order_by le s.msgs in (drop_repeats "" sorted, record s { msgs = sorted })

abbrev pub lists : String → List String → Bool
lists m [] = false
lists m (n ∷ ns) = str_eq m n || lists m ns

module _ (m : String) where
  lists-insert_row :
      (le : String → String → Bool) (n : String) (ns : List String)
      → lists m (insert_row le n ns) ≡ lists m (n ∷ ns)
  unfolding insert_row
  lists-insert_row le n [] = refl
  lists-insert_row le n (k ∷ ns) = ground (arith, lists-insert_row le n ns)

  lists-order_by :
      (le : String → String → Bool) (ns : List String) → lists m (order_by le ns) ≡ lists m ns
  unfolding order_by
  lists-order_by le [] = refl
  lists-order_by le (n ∷ ns) =
      lists-insert_row le n (order_by le ns) ∙ rw (lists-order_by le ns) refl

-- The order of texts that sort.Strings sorts by.
pub record IsTextOrder (le : String → String → Bool) : Type 0 where
  pub total : (a b : String) → le a b ≡ false → le b a ≡ true
  pub chain : (a b c : String) → le a b ≡ true → le b c ≡ true → le a c ≡ true
  pub antisym : (a b : String) → le a b ≡ true → le b a ≡ true → a ≡ b
  pub empty_first : (a : String) → le "" a ≡ true

module _ (le : String → String → Bool) (o : IsTextOrder le) where
  abbrev IsSorted : List String → Type 0
  IsSorted [] = Unit {0}
  IsSorted (n ∷ ns) = All (λ k. le n k ≡ true) ns × IsSorted ns

  insert_row-IsSorted :
      (n : String) (ns : List String) → IsSorted ns → IsSorted (insert_row le n ns)
  unfolding insert_row
  insert_row-IsSorted n [] h = (tt, tt)
  insert_row-IsSorted n (k ∷ ns) h = elim (Bool-cases (le n k)) [
    | inl e ↦ rw e ((e, All-mono _ _ ns (λ x l. o.chain n k x e l) h.0), h)
    | inr e ↦ rw e (
      All-insert_row (λ x. le k x ≡ true) le n ns (o.total n k e) h.0,
      insert_row-IsSorted n ns h.1,
    )
  ]

  order_by-IsSorted : (ns : List String) → IsSorted (order_by le ns)
  unfolding order_by
  order_by-IsSorted [] = tt
  order_by-IsSorted (n ∷ ns) = insert_row-IsSorted n (order_by le ns) (order_by-IsSorted ns)

  All-lists :
      (P : String → Type 0) (m : String) (ns : List String) → lists m ns ≡ true → All P ns → P m
  All-lists P m [] h a = absurd cc
  All-lists P m (n ∷ ns) h a = elim (Bool-cases (str_eq m n)) [
    | inl same ↦ subst P (sym ((eq_iff m n).0 same)) a.0
    | inr other ↦ All-lists P m ns (ground (arith, h, other)) a.1
  ]

  -- A message that stands after a greater one is not there.
  not_later :
      (tmp n : String) (ns : List String)
      → str_eq tmp n ≡ false
      → le tmp n ≡ true
      → All (λ k. le n k ≡ true) ns
      → lists tmp ns ≡ false
  not_later tmp n ns other before h = elim (Bool-cases (lists tmp ns)) [
    | inl e ↦
        let same : tmp ≡ n = o.antisym tmp n before (All-lists (λ k. le n k ≡ true) tmp ns e h) in
        absurd (let t : str_eq tmp n ≡ true = (eq_iff tmp n).1 same in cc)
    | inr e ↦ e
  ]

  count-drop_repeats :
      (m tmp : String) (ns : List String)
      → All (λ k. le tmp k ≡ true) ns
      → IsSorted ns
      → count_rows (str_eq m) (drop_repeats tmp ns)
        ≡ (if lists m ns && not (str_eq m tmp) then 1 else 0)
  unfolding drop_repeats count_rows
  count-drop_repeats m tmp [] a h = refl
  count-drop_repeats m tmp (n ∷ ns) a h = elim (Bool-cases (str_eq tmp n)) [
    | inl same ↦
        let e : tmp ≡ n = (eq_iff tmp n).0 same in
        rw (same, sym e) ground (arith, count-drop_repeats m tmp ns a.1 h.1)
    | inr other ↦
        let absent = not_later tmp n ns other a.0 h.0 in
        let rest = count-drop_repeats m n ns h.0 h.1 in
        rw other (elim (Bool-cases (str_eq m tmp)) [
          | inl at ↦
              let e : m ≡ tmp = (eq_iff m tmp).0 at in
              let gone : lists m ns ≡ false = subst (λ x. lists x ns ≡ false) (sym e) absent in
              let apart : str_eq m n ≡ false = subst (λ x. str_eq x n ≡ false) (sym e) other in
              ground (arith, rest, at, gone, apart)
          | inr off ↦ ground (arith, rest, off)
        ])
  ]

-- With the order of texts that sort.Strings sorts by, `GetUnique` returns every message that was
-- added exactly once, but for the empty message, which it leaves out, and nothing else.
pub count_rows-get_unique :
    (le : String → String → Bool) (s : Tally) (m : String)
    → IsTextOrder le
    → count_rows (str_eq m) (get_unique le s).0
      ≡ (if lists m s.msgs && not (str_eq m "") then 1 else 0)
unfolding get_unique
count_rows-get_unique le s m o =
    count-drop_repeats le o m "" (order_by le s.msgs) (below (order_by le s.msgs))
      (order_by-IsSorted le o s.msgs)
    ∙ rw (lists-order_by m le s.msgs) refl
  where
    below : (ns : List String) → All (λ k. le "" k ≡ true) ns
    below [] = tt
    below (n ∷ ns) = (o.empty_first n, below ns)
