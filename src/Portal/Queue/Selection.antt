-- ===== src/Portal/Queue/Selection.antt =====
-- Which row the SELECT of `dequeueJob` picks.
use isucon6_final.Common.{
  ◌≤◌, ◌<◌, ◌≡◌, ◌≢◌, refl, Bool, true, Option, none, some, List, [], String, arith, ◌↔◌, All,
  All-mono, ◌∷◌, IsIn, leb, Option-cases, inl, inr, subst,
}
use isucon6_final.Sql.{count_rows, order_by, first_row, where_rows}
use isucon6_final.Sql.Counts.{count_rows-eq-zero, count_rows_mono}
use isucon6_final.Sql.Order.{
  first_row-order_by, All-order_by, All-first_row, All-where_rows_of, All-of_where_rows,
  count-same_key, Holds, IsLeast,
}
use isucon6_final.Db.{World, ok, ◌>>=◌}
use isucon6_final.Portal.Schema.{
  Status, waiting, running, done, aborted, QueueRow, Tables, Job, Output,
}
use isucon6_final.Portal.Queue.{claims, save_result, finish_job, next_waiting, is_waiting}

save_result_unchanged :
    (j : Job) (output : Option Output) (tx : Tables) (w : World Tables)
    → (save_result j output tx w).0 ≢ ok tt
    → (save_result j output tx w).1.tables ≡ w.tables
unfolding save_result ◌>>=◌
save_result_unchanged j none tx w h = refl
save_result_unchanged j (some o) tx w h = ground arith

finish_job_unchanged :
    (job : Option Job) (output : Option Output) (stderr : String) (tx : Tables) (w : World Tables)
    → (finish_job job output stderr tx w).0 ≢ ok tt
    → (finish_job job output stderr tx w).1.tables ≡ w.tables
unfolding finish_job ◌>>=◌
finish_job_unchanged none output stderr tx w h = refl
finish_job_unchanged (some j) none stderr tx w h = ground arith
finish_job_unchanged (some j) (some o) stderr tx w h = ground arith

abbrev pub waits : QueueRow → Bool
waits r = is_waiting r.status

next_waiting_where :
    (P : QueueRow → Type 0) (rows : List QueueRow)
    → All (λ r. waits r ≡ true → P r) rows
    → Holds P (next_waiting rows)
unfolding next_waiting
next_waiting_where P rows h =
    All-first_row P (order_by (λ r s. leb r.id s.id) (where_rows waits rows))
      (All-order_by P _ _ (All-where_rows_of (λ (r : QueueRow). r.id) waits P rows h))

next_waiting-IsLeast :
    (rows : List QueueRow)
    → IsLeast (λ (r : QueueRow). r.id) (next_waiting rows) (where_rows waits rows)
unfolding next_waiting
next_waiting-IsLeast rows = first_row-order_by (λ (r : QueueRow). r.id) (where_rows waits rows)

next_waiting-absent : (rows : List QueueRow) → next_waiting rows ≡ none → count_rows waits rows ≡ 0
unfolding first_row
next_waiting-absent rows e =
    let empty : where_rows waits rows ≡ [] =
      subst (λ o. IsLeast (λ (r : QueueRow). r.id) o (where_rows waits rows)) e
        (next_waiting-IsLeast rows) in
    count_rows-eq-zero waits rows (rw empty)

-- The row that `dequeueJob` selects is waiting and stands in the table, and no waiting row has a
-- lower id.
pub next_waiting-some :
    (rows : List QueueRow) (r : QueueRow)
    → next_waiting rows ≡ some r
    → (0 < count_rows (claims r.id) rows) × All (λ s. waits s ≡ true → r.id ≤ s.id) rows
next_waiting-some rows r e = (
  subst (Holds (λ s. 0 < count_rows (claims s.id) rows)) e (
      next_waiting_where (λ s. 0 < count_rows (claims s.id) rows) rows
        (count-same_key (λ (s : QueueRow). s.id) waits rows)),
  All-of_where_rows (λ (s : QueueRow). s.id) waits (λ s. r.id ≤ s.id) rows
      (subst (λ o. IsLeast (λ (s : QueueRow). s.id) o (where_rows waits rows)) e
        (next_waiting-IsLeast rows)),
)

-- The row that `dequeueJob` is to select: a waiting row of the table, and none that waits has a lower
-- id.
pub record IsFirst (rows : List QueueRow) (r : QueueRow) : Type 0 where
  pub stands : IsIn r rows
  pub is_waiting : r.status ≡ waiting
  pub least : All (λ (s : QueueRow). s.status ≡ waiting → r.id ≤ s.id) rows

waits-waiting : (r : QueueRow) → waits r ≡ true → r.status ≡ waiting
waits-waiting r h = cases r.status h
  where
    cases : (s : Status) → is_waiting s ≡ true → s ≡ waiting
    cases waiting h = refl
    cases running h = absurd cc
    cases done h = absurd cc
    cases aborted h = absurd cc

waiting-waits : (r : QueueRow) → r.status ≡ waiting → waits r ≡ true
waiting-waits r h = rw h refl

all_stand :
    (rows : List QueueRow) → All (λ r. waits r ≡ true → IsIn r rows × (r.status ≡ waiting)) rows
all_stand [] = tt
all_stand (r ∷ rows) = (
  λ h. (inl refl, waits-waiting r h),
  All-mono _ _ rows (λ s k h. (inr (k h).0, (k h).1)) (all_stand rows),
)

pub next_waiting-IsFirst :
    (rows : List QueueRow) (r : QueueRow) → next_waiting rows ≡ some r → IsFirst rows r
next_waiting-IsFirst rows r e =
    let (there, waits_on) =
      subst (Holds (λ s. IsIn s rows × (s.status ≡ waiting))) e
        (next_waiting_where (λ s. IsIn s rows × (s.status ≡ waiting)) rows (all_stand rows)) in
    record {
      stands = there;
      is_waiting = waits_on;
      least = All-mono _ _ rows (λ s k h. k (waiting-waits s h)) (next_waiting-some rows r e).1;
    }

-- `dequeueJob` selects no row exactly if none is waiting.
pub next_waiting-none :
    (rows : List QueueRow) → (next_waiting rows ≡ none) ↔ (count_rows waits rows ≡ 0)
next_waiting-none rows = (next_waiting-absent rows, absent)
  where
    absent : count_rows waits rows ≡ 0 → next_waiting rows ≡ none
    absent h = elim (Option-cases (next_waiting rows)) [
      | inl e ↦ e
      | inr (r, e) ↦ absurd (
          omega (
            arith,
            (next_waiting-some rows r e).0,
            count_rows_mono (claims r.id) waits rows (λ s. ground arith),
          ))
    ]
