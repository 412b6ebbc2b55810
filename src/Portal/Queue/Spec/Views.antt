-- ===== src/Portal/Queue/Spec/Views.antt =====
-- What the three changes of the tables in portal/queue.go do to the queue that they stand for.
use isucon6_final.Common.{
  ℕ, ◌+◌, ◌≤◌, ◌<◌, ◌≡◌, ◌≢◌, refl, sym, subst, ap, ◌∙◌, fun_ext, Bool, true, false, ◌&&◌, not,
  none, some, inl, inr, List, [], ◌∷◌, ◌++◌, map, arith, ◌==◌, leb, if◌then◌else◌, All, All-mono,
  Bool-cases, String,
}
use isucon6_final.Sql.{where_rows, count_rows, order_by, update_rows, first_row}
use isucon6_final.Sql.Counts.{
  count_rows-insert, count_rows_mono, count_rows-update_same, count_rows-update_sub,
}
use isucon6_final.Sql.Sorted.{count-order_by}
use isucon6_final.Sql.Selected.{
  where_rows-insert, order_by-insert, where_rows-update, where_rows-first, where_rows-all,
  All-of_count_zero, count_rows-where_rows, count_rows-same, where_rows-order_by,
}
use isucon6_final.Sql.Order.{All-where_rows_of, All-where_rows, All-order_by}
use isucon6_final.Portal.Schema.{waiting, QueueRow, Tables, Job, Output}
use isucon6_final.Portal.Queue.{
  holds, claims, finishes, start_row, finish_row, insert_queue, insert_result, next_waiting,
}
use isucon6_final.Portal.Queue.Spec.{
  Ticket, same_ticket, IsIdle, ticket_of, score_of, is_waiting_row, view,
}

abbrev by_id : QueueRow → QueueRow → Bool
by_id r s = leb r.id s.id

map-insert :
    {A B : Type 0} (f : A → B) (xs : List A) (x : A) → map f (xs ++ x ∷ []) ≡ map f xs ++ f x ∷ []
map-insert f [] x = refl
map-insert f (y ∷ xs) x = ap (λ ys. f y ∷ ys) (map-insert f xs x)

-- The waiting rows, in the order of their ids.
abbrev pub in_line : List QueueRow → List QueueRow
in_line rows = order_by by_id (where_rows is_waiting_row rows)

-- A row that an INSERT adds.
abbrev new_row : ℕ → ℕ → Tables → QueueRow
new_row team now t = record {
  id = t.next_queue;
  team_id = team;
  status = waiting;
  bench_node = none;
  stderr = none;
  created_at = now;
  updated_at = now;
}

in_line-insert :
    (t : Tables) (row : QueueRow)
    → All (λ r. r.id < row.id) t.queues
    → is_waiting_row row ≡ true
    → in_line (t.queues ++ row ∷ []) ≡ in_line t.queues ++ row ∷ []
in_line-insert t row fresh e =
    ap (order_by by_id) (where_rows-insert is_waiting_row t.queues row e)
    ∙ order_by-insert by_id (where_rows is_waiting_row t.queues) row (
        All-where_rows_of (λ (r : QueueRow). r.id) is_waiting_row (λ r. by_id r row ≡ true) t.queues
          (All-mono _ _ t.queues (λ r h _. ground arith) fresh))

pub view-insert_queue :
    (team now : ℕ) (t : Tables)
    → All (λ r. r.id < t.next_queue) t.queues
    → view (insert_queue team now t) ≡ record (view t) {
      waiting = (view t).waiting ++ record { id = t.next_queue; team_id = team } ∷ [];
    }
unfolding view insert_queue
view-insert_queue team now t fresh =
    let row : QueueRow = new_row team now t in
    let runs : (λ (u : Ticket). count_rows (finishes u.id u.team_id) (t.queues ++ row ∷ []))
        ≡ (λ (u : Ticket). count_rows (finishes u.id u.team_id) t.queues) =
      fun_ext (λ u. ground (arith, count_rows-insert (finishes u.id u.team_id) t.queues row)) in
    rw (in_line-insert t row fresh refl, map-insert ticket_of (in_line t.queues) row, runs) refl

head_of :
    {A : Type 0} (xs : List A) (r : A) → first_row xs ≡ some r → (rest : List A) × (xs ≡ r ∷ rest)
unfolding first_row
head_of [] r h = absurd (cc)
head_of (x ∷ xs) r h = (xs, ground arith)

-- The rows that wait behind the one that is taken have other ids.
pub record Line (rows : List QueueRow) (r : QueueRow) : Type 0 where
  pub rest : List QueueRow
  pub line : in_line rows ≡ r ∷ rest
  pub claimed : claims r.id r ≡ true
  pub others : count_rows (claims r.id) rest ≡ 0

count-in_line :
    (p : QueueRow → Bool) (rows : List QueueRow)
    → ((s : QueueRow) → p s ≡ true → is_waiting_row s ≡ true)
    → count_rows p (in_line rows) ≡ count_rows p rows
count-in_line p rows h =
    count-order_by p by_id (where_rows is_waiting_row rows)
    ∙ count_rows-where_rows is_waiting_row p rows
    ∙ count_rows-same (λ s. is_waiting_row s && p s) p rows (λ s. ground (arith, h s))

pub next_waiting-Line :
    (rows : List QueueRow) (r : QueueRow)
    → next_waiting rows ≡ some r
    → count_rows (claims r.id) rows ≡ 1
    → Line rows r
unfolding next_waiting count_rows
next_waiting-Line rows r h one =
    let (rest, line) = head_of (in_line rows) r h in
    let waits : All (λ s. is_waiting_row s ≡ true) (r ∷ rest) =
      subst (All (λ s. is_waiting_row s ≡ true)) line
        (All-order_by _ by_id _ (All-where_rows is_waiting_row rows)) in
    let claimed : claims r.id r ≡ true = ground (arith, waits.0) in
    let total : count_rows (claims r.id) (r ∷ rest) ≡ 1 =
      ap (count_rows (claims r.id)) (sym line)
      ∙ count-in_line (claims r.id) rows (λ s. ground arith)
      ∙ one in
    record { rest = rest; line = line; claimed = claimed; others = ground arith }

in_line-leave :
    (p : QueueRow → Bool) (f : QueueRow → QueueRow) (rows : List QueueRow)
    → ((r : QueueRow) → is_waiting_row (f r) ≡ false)
    → in_line (update_rows p f rows) ≡ where_rows (λ r. not (p r)) (in_line rows)
in_line-leave p f rows h =
    ap (order_by by_id) (where_rows-update p is_waiting_row f rows h)
    ∙ sym (
        where_rows-order_by (λ (r : QueueRow). r.id) (λ r. not (p r))
          (where_rows is_waiting_row rows))

-- An UPDATE whose rows come to meet a condition that they did not meet.
count_rows-update_add :
    (p q : QueueRow → Bool) (f : QueueRow → QueueRow) (rows : List QueueRow)
    → ((r : QueueRow) → p r ≡ true → q r ≡ false)
    → count_rows q (update_rows p f rows)
      ≡ count_rows (λ r. p r && q (f r)) rows + count_rows q rows
unfolding count_rows update_rows
count_rows-update_add p q f [] h = refl
count_rows-update_add p q f (r ∷ rows) h = ground (arith, h r, count_rows-update_add p q f rows h)

running-taken :
    (node : String) (now : ℕ) (rows : List QueueRow) (r : QueueRow) (l : Line rows r) (u : Ticket)
    → count_rows (finishes u.id u.team_id) (update_rows (claims r.id) (start_row node now) rows)
      ≡ (if same_ticket (ticket_of r) u then 1 else 0) + count_rows (finishes u.id u.team_id) rows
unfolding count_rows
running-taken node now rows r l u =
    let taken_one : QueueRow → Bool =
      λ s. claims r.id s && ((s.id == u.id) && (s.team_id == u.team_id)) in
    let grown : count_rows (finishes u.id u.team_id)
          (update_rows (claims r.id) (start_row node now) rows)
        ≡ count_rows (λ s. claims r.id s && finishes u.id u.team_id (start_row node now s)) rows
          + count_rows (finishes u.id u.team_id) rows =
      count_rows-update_add (claims r.id) (finishes u.id u.team_id) (start_row node now) rows
        (λ s. ground arith) in
    let same : count_rows (λ s. claims r.id s && finishes u.id u.team_id (start_row node now s))
          rows
        ≡ count_rows taken_one rows =
      count_rows-same _ taken_one rows (λ s. ground arith) in
    let in_front : count_rows taken_one rows ≡ count_rows taken_one (r ∷ l.rest) =
      sym (count-in_line taken_one rows (λ s. ground arith)) ∙ ap (count_rows taken_one) l.line in
    let behind : count_rows taken_one l.rest ≤ count_rows (claims r.id) l.rest =
      count_rows_mono taken_one (claims r.id) l.rest (λ s. ground arith) in
    ground (arith, l.claimed, l.others)

pub view-taken :
    (node : String) (now : ℕ) (t : Tables) (r : QueueRow) (l : Line t.queues r)
    → view (record t { queues = update_rows (claims r.id) (start_row node now) t.queues })
      ≡ record (view t) {
        waiting = map ticket_of l.rest;
        running = λ u. (if same_ticket (ticket_of r) u then 1 else 0) + (view t).running u;
      }
unfolding view
view-taken node now t r l =
    let left : in_line (update_rows (claims r.id) (start_row node now) t.queues) ≡ l.rest =
      in_line-leave (claims r.id) (start_row node now) t.queues (λ s. refl)
      ∙ ap (where_rows (λ s. not (claims r.id s))) l.line
      ∙ where_rows-first (λ s. not (claims r.id s)) r l.rest (rw l.claimed refl)
      ∙ where_rows-all _ l.rest (All-of_count_zero (claims r.id) l.rest l.others) in
    let runs : (λ (u : Ticket).
      count_rows (finishes u.id u.team_id)
        (update_rows (claims r.id) (start_row node now) t.queues))
        ≡ (λ (u : Ticket).
            (if same_ticket (ticket_of r) u then 1 else 0)
            + count_rows (finishes u.id u.team_id) t.queues) =
      fun_ext (running-taken node now t.queues r l) in
    rw (left, runs) refl

in_line-done :
    (id team : ℕ) (stderr : String) (now : ℕ) (rows : List QueueRow)
    → in_line (update_rows (finishes id team) (finish_row stderr now) rows) ≡ in_line rows
in_line-done id team stderr now rows =
    in_line-leave (finishes id team) (finish_row stderr now) rows (λ s. refl)
    ∙ where_rows-all _ (in_line rows) (
        All-mono (λ s. is_waiting_row s ≡ true) _ (in_line rows) (λ s h. ground arith)
          (All-order_by _ by_id _ (All-where_rows is_waiting_row rows)))

running-done :
    (stderr : String) (now : ℕ) (rows : List QueueRow) (t u : Ticket)
    → count_rows
        (finishes u.id u.team_id)
        (update_rows (finishes t.id t.team_id) (finish_row stderr now) rows)
      ≡ (if same_ticket t u then 0 else count_rows (finishes u.id u.team_id) rows)
running-done stderr now rows t u = elim (Bool-cases (same_ticket t u)) [
  | inl same ↦
      let gone =
        count_rows-update_sub (finishes t.id t.team_id) (finishes u.id u.team_id)
          (finish_row stderr now) rows (λ s. ground arith) (λ s. ground arith) in
      let whole =
        count_rows-same (finishes t.id t.team_id) (finishes u.id u.team_id) rows
          (λ s. ground arith) in
      rw same (omega (arith, gone, whole))
  | inr other ↦ rw other (
      count_rows-update_same (finishes t.id t.team_id) (finishes u.id u.team_id)
        (finish_row stderr now) rows (λ s. ground arith))
]

pub view-done :
    (j : Job) (o : Output) (stderr : String) (now : ℕ) (t : Tables)
    → let ticket : Ticket = record { id = j.id; team_id = j.team_id } in
      view (
        insert_result j o now (record t {
          queues = update_rows (finishes j.id j.team_id) (finish_row stderr now) t.queues;
        }))
      ≡ record (view t) {
        running = λ u. if same_ticket ticket u then 0 else (view t).running u;
        scores = (view t).scores ++ (ticket, o.score) ∷ [];
      }
unfolding view insert_result
view-done j o stderr now t =
    let ticket : Ticket = record { id = j.id; team_id = j.team_id } in
    let runs : (λ (u : Ticket).
      count_rows (finishes u.id u.team_id)
        (update_rows (finishes j.id j.team_id) (finish_row stderr now) t.queues))
        ≡ (λ (u : Ticket).
            if same_ticket ticket u then 0 else count_rows (finishes u.id u.team_id) t.queues) =
      fun_ext (running-done stderr now t.queues ticket) in
    rw (in_line-done j.id j.team_id stderr now t.queues, runs, map-insert score_of t.results _) refl

All-map :
    {A B : Type 0} (P : B → Type 0) (f : A → B) (xs : List A)
    → All (λ x. P (f x)) xs
    → All P (map f xs)
All-map P f [] h = tt
All-map P f (x ∷ xs) h = (h.0, All-map P f xs h.1)

pub view-IsIdle :
    (team : ℕ) (t : Tables) → count_rows (holds team) t.queues ≡ 0 → IsIdle team (view t)
unfolding view
view-IsIdle team t h = (
  All-map _ ticket_of (in_line t.queues) (
      All-order_by _ by_id _ (
        All-where_rows_of (λ (r : QueueRow). r.id) is_waiting_row (λ r. r.team_id ≢ team) t.queues
          (All-mono _ _ t.queues (λ r e w k. ground arith)
            (All-of_count_zero (holds team) t.queues h)))),
  λ id.
      omega
        (arith, h, count_rows_mono (finishes id team) (holds team) t.queues (λ r. ground arith)),
)

pub view-Line :
    (t : Tables) (r : QueueRow) (l : Line t.queues r)
    → (view t).waiting ≡ ticket_of r ∷ map ticket_of l.rest
unfolding view
view-Line t r l = ap (map ticket_of) l.line

pub view-running :
    (t : Tables) (u : Ticket) → (view t).running u ≡ count_rows (finishes u.id u.team_id) t.queues
unfolding view
view-running t u = refl
