-- ===== src/Portal/Queue/Invariant.antt =====
-- What holds of the queue between two calls of portal/queue.go, whatever the driver answers.
use isucon6_final.Common.{
  ℕ, ◌+◌, ◌≤◌, ◌<◌, ◌≡◌, refl, Bool, true, false, Option, none, some, List, [], ◌∷◌, ◌&&◌, String,
  arith, ◌==◌, All, All-append, All-mono, if◌then◌else◌,
}
use native.Mathlib.Decide.{ℕ_discrete}
use isucon6_final.Sql.{count_rows, update_rows, first_row, where_rows}
use isucon6_final.Sql.Counts.{
  count_rows-insert, count_rows-eq-zero, count_rows-update_le, count_rows-update_same,
  All-update_rows,
}
use isucon6_final.Db.{World, err, answer, continue, ◌>>=◌}
use isucon6_final.Db.Keeps.{
  Keeps, Keeps-query, Keeps-pure, Keeps-panics, Keeps-begin-bind, Keeps-in_tx-bind, Keeps-commit,
  Keeps-bind, keeps_rules,
}
use isucon6_final.Portal.Schema.{QueueRow, Tables, Error, wrapped, Job, Output, JobResult}
use isucon6_final.Portal.Queue.{
  holds, claims, finishes, start_row, finish_row, insert_queue, insert_result, enqueue_job,
  insert_job, claim_job, dequeue_job, save_result, finish_job, done_job,
}

-- Row ids are below the counter and occur once, and a team has at most one job that is not done.
pub record IsValid (t : Tables) : Type 0 where
  pub fresh : All (λ r. r.id < t.next_queue) t.queues
  pub unique : (id : ℕ) → count_rows (λ r. r.id == id) t.queues ≤ 1
  pub single : (team : ℕ) → count_rows (holds team) t.queues ≤ 1

pub count-fresh :
    (n id : ℕ) (rs : List QueueRow)
    → All (λ r. r.id < n) rs
    → n ≤ id
    → count_rows (λ r. r.id == id) rs ≡ 0
unfolding count_rows
count-fresh n id [] h k = refl
count-fresh n id (r ∷ rs) h k = ground (arith, count-fresh n id rs h.1 k)

pub insert_queue-fresh :
    (team now : ℕ) (t : Tables)
    → All (λ r. r.id < t.next_queue) t.queues
    → All (λ r. r.id < (insert_queue team now t).next_queue) (insert_queue team now t).queues
unfolding insert_queue
insert_queue-fresh team now t h =
    All-append (λ r. r.id < t.next_queue + 1) t.queues _
      (All-mono (λ r. r.id < t.next_queue) _ t.queues (λ r. omega arith) h) (omega arith, tt)

pub insert_queue-IsValid :
    (team now : ℕ) (t : Tables)
    → count_rows (holds team) t.queues ≡ 0
    → IsValid t
    → IsValid (insert_queue team now t)
unfolding insert_queue count_rows
insert_queue-IsValid team now t h v = record {
  fresh = insert_queue-fresh team now t v.fresh;
  unique = λ id.
      rw count_rows-insert
        (ground (arith, v.unique id, count-fresh t.next_queue id t.queues v.fresh));
  single = λ k. rw count_rows-insert (one k);
}
  where
    one : (k : ℕ) → count_rows (holds k) t.queues + (if (team == k && true) then 1 else 0) ≤ 1
    one k = elim (ℕ_discrete team k) [
      | yes same ↦ rw (← same) (ground (arith, h))
      | no other ↦ ground (arith, v.single k)
    ]

-- A change that touches neither ids nor teams and makes no row active keeps the invariant.
update-IsValid :
    (p : QueueRow → Bool) (f : QueueRow → QueueRow) (t : Tables)
    → ((r : QueueRow) → (f r).id ≡ r.id)
    → ((r : QueueRow) (k : ℕ) → p r ≡ true → holds k (f r) ≡ true → holds k r ≡ true)
    → IsValid t
    → IsValid (record t { queues = update_rows p f t.queues })
update-IsValid p f t ids keep v = record {
  fresh =
      All-update_rows (λ r. r.id < t.next_queue) p f t.queues (λ r h. omega (arith, ids r)) v.fresh;
  unique = λ id.
      rw (count_rows-update_same p (λ r. r.id == id) f t.queues (λ r _. rw (ids r))) (v.unique id);
  single =
      λ k. omega (arith, v.single k, count_rows-update_le p (holds k) f t.queues (λ r. keep r k));
}

start-IsValid :
    (id now : ℕ) (node : String) (t : Tables)
    → IsValid t
    → IsValid (record t { queues = update_rows (claims id) (start_row node now) t.queues })
start-IsValid id now node t v =
    update-IsValid (claims id) (start_row node now) t (λ r. refl) (λ r k. ground arith) v

finish-IsValid :
    (id team now : ℕ) (stderr : String) (t : Tables)
    → IsValid t
    → IsValid
        (record t { queues = update_rows (finishes id team) (finish_row stderr now) t.queues })
finish-IsValid id team now stderr t v =
    update-IsValid (finishes id team) (finish_row stderr now) t (λ r. refl) (λ r k. ground arith) v

insert_result-IsValid :
    (j : Job) (o : Output) (now : ℕ) (t : Tables) → IsValid t → IsValid (insert_result j o now t)
unfolding insert_result
insert_result-IsValid j o now t v = record { fresh = v.fresh; unique = v.unique; single = v.single }

claim_job-IsValid : (node : String) (found : Option QueueRow) → Keeps IsValid (claim_job node found)
unfolding claim_job
claim_job-IsValid node none = Keeps-pure none
claim_job-IsValid node (some j) = Keeps-begin-bind _ _ λ tx v. Keeps-in_tx-bind _ _ _ λ now.
    Keeps-in_tx-bind _ _ _
      λ _. let valid = start-IsValid j.id now node tx v in search (keeps_rules, Keeps-commit)

-- `dequeueJob` keeps the queue valid from every valid state, whatever the driver answers: row ids
-- are unique and below the counter, and no team has two active jobs.
pub dequeue_job-IsValid : (node : String) → Keeps IsValid (dequeue_job node)
unfolding dequeue_job
dequeue_job-IsValid node = Keeps-bind _ _ (Keeps-query _ _) (claim_job-IsValid node)

save_result-IsValid :
    (j : Job) (output : Option Output) (tx : Tables)
    → IsValid tx
    → Keeps IsValid (save_result j output tx)
unfolding save_result
save_result-IsValid j none tx v = Keeps-panics
save_result-IsValid j (some o) tx v =
    Keeps-in_tx-bind _ _ _ λ now. Keeps-commit _ _ (insert_result-IsValid j o now tx v)

finish_job-IsValid :
    (job : Option Job) (output : Option Output) (stderr : String) (tx : Tables)
    → IsValid tx
    → Keeps IsValid (finish_job job output stderr tx)
unfolding finish_job
finish_job-IsValid none output stderr tx v = Keeps-panics
finish_job-IsValid (some j) output stderr tx v = Keeps-in_tx-bind _ _ _ λ now.
    Keeps-in_tx-bind _ _ _ λ _.
      let valid = finish-IsValid j.id j.team_id now stderr tx v in
      search (keeps_rules, save_result-IsValid)

-- `doneJob` keeps the queue valid from every valid state, whatever is posted and whatever the
-- driver answers.
pub done_job-IsValid : (res : JobResult) → Keeps IsValid (done_job res)
unfolding done_job
done_job-IsValid res = Keeps-begin-bind _ _ (finish_job-IsValid res.job res.output res.stderr)

insert_job-IsValid :
    (team : ℕ) (found : Option QueueRow) (w : World Tables)
    → (found ≡ none → count_rows (holds team) w.tables.queues ≡ 0)
    → IsValid w.tables
    → IsValid (insert_job team found w).1.tables
unfolding insert_job ◌>>=◌
insert_job-IsValid team (some _) w h v = v
insert_job-IsValid team none w h v = one w.faults
  where
    one :
        (faults : List Bool)
        → IsValid
            (answer {E = Error}
              (err (wrapped "enqueue job failed"))
              (λ u. (tt, insert_queue team u.now u.tables))
              w
              faults).1.tables
    one [] = insert_queue-IsValid team w.now w.tables (h refl) v
    one (true ∷ rest) = v
    one (false ∷ rest) = insert_queue-IsValid team w.now w.tables (h refl) v

-- `enqueueJob`, when no other request runs between its two statements, keeps the queue valid from
-- every valid state, whatever the driver answers.
pub enqueue_job-IsValid : (team : ℕ) → Keeps IsValid (enqueue_job team)
unfolding enqueue_job ◌>>=◌
enqueue_job-IsValid team = record { at = λ w. one w w.faults }
  where
    search_first : Tables → Option QueueRow
    search_first t = first_row (where_rows (holds team) t.queues)

    one :
        (w : World Tables) (faults : List Bool)
        → IsValid w.tables
        → IsValid
            (let (r, u) =
                answer {E = Error}
                  (err (wrapped "failed to enqueue job when selecting table"))
                  (λ u. (search_first u.tables, u.tables))
                  w
                  faults in
              continue r (insert_job team) u).1.tables
    one w [] v =
        insert_job-IsValid team (search_first w.tables) w
          (count_rows-eq-zero (holds team) w.tables.queues) v
    one w (true ∷ rest) v = v
    one w (false ∷ rest) v =
        insert_job-IsValid team (search_first w.tables) _
          (count_rows-eq-zero (holds team) w.tables.queues) v
