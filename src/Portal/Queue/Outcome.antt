-- ===== src/Portal/Queue/Outcome.antt =====
-- What `enqueueJob`, `dequeueJob` and `doneJob` do on every answer of the driver.
use isucon6_final.Common.{
  ℕ, ◌≡◌, ◌≢◌, ◌⊎◌, ◌∙◌, refl, Bool, true, false, Option, none, some, List, [], ◌∷◌, String, arith,
  ◌==◌, Option-cases, inl, inr, if◌then◌else◌,
}
use isucon6_final.Sql.{count_rows, update_rows}
use isucon6_final.Sql.Counts.{count_rows-eq-zero, first_row-eq-none, count_rows_mono}
use isucon6_final.Portal.Queue.Invariant.{IsValid}
use isucon6_final.Db.{World, answer, continue, Result, ok, err, ◌>>=◌}
use isucon6_final.Portal.Queue.Selection.{
  next_waiting-some, next_waiting-none, next_waiting-IsFirst, IsFirst, waits,
}
use isucon6_final.Portal.Schema.{
  QueueRow, Tables, Error, wrapped, already_queued, affected, Job, Output, JobResult,
}
use isucon6_final.Portal.Queue.{
  holds, claims, finishes, start_row, finish_row, insert_queue, insert_result, enqueue_job,
  claim_job, dequeue_job, save_result, finish_job, done_job, next_waiting,
}

save_result_unchanged :
    (j : Job) (output : Option Output) (tx : Tables) (w : World Tables)
    → (save_result j output tx w).0 ≢ ok tt
    → (save_result j output tx w).1.tables ≡ w.tables
unfolding save_result ◌>>=◌
save_result_unchanged j none tx w h = refl
save_result_unchanged j (some o) tx w h = ground arith

finish_job_unchanged :
    (job : Option Job) (output : Option Output) (stderr : String) (tx : Tables) (w : World Tables)
    → (finish_job job output stderr tx w).0 ≢ ok tt
    → (finish_job job output stderr tx w).1.tables ≡ w.tables
unfolding finish_job ◌>>=◌
finish_job_unchanged none output stderr tx w h = refl
finish_job_unchanged (some j) none stderr tx w h = ground arith
finish_job_unchanged (some j) (some o) stderr tx w h = ground arith

-- `doneJob` that does not return nil has changed no table.
pub done_job_unchanged :
    (res : JobResult) (w : World Tables)
    → (done_job res w).0 ≢ ok tt
    → (done_job res w).1.tables ≡ w.tables
unfolding done_job ◌>>=◌
done_job_unchanged res w h =
    ground (arith, finish_job_unchanged res.job res.output res.stderr w.tables)

-- `doneJob` returns nil only if it has marked exactly one running row of the posted job and team as
-- done and added the posted output as one result.
pub done_job-ok :
    (res : JobResult) (w : World Tables)
    → (done_job res w).0 ≡ ok tt
    → (j : Job) × (o : Output) × (res.job ≡ some j)
      × (res.output ≡ some o)
      × (count_rows (finishes j.id j.team_id) w.tables.queues ≡ 1)
      × ((done_job res w).1.tables
          ≡ insert_result j o w.now (record w.tables {
            queues =
                update_rows (finishes j.id j.team_id) (finish_row res.stderr w.now) w.tables.queues;
          }))
unfolding done_job ◌>>=◌
done_job-ok res w h = ground arith

-- With a driver that does not fail, `doneJob` on a complete result either does that, or fails with
-- the number of rows that it found and changes nothing.
pub done_job-eq :
    (j : Job) (o : Output) (stderr : String) (w : World Tables)
    → w.faults ≡ []
    → done_job (record { job = some j; output = some o; stderr = stderr }) w ≡ (
        if count_rows (finishes j.id j.team_id) w.tables.queues == 1
        then (
          ok tt,
          record w {
            tables = insert_result j o w.now (record w.tables {
              queues =
                  update_rows (finishes j.id j.team_id) (finish_row stderr w.now) w.tables.queues;
            });
          },
        )
        else (err (affected (count_rows (finishes j.id j.team_id) w.tables.queues)), w))
unfolding done_job ◌>>=◌
done_job-eq j o stderr w h = ground arith

-- With a driver that does not fail, `enqueueJob` adds a waiting row if the team has no active one,
-- and otherwise fails with `errAlreadyQueued` and changes nothing.
pub enqueue_job-eq :
    (team : ℕ) (w : World Tables)
    → w.faults ≡ []
    → enqueue_job team w ≡ (
        if count_rows (holds team) w.tables.queues == 0
        then (ok tt, record w { tables = insert_queue team w.now w.tables })
        else (err (already_queued team), w))
unfolding enqueue_job ◌>>=◌
enqueue_job-eq team w h = ground (
  arith,
  count_rows-eq-zero (holds team) w.tables.queues,
  first_row-eq-none (holds team) w.tables.queues,
)

-- The world after a node has taken a row.
abbrev pub taken : String → QueueRow → World Tables → World Tables
taken node r w = record w {
  tables = record w.tables {
    queues = update_rows (claims r.id) (start_row node w.now) w.tables.queues;
  };
}

abbrev pub job_of : QueueRow → Job
job_of r = record { id = r.id; team_id = r.team_id; urls = "" }

claim_job-eq :
    (node : String) (r : QueueRow) (w : World Tables)
    → w.faults ≡ []
    → count_rows (claims r.id) w.tables.queues ≡ 1
    → claim_job node (some r) w ≡ (ok (some (job_of r)), taken node r w)
unfolding claim_job ◌>>=◌
claim_job-eq node r w h k = ground arith

dequeue_job-claim_job :
    (node : String) (w : World Tables)
    → w.faults ≡ []
    → dequeue_job node w ≡ claim_job node (next_waiting w.tables.queues) w
unfolding dequeue_job ◌>>=◌
dequeue_job-claim_job node w h = ground arith

pub claim_job-none : (node : String) (w : World Tables) → claim_job node none w ≡ (ok none, w)
unfolding claim_job ◌>>=◌
claim_job-none node w = refl

-- `dequeueJob` goes on with the row that it selects.
pub dequeue_job-next :
    (node : String) (w : World Tables)
    → w.faults ≡ []
    → IsValid w.tables
    → dequeue_job node w ≡ elim (next_waiting w.tables.queues) [
      | none ↦ (ok none, w)
      | some r ↦ (ok (some (job_of r)), taken node r w)
    ]
dequeue_job-next node w h v = elim (Option-cases (next_waiting w.tables.queues)) [
  | inl e ↦ rw e (rw (dequeue_job-claim_job node w h, e) (claim_job-none node w))
  | inr (r, e) ↦ rw e (
      rw (dequeue_job-claim_job node w h, e)
        (claim_job-eq node r w h (
          omega (
            arith,
            v.unique r.id,
            (next_waiting-some w.tables.queues r e).0,
            count_rows_mono (claims r.id) (λ s. s.id == r.id) w.tables.queues (λ s. ground arith),
          ))))
]

-- With a driver that does not fail, `dequeueJob` on a valid queue hands out a row of the table that
-- waits, where no row that waits has a lower id, and marks it as running on the node that asks; or
-- no row waits, and it returns nil and changes nothing.
pub dequeue_job-eq :
    (node : String) (w : World Tables)
    → w.faults ≡ []
    → IsValid w.tables
    → (count_rows waits w.tables.queues ≡ 0) × (dequeue_job node w ≡ (ok none, w))
      ⊎ ((r : QueueRow) × IsFirst w.tables.queues r
          × (dequeue_job node w ≡ (ok (some (job_of r)), taken node r w)))
dequeue_job-eq node w h v = elim (Option-cases (next_waiting w.tables.queues)) [
  | inl e ↦ inl ((next_waiting-none w.tables.queues).0 e, dequeue_job-next node w h v ∙ rw e refl)
  | inr (r, e) ↦
      inr (r, next_waiting-IsFirst w.tables.queues r e, dequeue_job-next node w h v ∙ rw e refl)
]

pub claim_job-some :
    (node : String) (r : QueueRow) (w : World Tables) (j : Job)
    → (claim_job node (some r) w).0 ≡ ok (some j)
    → (j ≡ job_of r)
      × (count_rows (claims r.id) w.tables.queues ≡ 1)
      × ((claim_job node (some r) w).1.tables ≡ (taken node r w).tables)
unfolding claim_job ◌>>=◌
claim_job-some node r w j h = ground arith

-- `dequeueJob` fails at its SELECT, or goes on with the row that it selects.
pub dequeue_job-cases :
    (node : String) (w : World Tables)
    → ((dequeue_job node w).0 ≡ err (wrapped "dequeue job failed when scanning job"))
        × ((dequeue_job node w).1.tables ≡ w.tables)
      ⊎ ((rest : List Bool) × (dequeue_job node w
            ≡ claim_job node (next_waiting w.tables.queues) (record w { faults = rest })))
unfolding dequeue_job ◌>>=◌
dequeue_job-cases node w = one w.faults
  where
    one :
        (faults : List Bool)
        → let p : Result Error (Option Job) × World Tables =
            let (r, u) =
              answer {E = Error}
                (err (wrapped "dequeue job failed when scanning job"))
                (λ (u : World Tables). (next_waiting u.tables.queues, u.tables))
                w
                faults in
            continue r (claim_job node) u in
          (p.0 ≡ err (wrapped "dequeue job failed when scanning job")) × (p.1.tables ≡ w.tables)
          ⊎ ((rest : List Bool) × (p
                ≡ claim_job node (next_waiting w.tables.queues) (record w { faults = rest })))
    one [] = inr (w.faults, refl)
    one (true ∷ rest) = inl (refl, refl)
    one (false ∷ rest) = inr (rest, refl)

-- Whatever the driver answers, a job that `dequeueJob` returns is the waiting job with the lowest id
-- (`next_waiting-some`), and exactly its row has been marked as running on the node that asked.
pub dequeue_job-some :
    (node : String) (w : World Tables) (j : Job)
    → (dequeue_job node w).0 ≡ ok (some j)
    → (r : QueueRow) × (next_waiting w.tables.queues ≡ some r)
      × (j ≡ job_of r)
      × (count_rows (claims r.id) w.tables.queues ≡ 1)
      × ((dequeue_job node w).1.tables ≡ (taken node r w).tables)
dequeue_job-some node w j h = elim (dequeue_job-cases node w) [
  | inl (e, _) ↦ cc
  | inr (rest, e) ↦ elim (Option-cases (next_waiting w.tables.queues)) [
    | inl f ↦
        let u : World Tables = record w { faults = rest } in
        let some_job : (claim_job node none u).0 ≡ ok (some j) = rw (← f, ← e) h in
        let no_job : (claim_job node none u).0 ≡ ok none = rw (claim_job-none node u) in cc
    | inr (r, f) ↦
        let (same, one, after) =
          claim_job-some node r (record w { faults = rest }) j (rw (← f, ← e) h) in
        (r, f, same, one, rw (e, f) after)
  ]
]

-- `enqueueJob` returns nil only if the team had no active job, and has then added a waiting one.
pub enqueue_job-ok :
    (team : ℕ) (w : World Tables)
    → (enqueue_job team w).0 ≡ ok tt
    → (count_rows (holds team) w.tables.queues ≡ 0)
      × ((enqueue_job team w).1.tables ≡ insert_queue team w.now w.tables)
unfolding enqueue_job ◌>>=◌
enqueue_job-ok team w h =
    (ground (arith, count_rows-eq-zero (holds team) w.tables.queues), ground arith)

-- `enqueueJob` that does not return nil has changed no table.
pub enqueue_job_unchanged :
    (team : ℕ) (w : World Tables)
    → (enqueue_job team w).0 ≢ ok tt
    → (enqueue_job team w).1.tables ≡ w.tables
unfolding enqueue_job ◌>>=◌
enqueue_job_unchanged team w h = ground arith
