-- ===== src/Portal/Queue/Tests.antt =====
-- The queue at the inputs of portal/queue_test.go, and the theorems at concrete inputs.
use isucon6_final.Common.{◌⊎◌, ◌≡◌, ◌≢◌, refl, true, none, some, [], ◌∷◌, arith, All}
use isucon6_final.Sql.{count_rows, update_rows, first_row, where_rows, order_by, insert_row}
use isucon6_final.Db.{World, ok, err, Db, ◌>>=◌, ◌>>◌}
use isucon6_final.Portal.Schema.{
  QueueRow, Tables, Error, Job, Output, JobResult, waiting, running, already_queued,
}
use isucon6_final.Portal.Queue.{
  claims, finishes, finish_row, holds, insert_queue, insert_result, enqueue_job, claim_job,
  dequeue_job, done_job, next_waiting,
}
use isucon6_final.Portal.Queue.Invariant.{IsValid}
use isucon6_final.Portal.Queue.Selection.{waits, IsFirst}
use isucon6_final.Portal.Queue.Outcome.{
  done_job_unchanged, done_job-ok, done_job-eq, enqueue_job-eq, dequeue_job-eq, taken, job_of,
}
use isucon6_final.Portal.Queue.Race.{State, Reach, idle, here, next, pick, claim}
use isucon6_final.Portal.Queue.Race.Exclusive.{Distinct, handed_once, double_enqueue}

abbrev empty : Tables
empty = record {
  queues = [];
  next_queue = 1;
  results = [];
  next_result = 1;
  teams = [];
  proxies = [];
  messages = [];
  next_message = 1;
}

abbrev start : World Tables
start = record { tables = empty; now = 0; faults = [] }

-- Two teams queue, and a third job of the first is refused.
abbrev queued : Db Tables Error (Unit {0})
queued = enqueue_job 11 >> enqueue_job 12

queue_twice : ((queued >> enqueue_job 11) start).0 ≡ err (already_queued 11)
unfolding enqueue_job insert_queue first_row where_rows ◌>>=◌
queue_twice = refl

-- The jobs come in the order of their ids, and then no more.
dequeue_in_order :
    ((queued >> dequeue_job "host1" >> dequeue_job "host2") start).0
    ≡ ok (some (record { id = 2; team_id = 12; urls = "" }))
unfolding enqueue_job insert_queue first_row where_rows ◌>>=◌ dequeue_job claim_job next_waiting
    count_rows update_rows order_by insert_row
dequeue_in_order = refl

abbrev posted : JobResult
posted = record {
  job = some (record { id = 1; team_id = 11; urls = "" });
  output = some (record { pass = true; score = 30; messages = [] });
  stderr = "";
}

-- A finished team can queue again.
queue_after_done :
    ((queued >> dequeue_job "host1" >> done_job posted >> enqueue_job 11) start).0 ≡ ok tt
unfolding enqueue_job insert_queue insert_result first_row where_rows ◌>>=◌ dequeue_job claim_job
    next_waiting count_rows update_rows done_job order_by insert_row
queue_after_done = refl

abbrev first_job : QueueRow
first_job = record {
  id = 1;
  team_id = 11;
  status = waiting;
  bench_node = none;
  stderr = none;
  created_at = 0;
  updated_at = 0;
}

abbrev one_waiting : Tables
one_waiting = record empty { queues = first_job ∷ []; next_queue = 2 }

abbrev one_running : Tables
one_running = record empty {
  queues = record first_job { status = running; bench_node = some "host1" } ∷ [];
  next_queue = 2;
}

abbrev waiting_world : World Tables
waiting_world = record { tables = one_waiting; now = 5; faults = [] }

abbrev running_world : World Tables
running_world = record { tables = one_running; now = 9; faults = [] }

one_waiting-IsValid : IsValid one_waiting
unfolding count_rows
one_waiting-IsValid = record {
  fresh = (omega arith, tt);
  unique = λ id. ground arith;
  single = λ team. ground arith;
}

abbrev job_one : Job
job_one = record { id = 1; team_id = 11; urls = "" }

abbrev output_one : Output
output_one = record { pass = true; score = 30; messages = [] }

done_job-eq_example : done_job posted running_world ≡ (
  ok tt,
  record running_world {
    tables = insert_result job_one output_one 9 (record one_running {
      queues = update_rows (finishes 1 11) (finish_row "" 9) one_running.queues;
    });
  },
)
unfolding count_rows
done_job-eq_example = done_job-eq job_one output_one "" running_world refl

-- Nothing runs: the post is refused.
not_running : (done_job posted waiting_world).0 ≢ ok tt
unfolding done_job count_rows ◌>>=◌
not_running e = cc

done_job_unchanged_example : (done_job posted waiting_world).1.tables ≡ one_waiting
done_job_unchanged_example = done_job_unchanged posted waiting_world not_running

post_accepted : (done_job posted running_world).0 ≡ ok tt
unfolding done_job count_rows insert_result ◌>>=◌
post_accepted = refl

done_job-ok_example :
    (j : Job) × (o : Output) × (posted.job ≡ some j)
    × (posted.output ≡ some o)
    × (count_rows (finishes j.id j.team_id) one_running.queues ≡ 1)
    × ((done_job posted running_world).1.tables
        ≡ insert_result j o 9 (record one_running {
          queues = update_rows (finishes j.id j.team_id) (finish_row "" 9) one_running.queues;
        }))
done_job-ok_example = done_job-ok posted running_world post_accepted

enqueue_job-eq_example : enqueue_job 11 waiting_world ≡ (err (already_queued 11), waiting_world)
unfolding count_rows
enqueue_job-eq_example = enqueue_job-eq 11 waiting_world refl

next_is_first : next_waiting one_waiting.queues ≡ some first_job
unfolding next_waiting where_rows order_by insert_row first_row
next_is_first = refl

dequeue_job-eq_example :
    (count_rows waits waiting_world.tables.queues ≡ 0)
      × (dequeue_job "host1" waiting_world ≡ (ok none, waiting_world))
    ⊎ ((r : QueueRow) × IsFirst waiting_world.tables.queues r
        × (dequeue_job "host1" waiting_world
            ≡ (ok (some (job_of r)), taken "host1" r waiting_world)))
dequeue_job-eq_example = dequeue_job-eq "host1" waiting_world refl one_waiting-IsValid

handed_out : (dequeue_job "host1" waiting_world).0 ≡ ok (some job_one)
unfolding dequeue_job claim_job next_waiting count_rows where_rows order_by insert_row first_row
    ◌>>=◌
handed_out = refl

abbrev quiet : State
quiet = record { tables = one_waiting; clients = λ _. idle; handed = [] }

-- Two nodes select the same row, and one of them gets it.
abbrev contended : (u : State) × Reach quiet u
contended = (
  _,
  next (next (next (next here (pick 0)) (pick 1)) (claim 0 5 "host1" _ [] refl))
      (claim 1 6 "host2" _ [] refl),
)

handed_once_example :
    Distinct contended.0.handed
    × All (λ id. count_rows (claims id) contended.0.tables.queues ≡ 0) contended.0.handed
handed_once_example = handed_once {s = quiet} refl (omega arith, tt) contended.1

double_enqueue_example : (u : State) × Reach quiet u × (count_rows (holds 12) u.tables.queues ≡ 2)
unfolding count_rows
double_enqueue_example = double_enqueue quiet 12 refl
