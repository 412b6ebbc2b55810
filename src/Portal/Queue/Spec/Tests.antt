-- ===== src/Portal/Queue/Spec/Tests.antt =====
-- A run of requests, and the theorems on it.
use isucon6_final.Common.{ℕ, ◌≡◌, refl, true, some, List, [], ◌∷◌, ◌++◌, arith}
use isucon6_final.Sql.{count_rows, where_rows, order_by, insert_row, update_rows, first_row}
use isucon6_final.Db.{◌>>=◌}
use isucon6_final.Portal.Schema.{Tables, JobResult}
use isucon6_final.Portal.Queue.{
  enqueue_job, insert_job, insert_queue, dequeue_job, claim_job, next_waiting, done_job, finish_job,
  save_result, insert_result,
}
use isucon6_final.Portal.Queue.Invariant.{IsValid}
use isucon6_final.Portal.Queue.Spec.{Ticket, queued, handed, finished, nothing, view}
use isucon6_final.Portal.Queue.Spec.Refinement.{
  Call, to_queue, to_hand, to_finish, run, AllAllowed, run_refines,
}
use isucon6_final.Portal.Queue.Spec.Fifo.{queued_tickets, handed_tickets, run-in_order}

abbrev empty : Tables
empty = record {
  queues = [];
  next_queue = 1;
  results = [];
  next_result = 1;
  teams = [];
  proxies = [];
  messages = [];
  next_message = 1;
}

empty-IsValid : IsValid empty
unfolding count_rows
empty-IsValid = record { fresh = tt; unique = λ id. omega arith; single = λ team. omega arith }

abbrev posted : JobResult
posted = record {
  job = some (record { id = 1; team_id = 11; urls = "" });
  output = some (record { pass = true; score = 30; messages = [] });
  stderr = "";
}

-- Two teams queue jobs, the first twice; a node takes one and posts its result.
abbrev calls : List Call
calls =
    record { request = to_queue 11; now = 1; faults = [] }
    ∷ record { request = to_queue 11; now = 2; faults = [] }
    ∷ record { request = to_queue 12; now = 3; faults = [] }
    ∷ record { request = to_hand "host1"; now = 4; faults = [] }
    ∷ record { request = to_finish posted; now = 5; faults = [] }
    ∷ []

abbrev ticket : ℕ → ℕ → Ticket
ticket id team = record { id = id; team_id = team }

events :
    (run calls empty).0
    ≡ queued (ticket 1 11)
      ∷ nothing
      ∷ queued (ticket 2 12)
      ∷ handed (ticket 1 11)
      ∷ finished (ticket 1 11) 30
      ∷ []
unfolding enqueue_job insert_job insert_queue dequeue_job claim_job next_waiting done_job finish_job
    save_result insert_result count_rows where_rows order_by insert_row update_rows first_row ◌>>=◌
events = refl

run_refines_example : AllAllowed (view empty) (run calls empty).0 (view (run calls empty).1)
run_refines_example = run_refines calls empty empty-IsValid

run-in_order_example :
    (view empty).waiting ++ queued_tickets (run calls empty).0
    ≡ handed_tickets (run calls empty).0 ++ (view (run calls empty).1).waiting
run-in_order_example = run-in_order calls empty empty-IsValid
