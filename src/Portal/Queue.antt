-- ===== src/Portal/Queue.antt =====
-- portal/queue.go: the queue of benchmark jobs. A transaction is the value of the tables that its
-- statements have made so far; `commit` publishes it.
pub mod Invariant
pub mod Selection
pub mod Outcome
pub mod Listing
pub mod Spec
pub mod Race
mod Tests
use isucon6_final.Common.{
  ℕ, ◌+◌, Bool, true, false, ◌&&◌, ◌||◌, Option, none, some, List, [], ◌∷◌, ◌++◌, String, ltb, leb,
  ◌==◌, if◌then◌else◌, text_append,
}
use isucon6_final.Sql.{where_rows, count_rows, update_rows, first_row, order_by}
use isucon6_final.Db.{Db, pure, raise, panics, exec, query, in_tx, begin, commit, ◌>>=◌, ◌>>◌}
use isucon6_final.Portal.Schema.{
  Status, waiting, running, done, QueueRow, ResultRow, Tables, Error, wrapped, already_queued,
  affected, Job, Output, JobResult,
}

abbrev pub is_waiting : Status → Bool
is_waiting waiting = true
is_waiting _ = false

abbrev pub is_running : Status → Bool
is_running running = true
is_running _ = false

-- status IN ('waiting', 'running')
abbrev pub is_active : Status → Bool
is_active s = is_waiting s || is_running s

-- WHERE team_id = ? AND status IN ('waiting', 'running')
abbrev pub holds : ℕ → QueueRow → Bool
holds team r = r.team_id == team && is_active r.status

-- INSERT INTO queues (team_id) VALUES (?)
unfoldable pub insert_queue : ℕ → ℕ → Tables → Tables
insert_queue team now t = record t { queues = t.queues ++ row ∷ []; next_queue = t.next_queue + 1 }
  where
    row : QueueRow
    row = record {
      id = t.next_queue;
      team_id = team;
      status = waiting;
      bench_node = none;
      stderr = none;
      created_at = now;
      updated_at = now;
    }

-- The `switch` on the answer of the SELECT, and the INSERT.
unfoldable pub insert_job : ℕ → Option QueueRow → Db Tables Error (Unit {0})
insert_job team none = exec (wrapped "enqueue job failed") (λ t now. (tt, insert_queue team now t))
insert_job team (some _) = raise (already_queued team)

unfoldable pub enqueue_job : ℕ → Db Tables Error (Unit {0})
unfolding insert_job
enqueue_job team = do
  found ←
      query (wrapped "failed to enqueue job when selecting table")
        (λ t _. first_row (where_rows (holds team) t.queues))
  insert_job team found

-- SELECT … WHERE status = 'waiting' ORDER BY id LIMIT 1
unfoldable pub next_waiting : List QueueRow → Option QueueRow
next_waiting rows =
    first_row (order_by (λ r s. leb r.id s.id) (where_rows (λ r. is_waiting r.status) rows))

-- WHERE id = ? AND status = 'waiting'
abbrev pub claims : ℕ → QueueRow → Bool
claims id r = r.id == id && is_waiting r.status

-- SET status = 'running', bench_node = ?
abbrev pub start_row : String → ℕ → QueueRow → QueueRow
start_row node now r = record r { status = running; bench_node = some node; updated_at = now }

-- The `switch` on the answer of the SELECT, and the transaction that takes the job.
unfoldable pub claim_job : String → Option QueueRow → Db Tables Error (Option Job)
claim_job node none = pure none
claim_job node (some j) = do
  tx ← begin (wrapped "failed to dequeue job when beginning tx")
  tx' ←
      in_tx (wrapped "failed to dequeue job when locking")
        (λ now. record tx { queues = update_rows (claims j.id) (start_row node now) tx.queues })
  n ←
      in_tx (wrapped "failed to dequeue job when checking affected rows")
        (λ _. count_rows (claims j.id) tx.queues)
  if ltb 1 n then raise (affected n) else do
    commit (wrapped "failed to dequeue job when commiting tx") tx'
    pure (if ltb n 1 then none else some (record { id = j.id; team_id = j.team_id; urls = "" }))

unfoldable pub dequeue_job : String → Db Tables Error (Option Job)
dequeue_job node = do
  found ← query (wrapped "dequeue job failed when scanning job") (λ t _. next_waiting t.queues)
  claim_job node found

-- WHERE id = ? AND team_id = ? AND status = 'running'
abbrev pub finishes : ℕ → ℕ → QueueRow → Bool
finishes id team r = r.id == id && r.team_id == team && is_running r.status

-- SET status = 'done', stderr = ?
abbrev pub finish_row : String → ℕ → QueueRow → QueueRow
finish_row stderr now r = record r { status = done; stderr = some stderr; updated_at = now }

-- strings.Join(messages, "\n")
unfoldable pub join_lines : List String → String
join_lines [] = ""
join_lines (m ∷ []) = m
join_lines (m ∷ ms) = text_append (m ∷ "\n" ∷ join_lines ms ∷ [])

abbrev pub pass_number : Bool → ℕ
pass_number true = 1
pass_number false = 0

-- INSERT INTO results (team_id, queue_id, pass, score, messages) VALUES (?, ?, ?, ?, ?)
unfoldable pub insert_result : Job → Output → ℕ → Tables → Tables
insert_result j o now t = record t {
  results = t.results ++ row ∷ [];
  next_result = t.next_result + 1;
}
  where
    row : ResultRow
    row = record {
      id = t.next_result;
      team_id = j.team_id;
      queue_id = j.id;
      pass = pass_number o.pass;
      score = o.score;
      messages = join_lines o.messages;
      created_at = now;
    }

-- The INSERT and the commit. A nil `Output` panics where it is first read,
-- after the UPDATE.
unfoldable pub save_result : Job → Option Output → Tables → Db Tables Error (Unit {0})
save_result j none tx = panics
save_result j (some o) tx = do
  tx' ← in_tx (wrapped "INSERT INTO results") (λ now. insert_result j o now tx)
  commit (wrapped "doneJob failed when commiting tx") tx'

-- The statements after the begin of the transaction. A nil `Job` panics at the first of them.
unfoldable pub finish_job :
    Option Job → Option Output → String → Tables → Db Tables Error (Unit {0})
unfolding save_result
finish_job none output stderr tx = panics
finish_job (some j) output stderr tx = do
  tx' ← in_tx (wrapped "doneJob failed when locking") (λ now. record tx {
    queues = update_rows (finishes j.id j.team_id) (finish_row stderr now) tx.queues;
  })
  n ←
      in_tx (wrapped "doneJob failed when checking affected rows")
        (λ _. count_rows (finishes j.id j.team_id) tx.queues)
  if n == 1 then save_result j output tx' else raise (affected n)

unfoldable pub done_job : JobResult → Db Tables Error (Unit {0})
unfolding finish_job
done_job res = do
  tx ← begin (wrapped "doneJob failed when beginning tx")
  finish_job res.job res.output res.stderr tx
