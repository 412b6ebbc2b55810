-- ===== src/Portal/Queue/Race.antt =====
-- Portal requests that interleave. Between two calls of the driver any other request may run, so
-- `enqueueJob` and `dequeueJob` are two steps each: the SELECT, whose answer the client keeps, and
-- what is done with it (one INSERT, or one transaction). `doneJob` is one transaction. Every step
-- runs the model's own code in a world with the shared tables, any time and any faults to come.
pub mod Settled
pub mod Exclusive
use native.Mathlib.Decide.{ℕ_discrete}
use isucon6_final.Common.{
  ℕ, ◌+◌, ◌≤◌, ◌<◌, ◌≡◌, ◌≢◌, refl, sym, subst, Bool, true, false, Option, none, some, List, [],
  ◌∷◌, String, arith, ◌==◌, All, All-mono, if◌then◌else◌, ◌&&◌,
}
use isucon6_final.Sql.{count_rows, update_rows, first_row, where_rows}
use isucon6_final.Sql.Counts.{
  count_rows-insert, count_rows-update_le, count_rows-update_sub, count_rows_mono, All-update_rows,
  first_row-eq-none,
}
use isucon6_final.Db.{World, Result, ok, err, panic, ◌>>=◌}
use isucon6_final.Db.Keeps.{
  Keeps, Keeps-exec, Keeps-raise, Keeps-pure, Keeps-panics, Keeps-begin-bind, Keeps-in_tx-bind,
  Keeps-commit, keeps_rules,
}
use isucon6_final.Portal.Schema.{QueueRow, Tables, Error, Job, Output, JobResult}
use isucon6_final.Portal.Queue.{
  is_waiting, holds, claims, finishes, start_row, finish_row, insert_queue, insert_result,
  insert_job, claim_job, save_result, finish_job, done_job, next_waiting,
}
use isucon6_final.Portal.Queue.Invariant.{count-fresh, insert_queue-fresh}
use isucon6_final.Portal.Queue.Outcome.{claim_job-some}

-- What a client has in hand between its two steps.
pub data Client : Type 0 where
  idle : Client
  asked : ℕ → Option QueueRow → Client
  picked : Option QueueRow → Client

pub record State : Type 0 where
  pub tables : Tables
  pub clients : ℕ → Client
  pub handed : List ℕ  -- the ids of the jobs that `dequeueJob` has returned, the latest first

abbrev pub at_client : (ℕ → Client) → ℕ → Client → ℕ → Client
at_client f i c k = if i == k then c else f k

-- The ids handed out after a `dequeueJob` that ended with this result.
abbrev pub hand : Result Error (Option Job) → List ℕ → List ℕ
hand (ok (some j)) ids = j.id ∷ ids
hand _ ids = ids

abbrev pub world : State → ℕ → List Bool → World Tables
world s now faults = record { tables = s.tables; now = now; faults = faults }

pub data Step (s : State) : State → Type 0 where
  ask :
      (i team : ℕ)
      → Step s (record s {
        clients =
            at_client s.clients i
              (asked team (first_row (where_rows (holds team) s.tables.queues)));
      })
  insert :
      (i team now : ℕ) (found : Option QueueRow) (faults : List Bool)
      → s.clients i ≡ asked team found
      → Step s (record s {
        tables = (insert_job team found (world s now faults)).1.tables;
        clients = at_client s.clients i idle;
      })
  pick :
      (i : ℕ)
      → Step s
          (record s { clients = at_client s.clients i (picked (next_waiting s.tables.queues)) })
  claim :
      (i now : ℕ) (node : String) (found : Option QueueRow) (faults : List Bool)
      → s.clients i ≡ picked found
      → Step s (record {
        tables = (claim_job node found (world s now faults)).1.tables;
        clients = at_client s.clients i idle;
        handed = hand (claim_job node found (world s now faults)).0 s.handed;
      })
  finish :
      (res : JobResult) (now : ℕ) (faults : List Bool)
      → Step s (record s { tables = (done_job res (world s now faults)).1.tables })

pub data Reach (s : State) : State → Type 0 where
  here : Reach s s
  next : {t u : State} → Reach s t → Step t u → Reach s u
