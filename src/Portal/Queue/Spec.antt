-- ===== src/Portal/Queue/Spec.antt =====
-- What the queue of portal/queue.go promises, without its tables: a first-in first-out queue of
-- waiting jobs, the jobs that run, in no order, and the results in the order of their arrival.
pub mod Views
pub mod Refinement
pub mod Fifo
mod Tests
use isucon6_final.Common.{
  ℕ, ◌+◌, ◌-◌, ◌≡◌, ◌≢◌, Bool, true, false, ◌&&◌, List, [], ◌∷◌, ◌++◌, map, ◌==◌, leb,
  if◌then◌else◌, All,
}
use isucon6_final.Sql.{where_rows, count_rows, order_by}
use isucon6_final.Portal.Schema.{QueueRow, ResultRow, Tables}
use isucon6_final.Portal.Queue.{is_waiting, is_running, finishes}

pub record Ticket : Type 0 where
  pub id : ℕ
  pub team_id : ℕ

abbrev pub same_ticket : Ticket → Ticket → Bool
same_ticket a b = (a.id == b.id) && (a.team_id == b.team_id)

-- `running` says how often a job runs, `scores` has the job and the score of each result.
pub record Spec : Type 0 where
  pub waiting : List Ticket
  pub running : Ticket → ℕ
  pub scores : List (Ticket × ℕ)

-- What one request does to the queue.
pub data Event : Type 0 where
  queued : Ticket → Event
  handed : Ticket → Event
  finished : Ticket → ℕ → Event
  nothing : Event

-- No job of the team waits or runs.
abbrev pub IsIdle : ℕ → Spec → Type 0
IsIdle team s =
    All (λ (t : Ticket). t.team_id ≢ team) s.waiting
    × ((id : ℕ) → s.running (record { id = id; team_id = team }) ≡ 0)

-- Whether a step of the queue may be this event, from the first state to the second.
pub data Allowed (s : Spec) : Event → Spec → Type 0 where
  queue :
      (t : Ticket)
      → IsIdle t.team_id s
      → Allowed s (queued t) (record s { waiting = s.waiting ++ t ∷ [] })
  hand :
      (t : Ticket) (rest : List Ticket)
      → s.waiting ≡ t ∷ rest
      → Allowed s (handed t) (record s {
        waiting = rest;
        running = λ u. (if same_ticket t u then 1 else 0) + s.running u;
      })
  finish :
      (t : Ticket) (score : ℕ)
      → s.running t ≡ 1
      → Allowed s (finished t score) (record s {
        running = λ u. if same_ticket t u then 0 else s.running u;
        scores = s.scores ++ (t, score) ∷ [];
      })
  stay : Allowed s nothing s

abbrev pub ticket_of : QueueRow → Ticket
ticket_of r = record { id = r.id; team_id = r.team_id }

abbrev pub score_of : ResultRow → Ticket × ℕ
score_of r = (record { id = r.queue_id; team_id = r.team_id }, r.score)

abbrev pub is_waiting_row : QueueRow → Bool
is_waiting_row r = is_waiting r.status

-- The queue that the tables stand for.
unfoldable pub view : Tables → Spec
view t = record {
  waiting = map ticket_of (order_by (λ r s. leb r.id s.id) (where_rows is_waiting_row t.queues));
  running = λ u. count_rows (finishes u.id u.team_id) t.queues;
  scores = map score_of t.results;
}
