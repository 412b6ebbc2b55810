-- ===== src/Portal/Queue/Listing.antt =====
-- The lists of jobs that the portal shows (getQueuedJobs and getQueueItems of portal/queue.go). Rows
-- of equal time keep the order of the table, where the database may choose.
use isucon6_final.Common.{
  ℕ, ◌≡◌, ◌≢◌, refl, ◌∙◌, Bool, ◌&&◌, not, Option, none, some, List, [], ◌∷◌, map, String, leb,
  ◌==◌, take, arith,
}
use isucon6_final.Sql.{count_rows, where_rows, order_by, first_row}
use isucon6_final.Sql.Sorted.{count-order_by}
use isucon6_final.Db.{World, Db, ok, pure, raise, query, ◌>>=◌}
use isucon6_final.Portal.Schema.{Status, QueueRow, TeamRow, Tables, Error, wrapped}
use isucon6_final.Portal.Contest.{ContestStatus, not_started, started, ended}
use isucon6_final.Portal.Queue.{is_active, holds}

pub record QueuedJob : Type 0 where
  pub team_id : ℕ
  pub status : Status

abbrev pub is_listed : QueueRow → Bool
is_listed r = is_active r.status && not (r.team_id == 9999)

abbrev pub queued_job : QueueRow → QueuedJob
queued_job r = record { team_id = r.team_id; status = r.status }

abbrev pub queued_jobs : List QueueRow → List QueuedJob
queued_jobs rows =
    map queued_job (order_by (λ r s. leb r.created_at s.created_at) (where_rows is_listed rows))

-- The jobs that are not done, while the contest runs.
unfoldable pub get_queued_jobs : ContestStatus → Db Tables Error (List QueuedJob)
get_queued_jobs started = query (wrapped "") (λ t _. queued_jobs t.queues)
get_queued_jobs not_started = pure []
get_queued_jobs ended = pure []

pub record QueueItem : Type 0 where
  pub row : QueueRow
  pub team_name : String

-- A row without a team has no name, which cannot be scanned into a string.
abbrev pub queue_item : List TeamRow → QueueRow → Option QueueItem
queue_item teams r = named (first_row (where_rows (λ (t : TeamRow). t.id == r.team_id) teams))
  where
    named : Option TeamRow → Option QueueItem
    named none = none
    named (some t) = some (record { row = r; team_name = t.name })

abbrev pub queue_items : List TeamRow → List QueueRow → Option (List QueueItem)
queue_items teams [] = some []
queue_items teams (r ∷ rows) = item (queue_item teams r) (queue_items teams rows)
  where
    item : Option QueueItem → Option (List QueueItem) → Option (List QueueItem)
    item none rest = none
    item (some i) none = none
    item (some i) (some rest) = some (i ∷ rest)

unfoldable pub scanned : Option (List QueueItem) → Db Tables Error (List QueueItem)
scanned none = raise (wrapped "")
scanned (some items) = pure items

unfoldable pub get_queue_items : ℕ → Db Tables Error (List QueueItem)
unfolding scanned
get_queue_items limit = do
  items ← query (wrapped "") (λ t _.
      queue_items t.teams (take limit (order_by (λ r s. leb s.created_at r.created_at) t.queues)))
  scanned items

count-queued_job :
    (team : ℕ) (rows : List QueueRow)
    → count_rows (λ (j : QueuedJob). j.team_id == team) (map queued_job rows)
      ≡ count_rows (λ (r : QueueRow). r.team_id == team) rows
unfolding count_rows
count-queued_job team [] = refl
count-queued_job team (r ∷ rows) = ground (arith, count-queued_job team rows)

count-is_listed :
    (team : ℕ) (rows : List QueueRow)
    → team ≢ 9999
    → count_rows (λ (r : QueueRow). r.team_id == team) (where_rows is_listed rows)
      ≡ count_rows (holds team) rows
unfolding count_rows where_rows
count-is_listed team [] h = refl
count-is_listed team (r ∷ rows) h = ground (arith, count-is_listed team rows h)

-- While the contest runs, and with a driver that does not fail, the list shows of every team but
-- 9999 exactly as many jobs as it has waiting or running.
pub get_queued_jobs-count :
    (team : ℕ) (w : World Tables)
    → team ≢ 9999
    → w.faults ≡ []
    → (jobs : List QueuedJob) × ((get_queued_jobs started w).0 ≡ ok jobs)
      × (count_rows (λ j. j.team_id == team) jobs ≡ count_rows (holds team) w.tables.queues)
unfolding get_queued_jobs ◌>>=◌
get_queued_jobs-count team w h e = (
  queued_jobs w.tables.queues,
  ground arith,
  count-queued_job team _
      ∙ count-order_by (λ (r : QueueRow). r.team_id == team) _ _
      ∙ count-is_listed team w.tables.queues h,
)
