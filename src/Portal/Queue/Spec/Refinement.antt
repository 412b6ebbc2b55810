-- ===== src/Portal/Queue/Spec/Refinement.antt =====
-- The tables and the code of portal/queue.go implement the queue of Spec.
use isucon6_final.Common.{
  ℕ, ◌≡◌, ◌≢◌, refl, ◌∙◌, Bool, Option, none, some, inl, inr, List, [], ◌∷◌, map, arith, ◌==◌,
  Option-cases, String,
}
use isucon6_final.Sql.{count_rows}
use isucon6_final.Sql.Counts.{count_rows_mono}
use isucon6_final.Db.{World, Result, ok, err, panic, ◌>>=◌}
use isucon6_final.Portal.Schema.{QueueRow, Tables, Error, Job, Output, JobResult}
use isucon6_final.Portal.Queue.{claims, enqueue_job, dequeue_job, done_job, next_waiting}
use isucon6_final.Portal.Queue.Invariant.{IsValid}
use isucon6_final.Portal.Queue.Outcome.{job_of, dequeue_job-some, done_job-ok, done_job_unchanged}
use isucon6_final.Portal.Queue.Spec.{
  Spec, Event, queued, handed, finished, nothing, Allowed, queue, hand, finish, stay, ticket_of,
  view,
}
use isucon6_final.Portal.Queue.{claim_job}
use isucon6_final.Portal.Queue.Outcome.{
  enqueue_job-ok, enqueue_job_unchanged, dequeue_job-cases, claim_job-none,
}
use isucon6_final.Portal.Queue.Invariant.{
  enqueue_job-IsValid, dequeue_job-IsValid, done_job-IsValid,
}
use isucon6_final.Portal.Queue.Selection.{next_waiting-some}
use isucon6_final.Portal.Queue.Spec.Views.{
  Line, view-Line, view-running, next_waiting-Line, view-insert_queue, view-taken, view-done,
  view-IsIdle,
}

-- A request of the portal: a team queues a job, a node asks for one, a node posts a result.
pub data Request : Type 0 where
  to_queue : ℕ → Request
  to_hand : String → Request
  to_finish : JobResult → Request

-- A request at a time, with the answers of the driver to its calls.
pub record Call : Type 0 where
  pub request : Request
  pub now : ℕ
  pub faults : List Bool

abbrev pub queue_event : ℕ → ℕ → Result Error (Unit {0}) → Event
queue_event id team (ok u) = queued (record { id = id; team_id = team })
queue_event id team (err e) = nothing
queue_event id team panic = nothing

abbrev pub hand_event : Result Error (Option Job) → Event
hand_event (ok none) = nothing
hand_event (ok (some j)) = handed (record { id = j.id; team_id = j.team_id })
hand_event (err e) = nothing
hand_event panic = nothing

abbrev pub result_event : Option Job → Option Output → Event
result_event none o = nothing
result_event (some j) none = nothing
result_event (some j) (some o) = finished (record { id = j.id; team_id = j.team_id }) o.score

abbrev pub finish_event : JobResult → Result Error (Unit {0}) → Event
finish_event res (ok u) = result_event res.job res.output
finish_event res (err e) = nothing
finish_event res panic = nothing

abbrev pub perform : Request → World Tables → Event × Tables
perform (to_queue team) w =
    let (r, v) = enqueue_job team w in (queue_event w.tables.next_queue team r, v.tables)
perform (to_hand node) w = let (r, v) = dequeue_job node w in (hand_event r, v.tables)
perform (to_finish res) w = let (r, v) = done_job res w in (finish_event res r, v.tables)

abbrev pub call : Call → Tables → Event × Tables
call c t = perform c.request (record { tables = t; now = c.now; faults = c.faults })

-- Requests one after another, and what they did.
abbrev pub run : List Call → Tables → List Event × Tables
run [] t = ([], t)
run (c ∷ cs) t = let (e, u) = call c t in let (es, v) = run cs u in (e ∷ es, v)

-- A sequence of events that the queue of Spec allows.
abbrev pub AllAllowed : Spec → List Event → Spec → Type 0
AllAllowed s [] u = s ≡ u
AllAllowed s (e ∷ es) u = (v : Spec) × Allowed s e v × AllAllowed v es u

claim_job_unchanged :
    (node : String) (r : QueueRow) (w : World Tables)
    → count_rows (claims r.id) w.tables.queues ≡ 1
    → ((j : Job) → (claim_job node (some r) w).0 ≢ ok (some j))
    → (claim_job node (some r) w).1.tables ≡ w.tables
unfolding claim_job ◌>>=◌
claim_job_unchanged node r w one h = ground (arith, h (job_of r))

module _ (w : World Tables) (v : IsValid w.tables) where
  pub one_claimed :
      (r : QueueRow)
      → next_waiting w.tables.queues ≡ some r
      → count_rows (claims r.id) w.tables.queues ≡ 1
  one_claimed r e = omega (
    arith,
    v.unique r.id,
    (next_waiting-some w.tables.queues r e).0,
    count_rows_mono (claims r.id) (λ s. s.id == r.id) w.tables.queues (λ s. ground arith),
  )

  dequeue_job_unchanged :
      (node : String)
      → ((j : Job) → (dequeue_job node w).0 ≢ ok (some j))
      → (dequeue_job node w).1.tables ≡ w.tables
  dequeue_job_unchanged node h = elim (dequeue_job-cases node w) [
    | inl (_, same) ↦ same
    | inr (rest, e) ↦ elim (Option-cases (next_waiting w.tables.queues)) [
      | inl none_waits ↦ rw (e, none_waits, claim_job-none node (record w { faults = rest })) refl
      | inr (r, some_waits) ↦
          rw (e, some_waits)
            (claim_job_unchanged node r (record w { faults = rest }) (one_claimed r some_waits)
              (λ j k. h j (rw (e, some_waits) k)))
    ]
  ]

  queue_refines :
      (team : ℕ) (r : Result Error (Unit {0}))
      → (enqueue_job team w).0 ≡ r
      → Allowed
          (view w.tables)
          (queue_event w.tables.next_queue team r)
          (view (enqueue_job team w).1.tables)
  queue_refines team (ok tt) e =
      let (idle, after) = enqueue_job-ok team w e in
      rw (after, view-insert_queue team w.now w.tables v.fresh)
        (queue (record { id = w.tables.next_queue; team_id = team })
          (view-IsIdle team w.tables idle))
  queue_refines team (err x) e = rw (enqueue_job_unchanged team w (λ k. cc)) stay
  queue_refines team panic e = rw (enqueue_job_unchanged team w (λ k. cc)) stay

  hand_refines :
      (node : String) (r : Result Error (Option Job))
      → (dequeue_job node w).0 ≡ r
      → Allowed (view w.tables) (hand_event r) (view (dequeue_job node w).1.tables)
  hand_refines node (ok (some j)) e =
      let (r, first, same, one, after) = dequeue_job-some node w j e in
      let l : Line w.tables.queues r = next_waiting-Line w.tables.queues r first one in
      rw (after, same, view-taken node w.now w.tables r l)
        (hand (ticket_of r) (map ticket_of l.rest) (view-Line w.tables r l))
  hand_refines node (ok none) e = rw (dequeue_job_unchanged node (λ j k. cc)) stay
  hand_refines node (err x) e = rw (dequeue_job_unchanged node (λ j k. cc)) stay
  hand_refines node panic e = rw (dequeue_job_unchanged node (λ j k. cc)) stay

  finish_refines :
      (res : JobResult) (r : Result Error (Unit {0}))
      → (done_job res w).0 ≡ r
      → Allowed (view w.tables) (finish_event res r) (view (done_job res w).1.tables)
  finish_refines res (ok tt) e =
      let (j, o, has_job, has_output, one, after) = done_job-ok res w e in
      rw (after, has_job, has_output, view-done j o res.stderr w.now w.tables)
        (finish (record { id = j.id; team_id = j.team_id }) o.score
          (view-running w.tables (record { id = j.id; team_id = j.team_id }) ∙ one))
  finish_refines res (err x) e = rw (done_job_unchanged res w (λ k. cc)) stay
  finish_refines res panic e = rw (done_job_unchanged res w (λ k. cc)) stay

perform_refines :
    (q : Request) (w : World Tables)
    → IsValid w.tables
    → Allowed (view w.tables) (perform q w).0 (view (perform q w).1)
perform_refines (to_queue team) w v = queue_refines w v team (enqueue_job team w).0 refl
perform_refines (to_hand node) w v = hand_refines w v node (dequeue_job node w).0 refl
perform_refines (to_finish res) w v = finish_refines w v res (done_job res w).0 refl

perform-IsValid : (q : Request) (w : World Tables) → IsValid w.tables → IsValid (perform q w).1
perform-IsValid (to_queue team) w v = (enqueue_job-IsValid team).at w v
perform-IsValid (to_hand node) w v = (dequeue_job-IsValid node).at w v
perform-IsValid (to_finish res) w v = (done_job-IsValid res).at w v

-- Any sequence of requests, at any times and with any answers of the driver, does to valid tables
-- what the abstract queue allows: each request queues its job at the end of the line, or hands out
-- the first job of the line, or stores the result of a job that runs, or does nothing.
pub run_refines :
    (cs : List Call) (t : Tables) → IsValid t → AllAllowed (view t) (run cs t).0 (view (run cs t).1)
run_refines [] t v = refl
run_refines (c ∷ cs) t v =
    let w : World Tables = record { tables = t; now = c.now; faults = c.faults } in
    (
      view (call c t).1,
      perform_refines c.request w v,
      run_refines cs (call c t).1 (perform-IsValid c.request w v),
    )
