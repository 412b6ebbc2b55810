-- ===== src/Bench/Worker/Round.antt =====
-- One round of the worker against the portal: it asks for a job, runs it and posts the result.
use isucon6_final.Common.{
  ℕ, ◌+◌, ◌≡◌, refl, sym, ap, subst, ◌∙◌, fun_ext, Bool, true, Option, none, some, List, [], ◌∷◌,
  ◌++◌, map, String, ◌==◌, arith, inl, inr, Bool-cases, if◌then◌else◌,
}
use isucon6_final.Sql.{order_by, count_rows, first_row}
use isucon6_final.Sql.Counts.{count_rows_mono}
use isucon6_final.Db.{World, Result, ok, ◌>>=◌}
use isucon6_final.Portal.Schema.{Tables, Error, Job, Output, JobResult, QueueRow}
use isucon6_final.Portal.Contest.{ContestStatus, not_started, started, ended}
use isucon6_final.Portal.Replies.{
  Reply, plain, no_content, job_reply, success, redirect, signed_in, index_page, login_page,
  leaderboard_page, asset, messages_page, queue_page, proxies_page, proxies_text, nginx_servers,
  vars, replied, serve_http,
}
use isucon6_final.Portal.Proxies.{get_proxy_addrs, get_proxy_urls, join_urls}
use isucon6_final.Portal.Queue.{next_waiting, finishes, dequeue_job, done_job}
use isucon6_final.Portal.Queue.Invariant.{IsValid, dequeue_job-IsValid}
use isucon6_final.Portal.Queue.Outcome.{taken, job_of, dequeue_job-next, done_job-eq}
use isucon6_final.Portal.Queue.Selection.{IsFirst, next_waiting-IsFirst}
use isucon6_final.Portal.Queue.Spec.{Ticket, same_ticket, Spec, ticket_of, view}
use isucon6_final.Portal.Queue.Spec.Views.{
  Line, next_waiting-Line, view-Line, view-taken, view-done, view-running,
}
use isucon6_final.Portal.Queue.Spec.Refinement.{one_claimed}
use isucon6_final.Portal.Jobs.{
  serve_new_job, new_job, reply_dequeued, reply_job, serve_post_result, post_result, decoded,
  stored,
}
use isucon6_final.Bench.Worker.{
  Answer, responded, Fetched, failed, fetched, fetch_job, BenchRun, cut_stderr, result_of,
}

-- What arrives of a reply of the portal.
abbrev pub answer_of : Reply → Answer
answer_of (plain status m) = responded status none
answer_of no_content = responded 204 none
answer_of (job_reply j) = responded 200 (some j)
answer_of success = responded 200 none
answer_of redirect = responded 200 none
answer_of (signed_in team) = responded 200 none
answer_of (index_page p) = responded 200 none
answer_of (login_page team m) = responded 200 none
answer_of (leaderboard_page lines scores) = responded 200 none
answer_of (asset content css) = responded 200 none
answer_of (messages_page ms) = responded 200 none
answer_of (queue_page items) = responded 200 none
answer_of (proxies_page addrs) = responded 200 none
answer_of (proxies_text addrs) = responded 200 none
answer_of (nginx_servers servers) = responded 200 none
answer_of (vars counts) = responded 200 none

module _ (collated : String → String → Bool) (itoa status_text : ℕ → String)
    (decode_output : String → Output) (rune_count : String → ℕ)
    (take_runes : ℕ → String → String) where
  abbrev pub posted_result : ContestStatus → JobResult → World Tables → World Tables
  posted_result status res w =
      let (r, u) = serve_http status_text status true (serve_post_result true (decoded res)) w in u

  abbrev pub run_job : ContestStatus → BenchRun → World Tables → Fetched → World Tables
  run_job status run u failed = u
  run_job status run u (fetched none) = u
  run_job status run u (fetched (some j)) =
      posted_result status (result_of decode_output rune_count take_runes j run) u

  -- Both requests reach the portal.
  abbrev pub round : ContestStatus → String → BenchRun → World Tables → World Tables
  round status node run w =
      let (r, u) = serve_http status_text status true (serve_new_job collated itoa true node) w in
      run_job status run u (fetch_job (answer_of r))

  -- Internal paths are served at any time.
  served :
      (status : ContestStatus) (fn : World Tables → Result Error Reply × World Tables)
      (w : World Tables)
      → serve_http status_text status true fn w ≡ replied status_text (fn w)
  unfolding serve_http
  served not_started fn w = refl
  served started fn w = refl
  served ended fn w = refl

  posted_result-eq :
      (status : ContestStatus) (res : JobResult) (w after : World Tables)
      → done_job res w ≡ (ok tt, after)
      → posted_result status res w ≡ after
  unfolding serve_post_result post_result ◌>>=◌
  posted_result-eq status res w after e =
      ap (λ (p : Reply × World Tables). p.1)
        (served status (serve_post_result true (decoded res)) w)
      ∙ rw e refl

  round-eq :
      (status : ContestStatus) (node : String) (run : BenchRun) (w u : World Tables) (j : Job)
      → serve_new_job collated itoa true node w ≡ (ok (job_reply j), u)
      → round status node run w
        ≡ posted_result status (result_of decode_output rune_count take_runes j run) u
  unfolding fetch_job
  round-eq status node run w u j e =
      ap (λ (p : Reply × World Tables). run_job status run p.1 (fetch_job (answer_of p.0)))
        (served status (serve_new_job collated itoa true node) w)
      ∙ rw e refl

  first_of_line :
      (rows : List QueueRow) (k : Ticket) (rest : List Ticket)
      → map ticket_of rows ≡ k ∷ rest
      → (r : QueueRow) × (first_row rows ≡ some r)
  unfolding first_row
  first_of_line [] k rest h = cc
  first_of_line (r ∷ rows) k rest h = (r, refl)

  some_waits :
      (t : Tables) (k : Ticket) (rest : List Ticket)
      → (view t).waiting ≡ k ∷ rest
      → (r : QueueRow) × (next_waiting t.queues ≡ some r)
  unfolding view next_waiting
  some_waits t k rest h = first_of_line _ k rest h

  reply_with :
      (node : String) (r : QueueRow) (w : World Tables)
      → w.faults ≡ []
      → dequeue_job node w ≡ (ok (some (job_of r)), taken node r w)
      → (urls : String) × (serve_new_job collated itoa true node w
          ≡ (ok (job_reply (record (job_of r) { urls = urls })), taken node r w))
  unfolding serve_new_job new_job reply_dequeued reply_job get_proxy_urls get_proxy_addrs ◌>>=◌
  reply_with node r w h e =
      (join_urls collated itoa r.team_id (order_by collated w.tables.proxies), rw (e, h) refl)

  same_ticket_refl : (k : Ticket) → same_ticket k k ≡ true
  same_ticket_refl k = ground arith

  -- The job that was handed out runs once.
  runs_once :
      (node : String) (r : QueueRow) (w : World Tables) (l : Line w.tables.queues r)
      → IsValid (taken node r w).tables
      → count_rows (finishes r.id r.team_id) (taken node r w).tables.queues ≡ 1
  runs_once node r w l v =
      let k = ticket_of r in
      let more : count_rows (finishes r.id r.team_id) (taken node r w).tables.queues
          ≡ 1 + (view w.tables).running k =
        sym (view-running (taken node r w).tables k)
        ∙ ap (λ (s : Spec). s.running k) (view-taken node w.now w.tables r l)
        ∙ rw (same_ticket_refl k) refl in
      omega (
        arith,
        more,
        v.unique r.id,
        count_rows_mono (finishes r.id r.team_id) (λ s. s.id == r.id) (taken node r w).tables.queues
            (λ s. ground arith),
      )

  -- The standard error of a run as the worker sends it.
  abbrev pub sent_stderr : BenchRun → String
  sent_stderr run = cut_stderr decode_output rune_count take_runes run.stderr

  stored_by :
      (status : ContestStatus) (j : Job) (run : BenchRun) (w : World Tables)
      → w.faults ≡ []
      → count_rows (finishes j.id j.team_id) w.tables.queues ≡ 1
      → (posted_result status (result_of decode_output rune_count take_runes j run) w).tables
        ≡ stored j (decode_output run.out) (sent_stderr run) w
  unfolding result_of
  stored_by status j run w h one =
      let o = decode_output run.out in
      let res : JobResult = record { job = some j; output = some o; stderr = sent_stderr run } in
      let after : World Tables = record w { tables = stored j o (sent_stderr run) w } in
      let e : done_job res w ≡ (ok tt, after) =
        done_job-eq j o (sent_stderr run) w h ∙ rw one refl in
      ap (λ (u : World Tables). u.tables) (posted_result-eq status res w after e)

  -- What is left of taking a ticket and finishing it.
  finished_view : Ticket → ℕ → Spec → Spec
  finished_view k score s = record s {
    running = λ u. if same_ticket k u then 0 else s.running u;
    scores = s.scores ++ (k, score) ∷ [];
  }

  taken_view : Ticket → List Ticket → Spec → Spec
  taken_view k rest s = record s {
    waiting = rest;
    running = λ u. (if same_ticket k u then 1 else 0) + s.running u;
  }

  finished_taken :
      (k : Ticket) (rest : List Ticket) (score : ℕ) (s : Spec)
      → finished_view k score (taken_view k rest s) ≡ record {
        waiting = rest;
        running = λ u. if same_ticket k u then 0 else s.running u;
        scores = s.scores ++ (k, score) ∷ [];
      }
  unfolding finished_view taken_view
  finished_taken k rest score s =
      ap
        (λ (f : Ticket → ℕ). record {
          waiting = rest;
          running = f;
          scores = s.scores ++ (k, score) ∷ [];
        })
        (fun_ext (λ u. one u))
    where
      one :
          (u : Ticket)
          → (if same_ticket k u then 0 else (if same_ticket k u then 1 else 0) + s.running u)
            ≡ (if same_ticket k u then 0 else s.running u)
      one u = elim (Bool-cases (same_ticket k u)) [ inl e ↦ rw e refl | inr e ↦ rw e (omega arith) ]

  -- With a driver that does not fail, valid tables, any status of the contest, and if both requests
  -- reach the portal: where a job waits, a round of the worker takes the first one out of the line
  -- and leaves its result behind those there were, with the score that the benchmarker printed, and
  -- the job does not run any more. The tables are those from before, but for the row of that job,
  -- which was the waiting one with the lowest id and is done on this node, and for the result added.
  pub round-completes :
      (status : ContestStatus) (node : String) (run : BenchRun) (w : World Tables) (k : Ticket)
      (rest : List Ticket)
      → w.faults ≡ []
      → IsValid w.tables
      → (view w.tables).waiting ≡ k ∷ rest
      → (view (round status node run w).tables ≡ record {
        waiting = rest;
        running = λ u. if same_ticket k u then 0 else (view w.tables).running u;
        scores = (view w.tables).scores ++ (k, (decode_output run.out).score) ∷ [];
      })
        × ((r : QueueRow) × (urls : String) × IsFirst w.tables.queues r
            × ((round status node run w).tables
                ≡ stored
                    (record (job_of r) { urls = urls })
                    (decode_output run.out)
                    (sent_stderr run)
                    (taken node r w)))
  unfolding finished_view taken_view
  round-completes status node run w k rest h v line =
      let (r, first) = some_waits w.tables k rest line in
      let taking : dequeue_job node w ≡ (ok (some (job_of r)), taken node r w) =
        dequeue_job-next node w h v ∙ rw first refl in
      let l : Line w.tables.queues r =
        next_waiting-Line w.tables.queues r first (one_claimed w v r first) in
      let (urls, replies) = reply_with node r w h taking in
      let valid : IsValid (taken node r w).tables =
        subst (λ (p : Result Error (Option Job) × World Tables). IsValid p.1.tables) taking
          ((dequeue_job-IsValid node).at w v) in
      let j : Job = record (job_of r) { urls = urls } in
      let o = decode_output run.out in
      let both : k ∷ rest ≡ ticket_of r ∷ map ticket_of l.rest =
        sym line ∙ view-Line w.tables r l in
      let first_one : k ≡ ticket_of r = cc in
      let others : rest ≡ map ticket_of l.rest = cc in
      let after : (round status node run w).tables ≡ stored j o (sent_stderr run) (taken node r w) =
        ap (λ (u : World Tables). u.tables) (round-eq status node run w (taken node r w) j replies)
        ∙ stored_by status j run (taken node r w) h (runs_once node r w l valid) in
      (
        ap view after
            ∙ view-done j o (sent_stderr run) w.now (taken node r w).tables
            ∙ ap (finished_view (ticket_of r) o.score) (view-taken node w.now w.tables r l)
            ∙ rw (first_one, others)
                (finished_taken (ticket_of r) (map ticket_of l.rest) o.score (view w.tables)),
        (r, urls, next_waiting-IsFirst w.tables.queues r first, after),
      )
