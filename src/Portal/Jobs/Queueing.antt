-- ===== src/Portal/Jobs/Queueing.antt =====
-- When serveQueueJob queues a job.
use isucon6_final.Portal.Results.{Display}
use isucon6_final.Common.{
  ℕ, ◌≡◌, ◌≢◌, ◌⊎◌, refl, ap, subst, ◌∙◌, Bool, true, false, Option, none, some, str_eq, inl, inr,
  Bool-cases, if◌then◌else◌,
}
use isucon6_final.Sql.{count_rows}
use isucon6_final.Db.{World, Result, ok, err, panic, continue, attempted, raise, ◌>>=◌}
use isucon6_final.Portal.Schema.{
  Tables, Error, http, http_message, wrapped, already_queued, affected,
}
use isucon6_final.Portal.Contest.{ContestStatus, not_started, started, ended, get_contest_status}
use isucon6_final.Portal.Queue.{holds, insert_queue, enqueue_job}
use isucon6_final.Portal.Queue.Outcome.{enqueue_job-ok, enqueue_job_unchanged}
use isucon6_final.Portal.Replies.{Team, Reply, redirect}
use isucon6_final.Portal.Sessions.{Setup, Visit, contest_status, load_team_from_session}
use isucon6_final.Portal.Sessions.Reading.{load_team_from_session-Reads}
use isucon6_final.Portal.Pages.Own.{serve_index_with_message-Reads, serve_index_with_message-shown}
use isucon6_final.Portal.Jobs.{
  reply_enqueued, queue_team, queue_for, queue_open, queue_in, queue_posted, serve_queue_job,
}

-- The answer is no redirect and the tables are as before, or it is, and they have one more row: a
-- waiting job of a team that had none waiting or running.
abbrev pub QueuedOnly : (Team → Type 0) → Tables → ℕ → Result Error Reply → Tables → Type 0
QueuedOnly may t now r u =
    ((r ≢ ok redirect) × (u ≡ t))
    ⊎ ((r ≡ ok redirect)
        × ((team : Team) × may team
            × (count_rows (holds team.id) t.queues ≡ 0)
            × (u ≡ insert_queue team.id now t)))

module _ (display : Display) (f : Setup) (v : Visit) where
  replied_queued :
      (may : Team → Type 0) (team : Team) (w u : World Tables) (r : Result Error (Unit {0}))
      → may team
      → (r ≡ ok tt
          → (count_rows (holds team.id) w.tables.queues ≡ 0)
            × (u.tables ≡ insert_queue team.id w.now w.tables))
      → (r ≢ ok tt → u.tables ≡ w.tables)
      → (let (a, x) =
            continue {E = Error}
              (attempted {E = Error} (r, u)).0
              (reply_enqueued display f v)
              (attempted {E = Error} (r, u)).1 in
          QueuedOnly may w.tables w.now a x.tables)
  unfolding reply_enqueued ◌>>=◌
  replied_queued may team w u (ok tt) m h k =
      let (idle, after) = h refl in inr (refl, (team, m, idle, after))
  replied_queued may team w u (err (already_queued n)) m h k =
      let (rest, same) = (serve_index_with_message-Reads display f v "Job already queued").at u in
      inl (
        serve_index_with_message-shown display f v "Job already queued" u,
        ap (λ (x : World Tables). x.tables) same ∙ k (λ e. cc),
      )
  replied_queued may team w u (err (wrapped n)) m h k = inl ((λ e. cc), k (λ e. cc))
  replied_queued may team w u (err (affected n)) m h k = inl ((λ e. cc), k (λ e. cc))
  replied_queued may team w u (err (http n)) m h k = inl ((λ e. cc), k (λ e. cc))
  replied_queued may team w u (err (http_message n x)) m h k = inl ((λ e. cc), k (λ e. cc))
  replied_queued may team w u panic m h k = inl ((λ e. cc), k (λ e. cc))

  queue_team-queued :
      (may : Team → Type 0) (team : Team) (w : World Tables)
      → may team
      → (let (a, x) = queue_team display f v team.id w in QueuedOnly may w.tables w.now a x.tables)
  unfolding queue_team ◌>>=◌
  queue_team-queued may team w m =
      replied_queued may team w (enqueue_job team.id w).1 (enqueue_job team.id w).0 m
        (enqueue_job-ok team.id w) (enqueue_job_unchanged team.id w)

  -- The team of the session has an address.
  found_queued :
      (may : Team → Type 0) (w : World Tables) (r : Result Error (Option Team))
      → ((team : Team) → r ≡ ok (some team) → str_eq team.ip_addr "" ≡ false → may team)
      → (let (a, x) = continue r (queue_for display f v) w in
          QueuedOnly may w.tables w.now a x.tables)
  unfolding queue_for ◌>>=◌
  found_queued may w (ok none) h = inl ((λ e. cc), refl)
  found_queued may w (ok (some team)) h = elim (Bool-cases (str_eq team.ip_addr "")) [
    | inl e ↦ rw e (inl ((λ k. cc), refl))
    | inr e ↦ rw e (queue_team-queued may team w (h team refl e))
  ]
  found_queued may w (err e) h = inl ((λ k. cc), refl)
  found_queued may w panic h = inl ((λ k. cc), refl)

  module _ (w : World Tables) where
    abbrev pub MayQueue : Team → Type 0
    MayQueue team =
        (v.is_post ≡ true)
        × (get_contest_status f.starts f.ends f.midnight w.now ≡ started)
        × ((load_team_from_session f v w).0 ≡ ok (some team))
        × (str_eq team.ip_addr "" ≡ false)

    queue_open-queued :
        v.is_post ≡ true
        → get_contest_status f.starts f.ends f.midnight w.now ≡ started
        → (let (a, x) = queue_open display f v w in QueuedOnly MayQueue w.tables w.now a x.tables)
    unfolding queue_open ◌>>=◌
    queue_open-queued post now =
        let (rest, after) = (load_team_from_session-Reads f v).at w in
        let (found, u) = load_team_from_session f v w in
        subst
          (λ (x : World Tables).
            QueuedOnly MayQueue x.tables x.now (continue found (queue_for display f v) u).0
              (continue found (queue_for display f v) u).1.tables)
          after (found_queued MayQueue u found (λ team same address. (post, now, same, address)))

    queue_in-queued :
        (status : ContestStatus)
        → v.is_post ≡ true
        → get_contest_status f.starts f.ends f.midnight w.now ≡ status
        → (let (a, x) = queue_in display f v status w in
            QueuedOnly MayQueue w.tables w.now a x.tables)
    unfolding queue_in ◌>>=◌
    queue_in-queued not_started post e = inl ((λ k. cc), refl)
    queue_in-queued ended post e = inl ((λ k. cc), refl)
    queue_in-queued started post e = queue_open-queued post e

    post_queued :
        (post : Bool)
        → v.is_post ≡ post
        → (let (a, x) = (if post then queue_posted display f v else raise (http 405)) w in
            QueuedOnly MayQueue w.tables w.now a x.tables)
    unfolding queue_posted contest_status ◌>>=◌
    post_queued true e =
        queue_in-queued (get_contest_status f.starts f.ends f.midnight w.now) e refl
    post_queued false e = inl ((λ k. cc), refl)

    -- `serveQueueJob` answers with the redirect exactly when it has queued a job, and then for the
    -- team that the session is of, which has an address and had no job waiting or running, for a POST
    -- and while the contest runs. With any other answer, whatever the driver answered, it has changed
    -- nothing.
    pub serve_queue_job-queued :
        QueuedOnly MayQueue w.tables w.now
          (serve_queue_job display f v w).0
          (serve_queue_job display f v w).1.tables
    unfolding serve_queue_job
    serve_queue_job-queued = post_queued v.is_post refl
