-- ===== src/Portal/Jobs.antt =====
-- The handlers of portal/jobhandler.go: serveQueueJob, that a team calls, and serveNewJob and
-- servePostResult, that the benchmark nodes call.
pub mod Queueing
use isucon6_final.Portal.Results.{Display}
use isucon6_final.Common.{
  ℕ, ◌≡◌, ◌≢◌, ◌⊎◌, ◌∙◌, refl, Bool, true, false, Option, none, some, List, ◌∷◌, String,
  if◌then◌else◌, str_eq, arith, inl, inr,
}
use isucon6_final.Db.{
  World, Db, Result, ok, err, panic, pure, raise, panics, attempt, continue, ◌>>=◌, ◌>>◌,
}
use isucon6_final.Portal.Schema.{
  Tables, Error, wrapped, already_queued, affected, http, http_message, Job, Output, JobResult,
}
use isucon6_final.Portal.Queue.{
  enqueue_job, dequeue_job, done_job, finishes, finish_row, insert_result,
}
use isucon6_final.Sql.{count_rows, update_rows}
use isucon6_final.Portal.Queue.Outcome.{done_job_unchanged, done_job-ok}
use isucon6_final.Portal.Contest.{ContestStatus, not_started, started, ended}
use isucon6_final.Portal.Replies.{
  Team, Reply, plain, no_content, job_reply, success, redirect, server_error, reply_to, replied,
  serve_http,
}
use isucon6_final.Portal.Sessions.{Setup, Visit, contest_status, load_team_from_session}
use isucon6_final.Portal.Pages.{serve_index_with_message}
use isucon6_final.Portal.Proxies.{get_proxy_urls, get_proxy_addrs}

module _ (display : Display) (f : Setup) where
  -- `enqueueJob`'s own error is told on the first page.
  unfoldable pub reply_enqueued : Visit → Result Error (Unit {0}) → Db Tables Error Reply
  reply_enqueued v (ok u) = pure redirect
  reply_enqueued v (err (already_queued n)) =
      serve_index_with_message display f v "Job already queued"
  reply_enqueued v (err (wrapped m)) = raise (wrapped m)
  reply_enqueued v (err (affected n)) = raise (affected n)
  reply_enqueued v (err (http n)) = raise (http n)
  reply_enqueued v (err (http_message n m)) = raise (http_message n m)
  reply_enqueued v panic = panics

  unfoldable pub queue_team : Visit → ℕ → Db Tables Error Reply
  unfolding reply_enqueued
  queue_team v id = do r ← attempt (enqueue_job id); reply_enqueued v r

  unfoldable pub queue_for : Visit → Option Team → Db Tables Error Reply
  unfolding queue_team
  queue_for v none = raise (http 403)
  queue_for v (some team) =
      if str_eq team.ip_addr "" then raise (http 400) else queue_team v team.id

  unfoldable pub queue_open : Visit → Db Tables Error Reply
  unfolding queue_for
  queue_open v = do team ← load_team_from_session f v; queue_for v team

  unfoldable pub queue_in : Visit → ContestStatus → Db Tables Error Reply
  unfolding queue_open
  queue_in v not_started = raise (http_message 403 "Final has not started yet")
  queue_in v ended = raise (http_message 403 "Final has finished")
  queue_in v started = queue_open v

  unfoldable pub queue_posted : Visit → Db Tables Error Reply
  unfolding queue_in
  queue_posted v = do status ← contest_status f; queue_in v status

  unfoldable pub serve_queue_job : Visit → Db Tables Error Reply
  unfolding queue_posted
  serve_queue_job v = if v.is_post then queue_posted v else raise (http 405)

module _ (collated : String → String → Bool) (itoa : ℕ → String) where
  unfoldable pub reply_job : Job → Result Error String → Db Tables Error Reply
  reply_job j (ok urls) = pure (job_reply (record j { urls = urls }))
  reply_job j (err e) = pure server_error
  reply_job j panic = panics

  unfoldable pub reply_dequeued : Result Error (Option Job) → Db Tables Error Reply
  unfolding reply_job
  reply_dequeued (ok none) = pure no_content
  reply_dequeued (ok (some j)) = do
    urls ← attempt (get_proxy_urls collated itoa j.team_id)
    reply_job j urls
  reply_dequeued (err e) = pure server_error
  reply_dequeued panic = panics

  -- `is_post` is the test of the request's method.
  unfoldable pub new_job : String → Db Tables Error Reply
  unfolding reply_dequeued
  new_job node = do found ← attempt (dequeue_job node); reply_dequeued found

  unfoldable pub serve_new_job : Bool → String → Db Tables Error Reply
  serve_new_job is_post node = if is_post then new_job node else raise (http 405)

-- A request without a body, or with one that is no JSON, is refused; `decode_error` is the decoder's
-- text.
pub data PostedBody : Type 0 where
  missing : PostedBody
  undecodable : String → PostedBody
  decoded : JobResult → PostedBody

unfoldable pub post_result : PostedBody → Db Tables Error Reply
post_result missing = pure (plain 400 "Please send a request body")
post_result (undecodable decode_error) = pure (plain 400 decode_error)
post_result (decoded res) = do done_job res; pure success

unfoldable pub serve_post_result : Bool → PostedBody → Db Tables Error Reply
serve_post_result is_post body =
    if is_post then post_result body else pure (plain 405 "Method Not Allowd")

refused : (status_text : ℕ → String) (e : Error) → reply_to status_text (err e) ≢ success
refused status_text (http n) h = cc
refused status_text (http_message n m) h = cc
refused status_text (wrapped m) h = cc
refused status_text (already_queued n) h = cc
refused status_text (affected n) h = cc

posted :
    (status_text : ℕ → String) (r : Result Error (Unit {0})) (v : World Tables) (t : Tables)
    → (r ≢ ok tt → v.tables ≡ t)
    → ((replied status_text (continue r (λ _. pure success) v)).0 ≡ success
        × (r ≡ ok tt)
        × ((replied status_text (continue r (λ _. pure success) v)).1.tables ≡ v.tables))
      ⊎ ((replied status_text (continue r (λ _. pure success) v)).0 ≢ success
          × ((replied status_text (continue r (λ _. pure success) v)).1.tables ≡ t))
unfolding ◌>>=◌
posted status_text (ok tt) v t h = inl (refl, refl, refl)
posted status_text (err e) v t h = inr (refused status_text e, h (λ k. cc))
posted status_text panic v t h = inr ((λ k. cc), h (λ k. cc))

-- The tables once the result of a job is stored: the row is done, and its result is there.
abbrev pub stored : Job → Output → String → World Tables → Tables
stored j o stderr w = insert_result j o w.now (record w.tables {
  queues = update_rows (finishes j.id j.team_id) (finish_row stderr w.now) w.tables.queues;
})

served_result :
    (status_text : ℕ → String) (status : ContestStatus) (res : JobResult) (w : World Tables)
    → serve_http status_text status true (serve_post_result true (decoded res)) w
      ≡ replied status_text (continue (done_job res w).0 (λ _. pure success) (done_job res w).1)
unfolding serve_http serve_post_result post_result ◌>>=◌
served_result status_text not_started res w = refl
served_result status_text started res w = refl
served_result status_text ended res w = refl

-- Whatever the driver answers: a benchmark node whose post is answered with success had posted a
-- whole result of a job of which exactly one row ran, and this request has marked that row as done
-- and added the output as one result; after any other answer the tables are those from before.
pub serve_post_result-stored :
    (status_text : ℕ → String) (status : ContestStatus) (res : JobResult) (w : World Tables)
    → ((serve_http status_text status true (serve_post_result true (decoded res)) w).0 ≡ success
        × ((j : Job) × (o : Output) × (res.job ≡ some j)
            × (res.output ≡ some o)
            × (count_rows (finishes j.id j.team_id) w.tables.queues ≡ 1)
            × ((serve_http status_text status true
                  (serve_post_result true (decoded res))
                  w).1.tables
                ≡ stored j o res.stderr w)))
      ⊎ ((serve_http status_text status true (serve_post_result true (decoded res)) w).0 ≢ success
          × ((serve_http status_text status true (serve_post_result true (decoded res)) w).1.tables
              ≡ w.tables))
serve_post_result-stored status_text status res w =
    rw (served_result status_text status res w)
      (elim (posted status_text (done_job res w).0 (done_job res w).1 w.tables
        (done_job_unchanged res w)) [
          | inl (good, stores, same) ↦
              let (j, o, has_job, has_output, one, after) = done_job-ok res w stores in
              inl (good, (j, o, has_job, has_output, one, same ∙ after))
          | inr other ↦ inr other
        ])
