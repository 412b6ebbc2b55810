-- ===== src/Portal/Mux/Valid.antt =====
-- Every request, on every path, keeps the queue of the portal valid.
use isucon6_final.Portal.Results.{Display}
use isucon6_final.Common.{ℕ, Bool, Option, none, some, List, [], ◌∷◌, String, All}
use isucon6_final.Db.{World, Result, ok, err, panic}
use isucon6_final.Db.Keeps.{Keeps, Keeps-raise, Keeps-if, Keeps-attempt, Keeps-bind, keeps_rules}
use isucon6_final.Db.Reads.{Reads-Keeps}
use isucon6_final.Portal.Schema.{
  Tables, Error, wrapped, already_queued, affected, http, http_message, Job,
}
use isucon6_final.Portal.Contest.{ContestStatus, not_started, started, ended}
use isucon6_final.Portal.Queue.Invariant.{
  IsValid, enqueue_job-IsValid, dequeue_job-IsValid, done_job-IsValid,
}
use isucon6_final.Portal.Proxies.{get_proxy_addrs, get_proxy_urls}
use isucon6_final.Portal.Replies.{Team, Reply}
use isucon6_final.Portal.Sessions.{Setup, Visit}
use isucon6_final.Portal.Sessions.Reading.{contest_status-Reads, load_team_from_session-Reads}
use isucon6_final.Portal.Pages.Own.{serve_index_with_message-Reads}
use isucon6_final.Portal.Jobs.{
  reply_enqueued, queue_team, queue_for, queue_open, queue_in, queue_posted, serve_queue_job,
  reply_job, reply_dequeued, new_job, serve_new_job, PostedBody, missing, undecodable, decoded,
  post_result, serve_post_result,
}
use isucon6_final.Portal.Mux.Reading.{
  serve_index-Reads, serve_debug_leaderboard-Reads, serve_login-Reads, serve_static-Reads,
  nginx_conf_handler-Reads, expvar_handler-Reads, serve_debug_queue-Reads,
  serve_debug_proxies-Reads,
}
use isucon6_final.Portal.Mux.{Library, Request, Mounted, build_mux, serve, serve_all}
use isucon6_final.Portal.Mux.Mounting.{Each, serve-keeps}
use isucon6_final.Portal.Mux.Apart.{
  messages_handler-IsValid, proxy_update_handler-IsValid, serve_update_team-IsValid,
}

module _ (display : Display) (f : Setup) (v : Visit) where
  reply_enqueued-IsValid :
      (r : Result Error (Unit {0})) → Keeps IsValid (reply_enqueued display f v r)
  unfolding reply_enqueued
  reply_enqueued-IsValid (ok u) = search keeps_rules
  reply_enqueued-IsValid (err (already_queued n)) =
      Reads-Keeps _ _ (serve_index_with_message-Reads display f v "Job already queued")
  reply_enqueued-IsValid (err (wrapped m)) = search keeps_rules
  reply_enqueued-IsValid (err (affected n)) = search keeps_rules
  reply_enqueued-IsValid (err (http n)) = search keeps_rules
  reply_enqueued-IsValid (err (http_message n m)) = search keeps_rules
  reply_enqueued-IsValid panic = search keeps_rules

  queue_team-IsValid : (id : ℕ) → Keeps IsValid (queue_team display f v id)
  unfolding queue_team
  queue_team-IsValid id =
      Keeps-bind _ _ (Keeps-attempt _ (enqueue_job-IsValid id)) reply_enqueued-IsValid

  queue_for-IsValid : (team : Option Team) → Keeps IsValid (queue_for display f v team)
  unfolding queue_for
  queue_for-IsValid none = search keeps_rules
  queue_for-IsValid (some team) = search (keeps_rules, queue_team-IsValid team.id)

  queue_in-IsValid : (s : ContestStatus) → Keeps IsValid (queue_in display f v s)
  unfolding queue_in queue_open
  queue_in-IsValid not_started = search keeps_rules
  queue_in-IsValid ended = search keeps_rules
  queue_in-IsValid started =
      Keeps-bind _ _ (Reads-Keeps _ _ (load_team_from_session-Reads f v)) queue_for-IsValid

  serve_queue_job-IsValid : Keeps IsValid (serve_queue_job display f v)
  unfolding serve_queue_job queue_posted
  serve_queue_job-IsValid =
      Keeps-if v.is_post _ _
        (λ _. Keeps-bind _ _ (Reads-Keeps _ _ (contest_status-Reads f)) queue_in-IsValid)
        (λ _. Keeps-raise _)

module _ (collated : String → String → Bool) (itoa : ℕ → String) where
  reply_job-IsValid :
      (j : Job) (r : Result Error String) → Keeps IsValid (reply_job collated itoa j r)
  unfolding reply_job
  reply_job-IsValid j (ok urls) = search keeps_rules
  reply_job-IsValid j (err e) = search keeps_rules
  reply_job-IsValid j panic = search keeps_rules

  reply_dequeued-IsValid :
      (r : Result Error (Option Job)) → Keeps IsValid (reply_dequeued collated itoa r)
  unfolding reply_dequeued get_proxy_urls get_proxy_addrs
  reply_dequeued-IsValid (ok none) = search keeps_rules
  reply_dequeued-IsValid (ok (some j)) = search (keeps_rules, reply_job-IsValid j)
  reply_dequeued-IsValid (err e) = search keeps_rules
  reply_dequeued-IsValid panic = search keeps_rules

  serve_new_job-IsValid :
      (post : Bool) (node : String) → Keeps IsValid (serve_new_job collated itoa post node)
  unfolding serve_new_job new_job
  serve_new_job-IsValid post node =
      Keeps-if post _ _
        (λ _. Keeps-bind _ _ (Keeps-attempt _ (dequeue_job-IsValid node)) reply_dequeued-IsValid)
        (λ _. Keeps-raise _)

post_result-IsValid : (body : PostedBody) → Keeps IsValid (post_result body)
unfolding post_result
post_result-IsValid missing = search keeps_rules
post_result-IsValid (undecodable m) = search keeps_rules
post_result-IsValid (decoded res) = search (keeps_rules, done_job-IsValid res)

serve_post_result-IsValid :
    (post : Bool) (body : PostedBody) → Keeps IsValid (serve_post_result post body)
unfolding serve_post_result
serve_post_result-IsValid post body = search (keeps_rules, post_result-IsValid body)

module _ (l : Library) (f : Setup) where
  build_mux-IsValid :
      (r : Request)
      → All (λ (m : String × Mounted). Each (λ fn. Keeps IsValid fn) m.1) (build_mux l f r)
  unfolding build_mux
  build_mux-IsValid r = (
    Reads-Keeps _ _ (serve_index-Reads l.display f r.visit),
    (
      tt,
      (
        Reads-Keeps _ _ (serve_login-Reads l.id_is l.same_text f r.visit _ _),
        (
          Reads-Keeps _ _ (serve_static-Reads l.content _ _),
          (
            serve_queue_job-IsValid l.display f r.visit,
            (
              serve_update_team-IsValid l.is_ipv4 f r.visit _ _,
              (
                proxy_update_handler-IsValid _ l.run_insert r.visit.is_post r.members,
                (
                  Reads-Keeps _ _ nginx_conf_handler-Reads,
                  (
                    serve_new_job-IsValid l.collated l.itoa r.visit.is_post _,
                    (
                      serve_post_result-IsValid r.visit.is_post r.body,
                      (
                        Reads-Keeps _ _ expvar_handler-Reads,
                        (
                          Reads-Keeps _ _ serve_debug_queue-Reads,
                          (
                            Reads-Keeps _ _ (serve_debug_leaderboard-Reads l.display f),
                            (
                              Reads-Keeps _ _ (serve_debug_proxies-Reads l.collated l.itoa),
                              (messages_handler-IsValid r.visit.is_post r.messages, tt),
                            ),
                          ),
                        ),
                      ),
                    ),
                  ),
                ),
              ),
            ),
          ),
        ),
      ),
    ),
  )

  module _ (matched : List String → String → Option String) (own : Request → Reply) where
    -- Any requests to any paths of the portal, one after another, keep its queue valid, from every
    -- valid state and whatever the driver answers: row ids are below the counter and occur once,
    -- and no team has two jobs that are waiting or running.
    pub serve_all-IsValid :
        (rs : List Request) (w : World Tables)
        → IsValid w.tables
        → IsValid (serve_all l f matched own rs w).tables
    unfolding serve_all
    serve_all-IsValid [] w v = v
    serve_all-IsValid (r ∷ rs) w v =
        serve_all-IsValid rs (serve l f matched own r w).1
          (serve-keeps l f matched own IsValid r w (build_mux-IsValid r) v)
