-- ===== src/Portal/Replies.antt =====
-- What the handlers of the portal answer (the parameters of the templates in portal/web.go, and
-- portal/main.go's `handler.ServeHTTP`, which makes an answer of what a handler returns).
use isucon6_final.Common.{ℕ, Bool, true, false, Option, List, String}
use isucon6_final.Db.{World, Db, Result, ok, err, panic}
use isucon6_final.Portal.Schema.{
  Tables, Error, wrapped, already_queued, affected, http, http_message, Job, Status,
}
use isucon6_final.Portal.Contest.{ContestStatus, not_started, started, ended}
use isucon6_final.Portal.Messages.{Message}
use isucon6_final.Portal.Results.{PlotLine, LatestScore, TeamResult}
use isucon6_final.Portal.Queue.Listing.{QueuedJob, QueueItem}

pub record Team : Type 0 where
  pub id : ℕ
  pub name : String
  pub ip_addr : String
  pub instance_name : String

pub record IndexPage : Type 0 where
  pub team : Option Team
  pub plot_lines : List PlotLine
  pub latest_scores : List LatestScore
  pub is_ranking_fixed : Bool
  pub team_results : List TeamResult
  pub jobs : List QueuedJob
  pub messages : List Message

-- What a handler writes: a text or an error with its status, no content, a job, success, a redirect
-- to the first page, the same with a team in the session, the parameters of a page, or an asset and
-- whether its type is set to that of a style sheet; then the pages and texts for the staff: notices,
-- jobs, proxies (as a page and as lines), the servers for nginx and the number of jobs by status.
pub data Reply : Type 0 where
  plain : ℕ → String → Reply
  no_content : Reply
  job_reply : Job → Reply
  success : Reply
  redirect : Reply
  signed_in : ℕ → Reply
  index_page : IndexPage → Reply
  login_page : Option Team → String → Reply
  leaderboard_page : List PlotLine → List LatestScore → Reply
  asset : String → Bool → Reply
  messages_page : List Message → Reply
  queue_page : List QueueItem → Reply
  proxies_page : List String → Reply
  proxies_text : List String → Reply
  nginx_servers : List (ℕ × String) → Reply
  vars : List (Status × ℕ) → Reply

abbrev pub server_error : Reply
server_error = plain 500 "Internal Server Error"

-- The text of an `errHTTP` is http.StatusText's.
module _ (status_text : ℕ → String) where
  abbrev pub reply_to : Result Error Reply → Reply
  reply_to (ok r) = r
  reply_to (err (http n)) = plain n (status_text n)
  reply_to (err (http_message n m)) = plain n m
  reply_to (err (wrapped m)) = server_error
  reply_to (err (already_queued n)) = server_error
  reply_to (err (affected n)) = server_error
  reply_to panic = server_error

  abbrev pub replied : Result Error Reply × World Tables → Reply × World Tables
  replied (r, w) = (reply_to r, w)

  -- A request before the contest is refused, unless its path is internal. A panic of the handler is
  -- recovered.
  unfoldable pub serve_http :
      ContestStatus → Bool → Db Tables Error Reply → World Tables → Reply × World Tables
  serve_http not_started true fn w = replied (fn w)
  serve_http not_started false fn w = (plain 403 "Final has not started yet", w)
  serve_http started internal fn w = replied (fn w)
  serve_http ended internal fn w = replied (fn w)
