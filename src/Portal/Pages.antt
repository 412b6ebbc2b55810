-- ===== src/Portal/Pages.antt =====
-- The pages of the portal (the handlers of portal/web.go). A page is the parameters of its template;
-- that executing a template may fail is left out. Comparing a posted text with a column is the
-- database's, and net.ParseIP and consul are not part of the repository.
pub mod Own
mod Tests
use isucon6_final.Common.{
  ℕ, ◌+◌, ◌*◌, ◌==◌, Bool, true, false, ◌&&◌, not, Option, none, some, List, [], ◌∷◌, ◌++◌, String,
  str_eq, ltb, if◌then◌else◌,
}
use isucon6_final.Sql.{where_rows, first_row, update_rows}
use isucon6_final.Db.{Db, pure, raise, exec, query, clock, sleep, ◌>>=◌, ◌>>◌}
use isucon6_final.Portal.Schema.{Tables, TeamRow, Error, wrapped, http}
use isucon6_final.Portal.Contest.{ContestStatus, not_started, started, ended, get_ranking_fixed_at}
use isucon6_final.Portal.Messages.{Message, get_messages}
use isucon6_final.Portal.Results.{Display, get_results, get_team_results}
use isucon6_final.Portal.Queue.Listing.{get_queued_jobs}
use isucon6_final.Portal.Replies.{
  Team, IndexPage, Reply, plain, redirect, signed_in, index_page, login_page, leaderboard_page,
  asset,
}
use isucon6_final.Portal.Sessions.{
  Setup, Visit, StoredSession, broken, session, contest_status, load_team_from_session,
}

abbrev pub team_id_of : Option Team → ℕ
team_id_of none = 0
team_id_of (some t) = t.id

abbrev pub with_message : String → List Message → List Message
with_message m ms = if str_eq m "" then ms else ms ++ record { message = m; kind = "danger" } ∷ []

module _ (display : Display) (f : Setup) where
  abbrev pub ranking_fixed_at : ℕ
  ranking_fixed_at = get_ranking_fixed_at f.forever f.ends f.midnight

  unfoldable pub load_index : Visit → String → Db Tables Error IndexPage
  load_index v message = do
    team ← load_team_from_session f v
    shown ← get_results display (team_id_of team) ranking_fixed_at
    results ← get_team_results (team_id_of team)
    status ← contest_status f
    jobs ← get_queued_jobs status
    messages ← get_messages
    now ← clock
    pure (record {
      team = team;
      plot_lines = shown.0;
      latest_scores = shown.1;
      is_ranking_fixed = ltb ranking_fixed_at now;
      team_results = results;
      jobs = jobs;
      messages = with_message message messages;
    })

  unfoldable pub serve_index_with_message : Visit → String → Db Tables Error Reply
  serve_index_with_message v message = do p ← load_index v message; pure (index_page p)

  unfoldable pub serve_index : Visit → Db Tables Error Reply
  unfolding serve_index_with_message
  serve_index v = serve_index_with_message v ""

  unfoldable pub serve_debug_leaderboard : Db Tables Error Reply
  serve_debug_leaderboard = do
    now ← clock
    shown ← get_results display 0 now
    pure (leaderboard_page shown.0 shown.1)

abbrev pub has_ended : Reply
has_ended = plain 403 "Today's final has ended"

-- `id_is` compares the column with the posted id, `same_text` two texts.
module _ (id_is : String → ℕ → Bool) (same_text : String → String → Bool) (f : Setup) where
  abbrev pub may_sign_in : String → String → TeamRow → Bool
  may_sign_in id password t = id_is id t.id && same_text t.password password

  -- The session is made again and saved with the team's id.
  unfoldable pub save_session : Visit → ℕ → StoredSession → Db Tables Error Reply
  save_session v team broken = raise (wrapped "sessionStore.New()")
  save_session v team (session before) =
      if v.saves then pure (signed_in team) else raise (wrapped "")

  unfoldable pub check_login : Visit → Option Team → Option TeamRow → Db Tables Error Reply
  unfolding save_session
  check_login v team none = pure (login_page team "Wrong id/password pair")
  check_login v team (some t) = save_session v t.id v.stored

  unfoldable pub post_login : Visit → String → String → Option Team → Db Tables Error Reply
  unfolding check_login
  post_login v id password team = do
    found ← query (wrapped "") (λ t _. first_row (where_rows (may_sign_in id password) t.teams))
    check_login v team found

  unfoldable pub login_open : Visit → String → String → Db Tables Error Reply
  unfolding post_login
  login_open v id password = do
    team ← load_team_from_session f v
    if v.is_get then pure (login_page team "") else post_login v id password team

  unfoldable pub login_in : Visit → String → String → ContestStatus → Db Tables Error Reply
  unfolding login_open
  login_in v id password ended = pure has_ended
  login_in v id password not_started = login_open v id password
  login_in v id password started = login_open v id password

  unfoldable pub serve_login : Visit → String → String → Db Tables Error Reply
  unfolding login_in
  serve_login v id password = do status ← contest_status f; login_in v id password status

unfoldable pub serve_asset : Bool → Option String → Db Tables Error Reply
serve_asset is_css none = raise (http 404)
serve_asset is_css (some c) = pure (asset c is_css)

-- `content` is the generated `Asset`, `is_css` the test of the suffix.
unfoldable pub serve_static :
    (String → Option String) → (String → Bool) → String → Db Tables Error Reply
unfolding serve_asset
serve_static content is_css path = serve_asset (is_css path) (content path)

-- Three seconds
abbrev pub reload_wait : ℕ
reload_wait = 3 * 1000000000

-- SET instance_name = ?, ip_address = ?
abbrev pub set_team : String → String → TeamRow → TeamRow
set_team instance_name ip_address t = record t {
  instance_name = some instance_name;
  ip_address = some ip_address;
}

abbrev pub update_teams : ℕ → String → String → Tables → Tables
update_teams id instance_name ip_address t = record t {
  teams = update_rows (λ (r : TeamRow). r.id == id) (set_team instance_name ip_address) t.teams;
}

-- A command of consul that fails is a call that fails.
unfoldable pub notify_proxy : Db Tables Error (Unit {0})
notify_proxy = exec (wrapped "") (λ t _. (tt, t))

-- `is_ipv4` is whether net.ParseIP and To4 of its value give an address.
module _ (is_ipv4 : String → Bool) where
  abbrev pub is_bad_address : String → Bool
  is_bad_address ip_address = not (str_eq ip_address "") && not (is_ipv4 ip_address)

  unfoldable pub save_team : String → String → Team → Db Tables Error Reply
  unfolding notify_proxy
  save_team instance_name ip_address team =
      if is_bad_address ip_address then raise (http 400) else do
        exec (wrapped "") (λ t _. (tt, update_teams team.id instance_name ip_address t))
        notify_proxy
        sleep reload_wait
        pure redirect

  unfoldable pub update_loaded : String → String → Option Team → Db Tables Error Reply
  unfolding save_team
  update_loaded instance_name ip_address none = raise (http 403)
  update_loaded instance_name ip_address (some team) = save_team instance_name ip_address team

module _ (is_ipv4 : String → Bool) (f : Setup) where
  unfoldable pub update_posted : Visit → String → String → Db Tables Error Reply
  unfolding update_loaded
  update_posted v instance_name ip_address = do
    team ← load_team_from_session f v
    update_loaded is_ipv4 instance_name ip_address team

  unfoldable pub update_open : Visit → String → String → Db Tables Error Reply
  unfolding update_posted
  update_open v instance_name ip_address =
      if v.is_post then update_posted v instance_name ip_address else raise (http 405)

  unfoldable pub update_in : Visit → String → String → ContestStatus → Db Tables Error Reply
  unfolding update_open
  update_in v instance_name ip_address ended = pure has_ended
  update_in v instance_name ip_address not_started = update_open v instance_name ip_address
  update_in v instance_name ip_address started = update_open v instance_name ip_address

  unfoldable pub serve_update_team : Visit → String → String → Db Tables Error Reply
  unfolding update_in
  serve_update_team v instance_name ip_address = do
    status ← contest_status f
    update_in v instance_name ip_address status
