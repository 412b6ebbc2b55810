-- ===== src/Portal/Mux/Reading.antt =====
-- The handlers of the portal that only read.
use isucon6_final.Common.{ℕ, Bool, Option, none, some, String, List}
use isucon6_final.Db.Reads.{Reads, Reads-pure, Reads-if, Reads-bind, reads_rules}
use isucon6_final.Portal.Schema.{TeamRow}
use isucon6_final.Portal.Contest.{ContestStatus, not_started, started, ended}
use isucon6_final.Portal.Results.{Display, get_results}
use isucon6_final.Portal.Messages.{get_messages, post_form, serve_messages}
use isucon6_final.Portal.Queue.Listing.{QueueItem, scanned, get_queue_items}
use isucon6_final.Portal.Proxies.{serve_proxy_nginx_conf, get_proxy_addrs}
use isucon6_final.Portal.Replies.{Team}
use isucon6_final.Portal.Sessions.{Setup, Visit, StoredSession, broken, session}
use isucon6_final.Portal.Sessions.Reading.{contest_status-Reads, load_team_from_session-Reads}
use isucon6_final.Portal.Pages.{
  serve_index, serve_debug_leaderboard, save_session, check_login, post_login, login_open, login_in,
  serve_login, serve_asset, serve_static,
}
use isucon6_final.Portal.Pages.Own.{serve_index_with_message-Reads}
use isucon6_final.Portal.Forms.{show_messages, nginx_conf_handler}
use isucon6_final.Portal.Debug.{expvar_handler, serve_debug_queue, serve_debug_proxies}

module _ (display : Display) (f : Setup) where
  pub serve_index-Reads : (v : Visit) → Reads (serve_index display f v)
  unfolding serve_index
  serve_index-Reads v = serve_index_with_message-Reads display f v ""

  pub serve_debug_leaderboard-Reads : Reads (serve_debug_leaderboard display f)
  unfolding serve_debug_leaderboard get_results
  serve_debug_leaderboard-Reads = search reads_rules

module _ (id_is : String → ℕ → Bool) (same_text : String → String → Bool) (f : Setup) where
  save_session-Reads :
      (v : Visit) (team : ℕ) (s : StoredSession) → Reads (save_session id_is same_text f v team s)
  unfolding save_session
  save_session-Reads v team broken = search reads_rules
  save_session-Reads v team (session before) = search reads_rules

  check_login-Reads :
      (v : Visit) (team : Option Team) (found : Option TeamRow)
      → Reads (check_login id_is same_text f v team found)
  unfolding check_login
  check_login-Reads v team none = search reads_rules
  check_login-Reads v team (some t) = save_session-Reads v t.id v.stored

  post_login-Reads :
      (v : Visit) (id password : String) (team : Option Team)
      → Reads (post_login id_is same_text f v id password team)
  unfolding post_login
  post_login-Reads v id password team = search (reads_rules, check_login-Reads v team)

  login_open-Reads :
      (v : Visit) (id password : String) → Reads (login_open id_is same_text f v id password)
  unfolding login_open
  login_open-Reads v id password =
      Reads-bind _ _ (load_team_from_session-Reads f v)
        λ team. Reads-if v.is_get _ _ (Reads-pure _) (post_login-Reads v id password team)

  login_in-Reads :
      (v : Visit) (id password : String) (s : ContestStatus)
      → Reads (login_in id_is same_text f v id password s)
  unfolding login_in
  login_in-Reads v id password ended = search reads_rules
  login_in-Reads v id password not_started = login_open-Reads v id password
  login_in-Reads v id password started = login_open-Reads v id password

  pub serve_login-Reads :
      (v : Visit) (id password : String) → Reads (serve_login id_is same_text f v id password)
  unfolding serve_login
  serve_login-Reads v id password =
      search (reads_rules, contest_status-Reads f, login_in-Reads v id password)

serve_asset-Reads : (is_css : Bool) (c : Option String) → Reads (serve_asset is_css c)
unfolding serve_asset
serve_asset-Reads is_css none = search reads_rules
serve_asset-Reads is_css (some c) = search reads_rules

pub serve_static-Reads :
    (content : String → Option String) (is_css : String → Bool) (path : String)
    → Reads (serve_static content is_css path)
unfolding serve_static
serve_static-Reads content is_css path = serve_asset-Reads (is_css path) (content path)

pub nginx_conf_handler-Reads : Reads nginx_conf_handler
unfolding nginx_conf_handler serve_proxy_nginx_conf
nginx_conf_handler-Reads = search reads_rules

pub expvar_handler-Reads : Reads expvar_handler
unfolding expvar_handler
expvar_handler-Reads = search reads_rules

scanned-Reads : (items : Option (List QueueItem)) → Reads (scanned items)
unfolding scanned
scanned-Reads none = search reads_rules
scanned-Reads (some items) = search reads_rules

pub serve_debug_queue-Reads : Reads serve_debug_queue
unfolding serve_debug_queue get_queue_items
serve_debug_queue-Reads = search (reads_rules, scanned-Reads)

pub serve_debug_proxies-Reads :
    (collated : String → String → Bool) (itoa : ℕ → String)
    → Reads (serve_debug_proxies collated itoa)
unfolding serve_debug_proxies get_proxy_addrs
serve_debug_proxies-Reads collated itoa = search reads_rules

pub show_messages-Reads : Reads show_messages
unfolding show_messages serve_messages post_form get_messages
show_messages-Reads = search reads_rules
