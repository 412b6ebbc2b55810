-- ===== src/Portal/Mux.antt =====
-- The portal as a whole: the handlers on their paths (buildMux of portal/main.go) and a request for
-- any of them. Which of the registered patterns a path is matched to is net/http's.
pub mod Reading
pub mod Mounting
pub mod Safe
pub mod Apart
pub mod Valid
mod Tests
use isucon6_final.Portal.Results.{Display}
use isucon6_final.Common.{
  ℕ, Bool, Option, none, some, List, [], ◌∷◌, String, str_eq, text_append, map, if◌then◌else◌,
  has_prefix, has_suffix, contains, text_from,
}
use isucon6_final.Db.{World, Db}
use isucon6_final.Portal.Schema.{Tables, Error}
use isucon6_final.Portal.Contest.{get_contest_status}
use isucon6_final.Portal.Replies.{Reply, plain, serve_http}
use isucon6_final.Portal.Sessions.{Setup, Visit}
use isucon6_final.Portal.Pages.{
  serve_index, serve_login, serve_static, serve_update_team, serve_debug_leaderboard,
}
use isucon6_final.Portal.Jobs.{PostedBody, serve_queue_job, serve_new_job, serve_post_result}
use isucon6_final.Portal.Proxies.{AgentMember, RunInsert}
use isucon6_final.Portal.Forms.{messages_handler, proxy_update_handler, nginx_conf_handler}
use isucon6_final.Portal.Debug.{expvar_handler, serve_debug_queue, serve_debug_proxies}

-- What the handlers call that is not part of the repository: texts of numbers and times, the test
-- of an address, the collation and comparisons of the database and what it makes of an INSERT, the generated assets.
pub record Library : Type 0 where
  pub display : Display
  pub itoa : ℕ → String
  pub status_text : ℕ → String
  pub is_ipv4 : String → Bool
  pub collated : String → String → Bool
  pub id_is : String → ℕ → Bool
  pub same_text : String → String → Bool
  pub content : String → Option String
  pub run_insert : RunInsert

-- A request: its path, who it is from, the values of its form, and what its body can be decoded to.
pub record Request : Type 0 where
  pub path : String
  pub visit : Visit
  pub form_value : String → String
  pub messages : Option (List String × List String)
  pub members : Option (List AgentMember)
  pub body : PostedBody

-- `handler` is the type of portal/main.go with its ServeHTTP, `not_found` is
-- http.NotFoundHandler().
pub data Mounted : Type 0 where
  handler : Db Tables Error Reply → Mounted
  not_found : Mounted

abbrev pub path_prefix_internal : String
path_prefix_internal = "mBGWHqBVEjUSKpBF/"

abbrev pub internal_path : String → String
internal_path p = text_append ("/" ∷ path_prefix_internal ∷ p ∷ [])

module _ (l : Library) (f : Setup) where
  -- The handlers of a request, by their patterns.
  unfoldable pub build_mux : Request → List (String × Mounted)
  build_mux r =
      ("/", handler (serve_index l.display f r.visit))
      ∷ ("/favicon.ico", not_found)
      ∷ (
        "/login",
        handler (
            serve_login l.id_is l.same_text f r.visit (r.form_value "team_id")
              (r.form_value "password")),
      )
      ∷ (
        "/static/",
        handler (serve_static l.content (λ p. has_suffix p ".css") (text_from 1 r.path)),
      )
      ∷ ("/queue", handler (serve_queue_job l.display f r.visit))
      ∷ (
        "/team",
        handler (
            serve_update_team l.is_ipv4 f r.visit (r.form_value "instance_name")
              (r.form_value "ip_address")),
      )
      ∷ (
        internal_path "proxy/update",
        handler
            (proxy_update_handler (λ n. contains n "proxy") l.run_insert r.visit.is_post r.members),
      )
      ∷ (internal_path "proxy/nginx.conf", handler nginx_conf_handler)
      ∷ (
        internal_path "job/new",
        handler (serve_new_job l.collated l.itoa r.visit.is_post (r.form_value "bench_node")),
      )
      ∷ (internal_path "job/result", handler (serve_post_result r.visit.is_post r.body))
      ∷ (internal_path "debug/vars", handler expvar_handler)
      ∷ (internal_path "debug/queue", handler serve_debug_queue)
      ∷ (internal_path "debug/leaderboard", handler (serve_debug_leaderboard l.display f))
      ∷ (internal_path "debug/proxies", handler (serve_debug_proxies l.collated l.itoa))
      ∷ (internal_path "messages", handler (messages_handler r.visit.is_post r.messages))
      ∷ []

  abbrev pub mounted_at : String → List (String × Mounted) → Mounted
  mounted_at p [] = not_found
  mounted_at p (m ∷ ms) = if str_eq p m.0 then m.1 else mounted_at p ms

  abbrev pub is_internal : Request → Bool
  is_internal r = has_prefix r.path (internal_path "")

  unfoldable pub serve_mounted : Mounted → Request → World Tables → Reply × World Tables
  serve_mounted not_found r w = (plain 404 "404 page not found", w)
  serve_mounted (handler fn) r w =
      serve_http l.status_text (get_contest_status f.starts f.ends f.midnight w.now) (is_internal r)
        fn w

  -- `matched` is the pattern that ServeMux chooses for a path, none where it answers itself, `own`,
  -- with an error or with a redirect to the path in its normal form.
  module _ (matched : List String → String → Option String) (own : Request → Reply) where
    unfoldable pub serve_chosen : Option String → Request → World Tables → Reply × World Tables
    unfolding serve_mounted build_mux
    serve_chosen none r w = (own r, w)
    serve_chosen (some p) r w = serve_mounted (mounted_at p (build_mux r)) r w

    abbrev pub chosen : Request → Option String
    chosen r = matched (map (λ m. m.0) (build_mux r)) r.path

    unfoldable pub serve : Request → World Tables → Reply × World Tables
    unfolding serve_chosen
    serve r w = serve_chosen (chosen r) r w

    -- Requests one after another
    unfoldable pub serve_all : List Request → World Tables → World Tables
    unfolding serve
    serve_all [] w = w
    serve_all (r ∷ rs) w = let (reply, u) = serve r w in serve_all rs u
