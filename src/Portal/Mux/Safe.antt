-- ===== src/Portal/Mux/Safe.antt =====
-- A request that is no POST changes nothing of the portal, and before the contest starts only the
-- internal paths do anything.
use isucon6_final.Portal.Results.{Display}
use isucon6_final.Common.{
  ℕ, ◌≡◌, refl, Bool, false, Option, none, some, List, String, All, All-mono,
}
use isucon6_final.Db.{World}
use isucon6_final.Db.Reads.{Reads, Reads-bind, Reads-Keeps, reads_rules}
use isucon6_final.Portal.Schema.{Tables}
use isucon6_final.Portal.Contest.{ContestStatus, not_started, started, ended, get_contest_status}
use isucon6_final.Portal.Replies.{Reply, serve_http}
use isucon6_final.Portal.Sessions.{Setup, Visit}
use isucon6_final.Portal.Sessions.Reading.{contest_status-Reads}
use isucon6_final.Portal.Pages.{update_open, update_in, serve_update_team}
use isucon6_final.Portal.Jobs.{PostedBody, serve_queue_job, serve_new_job, serve_post_result}
use isucon6_final.Portal.Proxies.{AgentMember, RunInsert}
use isucon6_final.Portal.Forms.{messages_handler, proxy_update_handler}
use isucon6_final.Portal.Mux.{
  Library, Request, Mounted, handler, not_found, build_mux, mounted_at, serve_mounted, serve_chosen,
  chosen, serve, is_internal,
}
use isucon6_final.Portal.Mux.Mounting.{Each, Each-mono, serve-keeps}
use isucon6_final.Portal.Mux.Reading.{
  serve_index-Reads, serve_debug_leaderboard-Reads, serve_login-Reads, serve_static-Reads,
  nginx_conf_handler-Reads, expvar_handler-Reads, serve_debug_queue-Reads,
  serve_debug_proxies-Reads, show_messages-Reads,
}

serve_queue_job-Reads :
    (display : Display) (f : Setup) (v : Visit)
    → v.is_post ≡ false
    → Reads (serve_queue_job display f v)
unfolding serve_queue_job
serve_queue_job-Reads display f v e = rw e search reads_rules

module _ (is_ipv4 : String → Bool) (f : Setup) (v : Visit) (instance_name ip_address : String) where
  update_open-Reads : v.is_post ≡ false → Reads (update_open is_ipv4 f v instance_name ip_address)
  unfolding update_open
  update_open-Reads e = rw e search reads_rules

  update_in-Reads :
      v.is_post ≡ false
      → (s : ContestStatus) → Reads (update_in is_ipv4 f v instance_name ip_address s)
  unfolding update_in
  update_in-Reads e ended = search reads_rules
  update_in-Reads e not_started = update_open-Reads e
  update_in-Reads e started = update_open-Reads e

  serve_update_team-Reads :
      v.is_post ≡ false → Reads (serve_update_team is_ipv4 f v instance_name ip_address)
  unfolding serve_update_team
  serve_update_team-Reads e = Reads-bind _ _ (contest_status-Reads f) (update_in-Reads e)

serve_new_job-Reads :
    (collated : String → String → Bool) (itoa : ℕ → String) (post : Bool) (node : String)
    → post ≡ false
    → Reads (serve_new_job collated itoa post node)
unfolding serve_new_job
serve_new_job-Reads collated itoa post node e = rw e search reads_rules

serve_post_result-Reads :
    (post : Bool) (body : PostedBody) → post ≡ false → Reads (serve_post_result post body)
unfolding serve_post_result
serve_post_result-Reads post body e = rw e search reads_rules

messages_handler-Reads :
    (post : Bool) (lists : Option (List String × List String))
    → post ≡ false
    → Reads (messages_handler post lists)
unfolding messages_handler
messages_handler-Reads post lists e = rw e show_messages-Reads

proxy_update_handler-Reads :
    (contains : String → Bool) (run : RunInsert) (post : Bool) (members : Option (List AgentMember))
    → post ≡ false
    → Reads (proxy_update_handler contains run post members)
unfolding proxy_update_handler
proxy_update_handler-Reads contains run post members e = rw e search reads_rules

module _ (l : Library) (f : Setup) where
  build_mux-Reads :
      (r : Request)
      → r.visit.is_post ≡ false
      → All (λ (m : String × Mounted). Each (λ fn. Reads fn) m.1) (build_mux l f r)
  unfolding build_mux
  build_mux-Reads r e = (
    serve_index-Reads l.display f r.visit,
    (
      tt,
      (
        serve_login-Reads l.id_is l.same_text f r.visit _ _,
        (
          serve_static-Reads l.content _ _,
          (
            serve_queue_job-Reads l.display f r.visit e,
            (
              serve_update_team-Reads l.is_ipv4 f r.visit _ _ e,
              (
                proxy_update_handler-Reads _ l.run_insert r.visit.is_post r.members e,
                (
                  nginx_conf_handler-Reads,
                  (
                    serve_new_job-Reads l.collated l.itoa r.visit.is_post _ e,
                    (
                      serve_post_result-Reads r.visit.is_post r.body e,
                      (
                        expvar_handler-Reads,
                        (
                          serve_debug_queue-Reads,
                          (
                            serve_debug_leaderboard-Reads l.display f,
                            (
                              serve_debug_proxies-Reads l.collated l.itoa,
                              (messages_handler-Reads r.visit.is_post r.messages e, tt),
                            ),
                          ),
                        ),
                      ),
                    ),
                  ),
                ),
              ),
            ),
          ),
        ),
      ),
    ),
  )

  serve_mounted-not_started :
      (m : Mounted) (r : Request) (w : World Tables)
      → get_contest_status f.starts f.ends f.midnight w.now ≡ not_started
      → is_internal l f r ≡ false
      → (serve_mounted l f m r w).1 ≡ w
  unfolding serve_mounted serve_http
  serve_mounted-not_started not_found r w e k = refl
  serve_mounted-not_started (handler fn) r w e k = rw (e, k) refl

  module _ (matched : List String → String → Option String) (own : Request → Reply) where
    -- A request of any path that is no POST leaves every table as it is.
    pub serve_unchanged :
        (r : Request) (w : World Tables)
        → r.visit.is_post ≡ false
        → (serve l f matched own r w).1.tables ≡ w.tables
    serve_unchanged r w e =
        serve-keeps l f matched own (λ t. t ≡ w.tables) r w
          (All-mono _ _ (build_mux l f r) (λ m. Each-mono _ _ (Reads-Keeps _) m.1)
            (build_mux-Reads r e))
          refl

    serve_chosen-not_started :
        (p : Option String) (r : Request) (w : World Tables)
        → get_contest_status f.starts f.ends f.midnight w.now ≡ not_started
        → is_internal l f r ≡ false
        → (serve_chosen l f matched own p r w).1 ≡ w
    unfolding serve_chosen
    serve_chosen-not_started none r w e k = refl
    serve_chosen-not_started (some p) r w e k =
        serve_mounted-not_started (mounted_at l f p (build_mux l f r)) r w e k

    -- Before the contest starts, a request whose path is not internal leaves the whole world as it
    -- is, and no call of the driver is made for it: no handler runs.
    pub serve-not_started :
        (r : Request) (w : World Tables)
        → get_contest_status f.starts f.ends f.midnight w.now ≡ not_started
        → is_internal l f r ≡ false
        → (serve l f matched own r w).1 ≡ w
    unfolding serve
    serve-not_started r w e k = serve_chosen-not_started (chosen l f matched own r) r w e k
