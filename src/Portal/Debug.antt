-- ===== src/Portal/Debug.antt =====
-- The pages for the staff that only show what other parts read (portal/debug.go). Of expvarHandler
-- only the numbers of jobs are modelled; the rest of its answer is the state of libraries.
use isucon6_final.Common.{ℕ, ◌==◌, Bool, true, false, List, [], ◌∷◌, ◌++◌, String, if◌then◌else◌}
use isucon6_final.Sql.{count_rows}
use isucon6_final.Db.{Db, query, pure, ◌>>=◌}
use isucon6_final.Portal.Schema.{
  Status, waiting, running, done, aborted, QueueRow, Tables, Error, wrapped,
}
use isucon6_final.Portal.Queue.Listing.{get_queue_items}
use isucon6_final.Portal.Proxies.{get_proxy_addrs}
use isucon6_final.Portal.Replies.{Reply, queue_page, proxies_page, vars}

abbrev pub has_status : Status → QueueRow → Bool
has_status s r = same s r.status
  where
    same : Status → Status → Bool
    same waiting waiting = true
    same running running = true
    same done done = true
    same aborted aborted = true
    same s t = false

-- GROUP BY has no row for a status that no job has.
abbrev pub status_count : List QueueRow → Status → List (Status × ℕ)
status_count rows s = let n = count_rows (has_status s) rows in if n == 0 then [] else (s, n) ∷ []

-- SELECT status,COUNT(*) FROM queues GROUP BY status, in the order in which a Go map is encoded
abbrev pub queue_stats : List QueueRow → List (Status × ℕ)
queue_stats rows =
    status_count rows aborted
    ++ status_count rows done
    ++ status_count rows running
    ++ status_count rows waiting

unfoldable pub expvar_handler : Db Tables Error Reply
expvar_handler = do counts ← query (wrapped "") (λ t _. queue_stats t.queues); pure (vars counts)

unfoldable pub serve_debug_queue : Db Tables Error Reply
serve_debug_queue = do items ← get_queue_items 50; pure (queue_page items)

module _ (collated : String → String → Bool) (itoa : ℕ → String) where
  unfoldable pub serve_debug_proxies : Db Tables Error Reply
  serve_debug_proxies = do addrs ← get_proxy_addrs collated itoa; pure (proxies_page addrs)
