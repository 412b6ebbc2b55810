-- ===== src/Portal/Mux/Tests.antt =====
-- Requests to the paths of the portal, and the theorems about them at these.
use isucon6_final.Common.{
  ℕ, ◌*◌, ◌≡◌, refl, Bool, true, false, Option, none, some, List, [], ◌∷◌, String, str_eq, arith,
  if◌then◌else◌,
}
use isucon6_final.Sql.{count_rows, first_row, where_rows, update_rows, order_by, insert_row}
use isucon6_final.Db.{World, ◌>>=◌}
use isucon6_final.Portal.Schema.{Tables, TeamRow, general}
use isucon6_final.Portal.Contest.{hour, get_contest_status}
use isucon6_final.Portal.Queue.{
  insert_queue, enqueue_job, insert_job, dequeue_job, claim_job, next_waiting,
}
use isucon6_final.Portal.Proxies.{get_proxy_urls, get_proxy_addrs}
use isucon6_final.Portal.Queue.Invariant.{IsValid}
use isucon6_final.Portal.Replies.{Reply, plain, job_reply, serve_http}
use isucon6_final.Portal.Sessions.{
  Setup, session, contest_status, load_team_from_session, load_team_of_session, wrap_load,
  load_team,
}
use isucon6_final.Portal.Jobs.{
  missing, serve_queue_job, queue_posted, queue_in, queue_open, queue_for, queue_team,
  reply_enqueued, serve_new_job, new_job, reply_dequeued, reply_job,
}
use isucon6_final.Portal.Mux.{
  Library, Request, serve, serve_all, internal_path, build_mux, serve_mounted, serve_chosen,
}
use isucon6_final.Portal.Mux.Safe.{serve_unchanged, serve-not_started}
use isucon6_final.Portal.Mux.Valid.{serve_all-IsValid}

abbrev library : Library
library = record {
  display = record { time_text = λ _. ""; sort = λ less xs. xs };
  itoa = λ _. "";
  status_text = λ _. "";
  is_ipv4 = λ _. true;
  collated = λ _ _. true;
  id_is = λ _ _. false;
  same_text = str_eq;
  content = λ _. none;
  run_insert = λ text t. none;
}

abbrev setup : Setup
setup = record { starts = some 10; ends = some 18; midnight = 0; forever = 0; debug_mode = false }

abbrev exactly : List String → String → Option String
exactly [] p = none
exactly (q ∷ qs) p = let rest = exactly qs p in if str_eq q p then some q else rest

abbrev own : Request → Reply
own r = plain 404 "404 page not found"

abbrev request : String → Bool → Request
request path post = record {
  path = path;
  visit = record {
    is_get = false;
    is_post = post;
    debug_team = none;
    stored = session (some 11);
    saves = true;
  };
  form_value = λ _. "node1";
  messages = none;
  members = none;
  body = missing;
}

abbrev team : TeamRow
team = record {
  id = 11;
  name = "chairs";
  password = "secret";
  ip_address = some "10.0.0.4";
  instance_name = none;
  category = general;
  azure_resource_group = "group11";
}

abbrev world : ℕ → World Tables
world now = record {
  tables = record {
    queues = [];
    next_queue = 1;
    results = [];
    next_result = 1;
    teams = team ∷ [];
    proxies = [];
    messages = [];
    next_message = 1;
  };
  now = now;
  faults = [];
}

world-IsValid : IsValid (world (11 * hour)).tables
unfolding count_rows
world-IsValid = record { fresh = tt; unique = λ id. omega arith; single = λ team. omega arith }

-- A team queues, and a node gets its job.
queued_and_taken :
    (serve library setup exactly own
      (request (internal_path "job/new") true)
      (serve_all library setup exactly own (request "/queue" true ∷ []) (world (11 * hour)))).0
    ≡ job_reply (record { id = 1; team_id = 11; urls = "" })
unfolding serve_all serve serve_chosen serve_mounted build_mux serve_http get_contest_status
    contest_status load_team_from_session load_team_of_session wrap_load load_team serve_queue_job
    queue_posted queue_in queue_open queue_for queue_team reply_enqueued enqueue_job insert_job
    insert_queue serve_new_job new_job reply_dequeued reply_job get_proxy_urls get_proxy_addrs
    dequeue_job claim_job next_waiting first_row where_rows count_rows update_rows order_by
    insert_row ◌>>=◌
queued_and_taken = refl

serve_all-IsValid_example :
    IsValid
      (serve_all library setup exactly own
        (request "/queue" true
          ∷ request "/queue" true
          ∷ request (internal_path "job/new") true
          ∷ [])
        (world (11 * hour))).tables
serve_all-IsValid_example =
    serve_all-IsValid library setup exactly own
      (request "/queue" true ∷ request "/queue" true ∷ request (internal_path "job/new") true ∷ [])
      (world (11 * hour)) world-IsValid

serve_unchanged_example :
    (serve library setup exactly own (request "/team" false) (world (11 * hour))).1.tables
    ≡ (world (11 * hour)).tables
serve_unchanged_example =
    serve_unchanged library setup exactly own (request "/team" false) (world (11 * hour)) refl

serve-not_started_example :
    (serve library setup exactly own (request "/queue" true) (world (9 * hour))).1
    ≡ world (9 * hour)
unfolding get_contest_status
serve-not_started_example =
    serve-not_started library setup exactly own (request "/queue" true) (world (9 * hour)) refl refl
