-- ===== src/Portal/Tests.antt =====
-- The portal's theorems beside its queue, at concrete inputs.
use isucon6_final.Common.{
  All, ◌<◌, List, ◌*◌, ℕ, ◌+◌, ◌*◌, ◌<◌, ◌≡◌, ◌≢◌, ◌⊎◌, refl, Bool, str_eq, ◌++◌, if◌then◌else◌,
  true, false, none, some, [], ◌∷◌, String, arith,
}
use isucon6_final.Sql.{count_rows, order_by, insert_row}
use isucon6_final.Db.{World, ok, err, ◌>>◌}
use isucon6_final.Portal.Schema.{
  ResultRow, TeamRow, general, waiting, running, QueueRow, Tables, wrapped, Job, Output, JobResult,
}
use isucon6_final.Portal.Queue.{finishes}
use isucon6_final.Portal.Contest.{
  get_contest_status, get_ranking_fixed_at, hour, ended, started, ended-ranking_fixed,
}
use isucon6_final.Portal.Proxies.{
  AgentMember, RunInsert, ReadsAs, quoted, insert_text, repeats, serve_proxy_update,
  serve_proxy_update-eq, serve_proxy_update_emptied,
}
use isucon6_final.Portal.Messages.{
  Message, update_messages, get_messages, update_messages-get_messages,
}
use isucon6_final.Portal.Results.{
  PlotLine, LatestScore, Display, get_results, results_of, read_rows, score_rows,
}
use isucon6_final.Portal.Results.Latest.{last_rows, HighestFirst, IsOfResult, get_results-latest}
use isucon6_final.Sql.Sorted.{sort_by, sort_by-IsSort}
use isucon6_final.Portal.Replies.{success, serve_http}
use isucon6_final.Portal.Jobs.{serve_post_result, decoded, stored, serve_post_result-stored}

abbrev row : QueueRow
row = record {
  id = 1;
  team_id = 11;
  status = waiting;
  bench_node = none;
  stderr = none;
  created_at = 0;
  updated_at = 0;
}

abbrev tables : Tables
tables = record {
  queues = row ∷ [];
  next_queue = 2;
  results = [];
  next_result = 1;
  teams = [];
  proxies = "10.0.0.9" ∷ [];
  messages = [];
  next_message = 5;
}

abbrev calm : World Tables
calm = record { tables = tables; now = 3; faults = [] }

-- The call after the five of `dequeueJob` fails.
abbrev failing : World Tables
failing = record calm { faults = false ∷ false ∷ false ∷ false ∷ false ∷ true ∷ [] }

over : get_contest_status (some 10) (some 18) 0 (19 * hour) ≡ ended
unfolding get_contest_status
over = refl

ended-ranking_fixed_example : get_ranking_fixed_at 0 (some 18) 0 + hour < 19 * hour
ended-ranking_fixed_example = ended-ranking_fixed 0 18 0 (19 * hour) (some 10) (omega arith) over

abbrev member : String → AgentMember
member addr = record { name = "proxy1"; addr = addr; status = 1 }

abbrev anything : String → Bool
anything name = true

-- A database that knows the text of two updates.
abbrev run : RunInsert
run text t =
    if str_eq text (insert_text (quoted "10.0.0.1" ∷ []))
    then (if repeats str_eq (t.proxies ++ "10.0.0.1" ∷ [])
        then none
        else some (t.proxies ++ "10.0.0.1" ∷ []))
    else if str_eq text (insert_text (quoted "10.0.0.1" ∷ quoted "10.0.0.1" ∷ []))
    then (if repeats str_eq (t.proxies ++ "10.0.0.1" ∷ "10.0.0.1" ∷ [])
        then none
        else some (t.proxies ++ "10.0.0.1" ∷ "10.0.0.1" ∷ []))
    else none

reads_one : ReadsAs str_eq run (quoted "10.0.0.1" ∷ []) ("10.0.0.1" ∷ [])
unfolding insert_text
reads_one t = refl

reads_two :
    ReadsAs str_eq run (quoted "10.0.0.1" ∷ quoted "10.0.0.1" ∷ []) ("10.0.0.1" ∷ "10.0.0.1" ∷ [])
unfolding insert_text
reads_two t = refl

serve_proxy_update-eq_example : serve_proxy_update anything run (member "10.0.0.1" ∷ []) calm ≡ (
  ok ("('10.0.0.1')" ∷ []),
  record calm { tables = record tables { proxies = "10.0.0.1" ∷ [] } },
)
serve_proxy_update-eq_example =
    serve_proxy_update-eq str_eq anything run (member "10.0.0.1" ∷ []) calm refl reads_one refl

serve_proxy_update_emptied_example :
    ((serve_proxy_update anything run (member "10.0.0.1" ∷ member "10.0.0.1" ∷ []) calm).0
      ≡ err (wrapped ""))
    × ((serve_proxy_update anything run
          (member "10.0.0.1" ∷ member "10.0.0.1" ∷ [])
          calm).1.tables.proxies
        ≡ [])
serve_proxy_update_emptied_example =
    serve_proxy_update_emptied str_eq anything run (member "10.0.0.1" ∷ member "10.0.0.1" ∷ []) calm
      refl reads_two refl

abbrev notice : Message
notice = record { message = "lunch"; kind = "info" }

update_messages-get_messages_example :
    ((update_messages (notice ∷ []) >> get_messages) calm).0 ≡ ok (notice ∷ [])
update_messages-get_messages_example = update_messages-get_messages (notice ∷ []) calm refl

abbrev first_job : Job
first_job = record { id = 1; team_id = 11; urls = "" }

abbrev in_order : String → String → Bool
in_order a b = true

abbrev number_text : ℕ → String
number_text n = "10011"

abbrev posted : JobResult
posted = record {
  job = some first_job;
  output = some (record { pass = true; score = 40; messages = [] });
  stderr = "";
}

abbrev no_text : ℕ → String
no_text n = ""

abbrev underway : World Tables
underway = record calm { tables = record tables { queues = record row { status = running } ∷ [] } }

serve_post_result-stored_example :
    ((serve_http no_text started true (serve_post_result true (decoded posted)) underway).0
        ≡ success
      × ((j : Job) × (o : Output) × (posted.job ≡ some j)
          × (posted.output ≡ some o)
          × (count_rows (finishes j.id j.team_id) underway.tables.queues ≡ 1)
          × ((serve_http no_text started true
                (serve_post_result true (decoded posted))
                underway).1.tables
              ≡ stored j o "" underway)))
    ⊎ ((serve_http no_text started true (serve_post_result true (decoded posted)) underway).0
          ≢ success
        × ((serve_http no_text started true
              (serve_post_result true (decoded posted))
              underway).1.tables
            ≡ underway.tables))
serve_post_result-stored_example = serve_post_result-stored no_text started posted underway

abbrev team : TeamRow
team = record {
  id = 11;
  name = "eleven";
  password = "";
  ip_address = none;
  instance_name = none;
  category = general;
  azure_resource_group = "";
}

abbrev result : ℕ → ResultRow
result n = record {
  id = n;
  team_id = 11;
  queue_id = n;
  pass = 1;
  score = 10 * n;
  messages = "";
  created_at = n;
}

abbrev scored : World Tables
scored = record calm {
  tables = record tables { teams = team ∷ []; results = result 2 ∷ result 1 ∷ [] };
}

numbered_teams : All (λ r. 0 < r.team_id) (score_rows 0 9 scored.tables)
unfolding score_rows order_by insert_row
numbered_teams = (omega arith, (omega arith, tt))

abbrev display : Display
display = record { time_text = number_text; sort = sort_by }

get_results-latest_example :
    (lines : List PlotLine) × (latest : List LatestScore) × ((get_results display 0 9 scored).0
      ≡ ok (lines, latest))
    × ((p : LatestScore → Bool)
        → count_rows p latest ≡ count_rows p (last_rows (score_rows 0 9 scored.tables)))
    × HighestFirst latest
    × All (IsOfResult 0 9 scored.tables) (score_rows 0 9 scored.tables)
get_results-latest_example =
    get_results-latest display 0 9 scored sort_by-IsSort refl numbered_teams

-- Of two results the later one counts.
latest_counts : results_of display (score_rows 0 9 scored.tables) ≡ (
  record { team_name = "eleven"; scores = ("10011", 20) ∷ [] } ∷ [],
  record { team_id = 11; team_name = "eleven"; score = 20; at = 2 } ∷ [],
)
unfolding read_rows score_rows order_by insert_row
latest_counts = refl
