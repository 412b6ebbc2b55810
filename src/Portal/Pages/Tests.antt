-- ===== src/Portal/Pages/Tests.antt =====
-- The theorems about what teams do, at concrete inputs.
use isucon6_final.Common.{ℕ, ◌*◌, Bool, true, false, none, some, [], ◌∷◌, String, ◌≡◌, refl}
use isucon6_final.Db.{World, ◌>>=◌}
use isucon6_final.Sql.{first_row, where_rows, update_rows}
use isucon6_final.Portal.Schema.{Tables, TeamRow, general}
use isucon6_final.Portal.Contest.{hour, get_contest_status}
use isucon6_final.Portal.Sessions.{
  Setup, Visit, session, contest_status, load_team, wrap_load, load_team_of_session,
  load_team_from_session,
}
use isucon6_final.Portal.Pages.{
  serve_update_team, update_in, update_open, update_posted, update_loaded, save_team, notify_proxy,
}
use isucon6_final.Portal.Pages.Own.{May, OwnOnly, serve_update_team-own}
use isucon6_final.Portal.Jobs.{serve_queue_job}
use isucon6_final.Portal.Results.{Display}
use isucon6_final.Portal.Jobs.Queueing.{QueuedOnly, MayQueue, serve_queue_job-queued}

abbrev team : TeamRow
team = record {
  id = 11;
  name = "chairs";
  password = "secret";
  ip_address = some "10.0.0.4";
  instance_name = none;
  category = general;
  azure_resource_group = "group11";
}

abbrev world : World Tables
world = record {
  tables = record {
    queues = [];
    next_queue = 1;
    results = [];
    next_result = 1;
    teams = team ∷ [];
    proxies = [];
    messages = [];
    next_message = 1;
  };
  now = 11 * hour;
  faults = [];
}

abbrev setup : Setup
setup = record { starts = some 10; ends = some 18; midnight = 0; forever = 0; debug_mode = false }

abbrev visit : Visit
visit = record {
  is_get = false;
  is_post = true;
  debug_team = none;
  stored = session (some 11);
  saves = true;
}

abbrev no_text : ℕ → String
no_text n = ""

abbrev is_ipv4 : String → Bool
is_ipv4 s = true

-- The update is made.
updated :
    (serve_update_team is_ipv4 setup visit "vm" "10.0.0.5" world).1.tables.teams
    ≡ record team { instance_name = some "vm"; ip_address = some "10.0.0.5" } ∷ []
unfolding serve_update_team update_in update_open update_posted update_loaded save_team notify_proxy
    contest_status get_contest_status load_team wrap_load load_team_of_session
    load_team_from_session first_row where_rows update_rows ◌>>=◌
updated = refl

serve_update_team-own_example :
    OwnOnly is_ipv4 setup "vm" "10.0.0.5"
      (May is_ipv4 setup "vm" "10.0.0.5" visit world)
      world.tables
      (serve_update_team is_ipv4 setup visit "vm" "10.0.0.5" world).0
      (serve_update_team is_ipv4 setup visit "vm" "10.0.0.5" world).1.tables
serve_update_team-own_example = serve_update_team-own is_ipv4 setup "vm" "10.0.0.5" visit world

abbrev display : Display
display = record { time_text = no_text; sort = λ less xs. xs }

serve_queue_job-queued_example :
    QueuedOnly
      (MayQueue display setup visit world)
      world.tables
      world.now
      (serve_queue_job display setup visit world).0
      (serve_queue_job display setup visit world).1.tables
serve_queue_job-queued_example = serve_queue_job-queued display setup visit world
