-- ===== src/Bench/Worker/Tests.antt =====
-- The worker at a concrete input.
use isucon6_final.Common.{
  ℕ, ◌≡◌, refl, Bool, true, none, [], ◌∷◌, ◌++◌, String, if◌then◌else◌, arith,
}
use isucon6_final.Sql.{count_rows, where_rows, order_by, insert_row}
use isucon6_final.Db.{World}
use isucon6_final.Portal.Schema.{waiting, QueueRow, Output, Tables}
use isucon6_final.Portal.Contest.{started}
use isucon6_final.Portal.Queue.Invariant.{IsValid}
use isucon6_final.Portal.Queue.Spec.{Ticket, same_ticket, view}
use isucon6_final.Portal.Queue.Selection.{IsFirst}
use isucon6_final.Portal.Queue.Outcome.{taken, job_of}
use isucon6_final.Portal.Jobs.{stored}
use isucon6_final.Bench.Worker.{BenchRun}
use isucon6_final.Bench.Worker.Round.{sent_stderr, round, round-completes}

abbrev row : QueueRow
row = record {
  id = 1;
  team_id = 11;
  status = waiting;
  bench_node = none;
  stderr = none;
  created_at = 0;
  updated_at = 0;
}

abbrev world : World Tables
world = record {
  tables = record {
    queues = row ∷ [];
    next_queue = 2;
    results = [];
    next_result = 1;
    teams = [];
    proxies = "10.0.0.9" ∷ [];
    messages = [];
    next_message = 1;
  };
  now = 3;
  faults = [];
}

world-IsValid : IsValid world.tables
unfolding count_rows
world-IsValid = record {
  single = λ team. ground arith;
  unique = λ id. ground arith;
  fresh = (omega arith, tt);
}

abbrev in_order : String → String → Bool
in_order a b = true

abbrev no_text : ℕ → String
no_text n = ""

abbrev output : Output
output = record { pass = true; score = 4000; messages = [] }

abbrev decode : String → Output
decode s = output

abbrev rune_count : String → ℕ
rune_count s = 10001

abbrev take_runes : ℕ → String → String
take_runes n s = "cut"

abbrev bench_run : BenchRun
bench_run = record { out = "{}"; stderr = "much" }

abbrev ticket : Ticket
ticket = record { id = 1; team_id = 11 }

first_waits : (view world.tables).waiting ≡ ticket ∷ []
unfolding view where_rows order_by insert_row
first_waits = refl

round-completes_example :
    (view
        (round in_order no_text no_text decode rune_count take_runes started "host1" bench_run
          world).tables
      ≡ record {
        waiting = [];
        running = λ u. if same_ticket ticket u then 0 else (view world.tables).running u;
        scores = (view world.tables).scores ++ (ticket, 4000) ∷ [];
      })
    × ((r : QueueRow) × (urls : String) × IsFirst world.tables.queues r
        × ((round in_order no_text no_text decode rune_count take_runes started "host1" bench_run
              world).tables
            ≡ stored
                (record (job_of r) { urls = urls })
                (decode bench_run.out)
                (sent_stderr in_order no_text no_text decode rune_count take_runes bench_run)
                (taken "host1" r world)))
round-completes_example =
    round-completes in_order no_text no_text decode rune_count take_runes started "host1" bench_run
      world ticket [] refl world-IsValid first_waits
