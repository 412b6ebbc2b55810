-- ===== src/Bench/Scenario/Tests.antt =====
-- The command and its checks against a site with one page.
use isucon6_final.Common.{
  ℕ, zero, suc, ◌==◌, ◌&&◌, not, ltb, ◌≡◌, refl, Bool, true, false, Option, none, some, List, [],
  ◌∷◌, String, str_eq, split, arith, if◌then◌else◌,
}
use isucon6_final.Sql.{count_rows}
use isucon6_final.Webapp.Schema.{PostedStroke}
use isucon6_final.Bench.Scenario.Load.{load_index_page, draw_on_random_room}
use isucon6_final.Bench.Action.{responded}
use isucon6_final.Bench.Scenario.{Url, Room, Response, Document, Answer, Env, Run, Scenario}
use isucon6_final.Bench.Scenario.Ends.{Ends, Any, Below}
use isucon6_final.Bench.Scenario.Command.{comma, make_origins, all_origins, main}
use isucon6_final.Bench.Scenario.Pages.{compare_counts, check_top, check_markup, check_props}
use isucon6_final.Bench.Adler32.{adler32, add_rest, add_blocks}
use isucon6_final.Bench.Scenario.Verdicts.{
  lags, is_unshown, compare_counts-eq, IsTop, check_top-IsTop,
}
use isucon6_final.Bench.Scenario.Safe.{HasStrokes, loads_end, main-panics}

split_two : split comma "https://a,https://b" ≡ "https://a" ∷ "https://b" ∷ []
unfolding split
split_two = refl

abbrev pictures : ℕ → List (Option String)
pictures zero = []
pictures (suc n) = some "/img/7" ∷ pictures n

abbrev top : Document
top = record {
  csrf_tokens = some "token" ∷ [];
  image_sources = pictures 100;
  rooms = record { id = some "7"; stroke_count = "1" } ∷ [];
  polylines = 1;
  reactids = 1525;
  react_checksum = "";
  markup = some "<p></p>";
  script = "__ASYNC_PROPS__ = [{}]";
}

abbrev answered : Response ℕ
answered = record {
  room = some (record { id = 7; created_at = 0; strokes = []; stroke_count = 1 });
  rooms = [];
  stroke = some (record { id = 5; created_at = 0; points = [] });
  csrf_token = "token";
}

-- Every page is the first page, and every JSON is the same.
abbrev site_answer : Answer ℕ
site_answer = record {
  outcome = responded 200;
  body = record {
    is_read = true;
    document = some top;
    json = some answered;
    picture = none;
    md5 = "";
  };
}

abbrev dot : PostedStroke ℕ
dot = record {
  width = 1;
  red = 1;
  green = 1;
  blue = 1;
  alpha = 1;
  points = record { x = 1; y = 1 } ∷ [];
}

abbrev parse_url : String → Option Url
parse_url s = if str_eq s "https://a" then some (record { scheme = "https"; host = "a" }) else none

abbrev env : Env ℕ ℕ
env = record {
  respond = λ call s. (site_answer, s);
  now = λ s. s;
  ended = λ s. true;
  events = λ s room site. ((false, []), site);
  intn = λ k n. 0;
  float = λ k. 0;
  shift = λ x r. x;
  far = λ x y. false;
  itoa = λ n. "";
  parse_int = λ s. none;
  parse_url = parse_url;
  get_strokes = λ name. dot ∷ [];
  runes = λ s. [];
  async_props = λ s. some (answered ∷ []);
}

abbrev run : Run ℕ
run = record {
  site = 0;
  tally = record { msgs = []; is_critical = false; score = 0 };
  draws = 0;
  sessions = 0;
}

accepted_url : make_origins parse_url "https://a" ≡ some ("https://a" ∷ [])
unfolding make_origins all_origins split
accepted_url = refl

refused_url : make_origins parse_url "http://a" ≡ none
unfolding make_origins all_origins split
refused_url = refl

below : Below env
below = λ k n h. h

has_strokes : HasStrokes env
has_strokes = record { stool = omega arith; star = omega arith; www = omega arith }

abbrev any_order : String → String → Bool
any_order a b = true

loads_end_example :
    Ends Any (load_index_page env ("https://a" ∷ []))
    × Ends Any (draw_on_random_room env ("https://a" ∷ []))
loads_end_example = loads_end env "https://a" ("https://a" ∷ []) below has_strokes accepted_url

abbrev no_load : List String → Scenario ℕ (Unit {0})
no_load origins r = (none, r)

main-panics_example : (main env any_order no_load false "http://a" run).0 ≡ none
main-panics_example = main-panics env any_order no_load false "http://a" run refused_url

top_passes : (check_top env top "" run.tally).0 ≡ some tt
unfolding check_top check_markup check_props adler32 add_rest add_blocks
top_passes = refl

check_top-IsTop_example : IsTop env top
check_top-IsTop_example = check_top-IsTop env top "" run.tally top_passes

abbrev told : List (Room ℕ)
told = record { id = 7; created_at = 0; strokes = []; stroke_count = 2 } ∷ []

compare_counts-eq_example : (compare_counts env told ((7, 1) ∷ []) 0 run.tally).0 ≡ (
    (count_rows (lags env ((7, 1) ∷ [])) told == 0)
    && not (ltb 90 (count_rows (is_unshown env ((7, 1) ∷ [])) told)))
compare_counts-eq_example = compare_counts-eq env told ((7, 1) ∷ []) run.tally
