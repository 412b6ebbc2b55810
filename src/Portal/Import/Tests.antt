-- ===== src/Portal/Import/Tests.antt =====
-- An import of two lines that name the same team.
use isucon6_final.Common.{
  ℕ, ◌≡◌, refl, Option, none, some, List, [], ◌∷◌, String, IsIn, str_eq, split, if◌then◌else◌,
}
use isucon6_final.Sql.{where_rows}
use isucon6_final.Db.{World, ok, ◌>>=◌}
use isucon6_final.Portal.Schema.{Tables}
use isucon6_final.Portal.Import.{
  OnlyStaff, staff_team, import_teams, import_lines, import_line, column, number_of, category_of,
  store_team, replace_team, import_teams_official,
}

abbrev parse_int : String → Option ℕ
parse_int s = if str_eq s "11" then some 11 else none

abbrev lines : List String
lines =
    "id\tcategory\tname" ∷ "11\t一般\tchairs\t-\tsecret\tgroup11"
    ∷ "11\t学生\tstools\t-\tsecret\tgroup11" ∷ []

abbrev start : World Tables
start = record {
  tables = record {
    queues = [];
    next_queue = 1;
    results = [];
    next_result = 1;
    teams = [];
    proxies = [];
    messages = [];
    next_message = 1;
  };
  now = 0;
  faults = [];
}

imported : (import_teams str_eq parse_int lines start).0 ≡ ok tt
unfolding import_teams import_lines import_line column number_of category_of store_team replace_team
    where_rows split ◌>>=◌
imported = refl

import_teams_official_example :
    OnlyStaff (import_teams str_eq parse_int lines start).1.tables
    × ((import_teams str_eq parse_int lines start).0 ≡ ok tt
        → IsIn staff_team (import_teams str_eq parse_int lines start).1.tables.teams)
import_teams_official_example = import_teams_official str_eq parse_int lines start tt
