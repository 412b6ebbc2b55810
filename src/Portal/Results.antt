-- ===== src/Portal/Results.antt =====
-- The results that the portal shows (portal/results.go).
pub mod Latest
use isucon6_final.Common.{
  ℕ, ◌<◌, ◌≡◌, refl, sym, ◌∙◌, Bool, true, false, ◌&&◌, ◌||◌, not, List, [], ◌∷◌, ◌++◌,
  append_assoc, map, String, leb, ltb, ◌==◌, str_eq, if◌then◌else◌, arith, Bool-cases, inl, inr,
  All,
}
use isucon6_final.Sql.{where_rows, order_by}
use isucon6_final.Db.{World, Db, ok, query, ◌>>=◌}
use isucon6_final.Portal.Schema.{
  ResultRow, TeamRow, Category, general, students, official, Tables, Error, wrapped,
}

pub record PlotLine : Type 0 where
  pub team_name : String
  pub scores : List (String × ℕ)

pub record LatestScore : Type 0 where
  pub team_id : ℕ
  pub team_name : String
  pub score : ℕ
  pub at : ℕ

pub record TeamResult : Type 0 where
  pub id : ℕ
  pub score : ℕ
  pub pass : ℕ
  pub at : ℕ
  pub msg : String

abbrev pub is_official : Category → Bool
is_official official = true
is_official general = false
is_official students = false

-- The WHERE clause on a result and its team.
abbrev pub is_shown : ℕ → ℕ → ResultRow → TeamRow → Bool
is_shown team fixed_at r t =
    (r.pass == 1) && (t.id == team || (not (is_official t.category) && leb r.created_at fixed_at))

abbrev pub score_row : ResultRow → TeamRow → LatestScore
score_row r t = record { team_id = t.id; team_name = t.name; score = r.score; at = r.created_at }

abbrev pub rows_of : ℕ → ℕ → ResultRow → List TeamRow → List LatestScore
rows_of team fixed_at r [] = []
rows_of team fixed_at r (t ∷ ts) =
    let rest = rows_of team fixed_at r ts in
    if (r.team_id == t.id) && is_shown team fixed_at r t then score_row r t ∷ rest else rest

abbrev pub join_rows : ℕ → ℕ → List TeamRow → List ResultRow → List LatestScore
join_rows team fixed_at ts [] = []
join_rows team fixed_at ts (r ∷ rs) = rows_of team fixed_at r ts ++ join_rows team fixed_at ts rs

-- ORDER BY results.team_id ASC, results.id ASC
abbrev pub by_team : ResultRow → ResultRow → Bool
by_team r s = ltb r.team_id s.team_id || ((r.team_id == s.team_id) && leb r.id s.id)

unfoldable pub score_rows : ℕ → ℕ → Tables → List LatestScore
score_rows team fixed_at t = join_rows team fixed_at t.teams (order_by by_team t.results)

abbrev pub put : String → ℕ → List (String × ℕ) → List (String × ℕ)
put key n [] = (key, n) ∷ []
put key n ((k, m) ∷ rest) =
    let more = put key n rest in if str_eq k key then (key, n) ∷ rest else (k, m) ∷ more

-- The variables of the loop over the rows. `line` and `latest` are of the team `last_team`.
pub record Loop : Type 0 where
  pub last_team : ℕ
  pub line : PlotLine
  pub latest : LatestScore
  pub plot_lines : List PlotLine
  pub latest_scores : List LatestScore

abbrev pub start_loop : Loop
start_loop = record {
  last_team = 0;
  line = record { team_name = ""; scores = [] };
  latest = record { team_id = 0; team_name = ""; score = 0; at = 0 };
  plot_lines = [];
  latest_scores = [];
}

-- Less of `LatestScores`
abbrev pub less_score : LatestScore → LatestScore → Bool
less_score a b = ltb b.score a.score

-- The text of a time, to the second, and sort.Sort, which is given the order as `Less`.
pub record Display : Type 0 where
  pub time_text : ℕ → String
  pub sort : (LatestScore → LatestScore → Bool) → List LatestScore → List LatestScore

-- What is appended when a team's rows have ended.
abbrev pub flush : Loop → Loop
flush s = if s.last_team == 0 then s else record s {
  plot_lines = s.plot_lines ++ s.line ∷ [];
  latest_scores = s.latest_scores ++ s.latest ∷ [];
}

abbrev pub change_team : LatestScore → Loop → Loop
change_team r s = if s.last_team == r.team_id then s else record (flush s) {
  last_team = r.team_id;
  line = record { team_name = r.team_name; scores = [] };
}

module _ (display : Display) where
  abbrev pub read_row : LatestScore → Loop → Loop
  read_row r s =
      let c = change_team r s in
      record c {
        line = record c.line { scores = put (display.time_text r.at) r.score c.line.scores };
        latest = r;
      }

  unfoldable pub read_rows : List LatestScore → Loop → Loop
  read_rows [] s = flush s
  read_rows (r ∷ rs) s = read_rows rs (read_row r s)

  abbrev pub results_of : List LatestScore → List PlotLine × List LatestScore
  results_of rows =
      let s = read_rows rows start_loop in (s.plot_lines, display.sort less_score s.latest_scores)

  -- The limit `topNum` of the source has no effect.
  unfoldable pub get_results : ℕ → ℕ → Db Tables Error (List PlotLine × List LatestScore)
  get_results team fixed_at = query (wrapped "") (λ t _. results_of (score_rows team fixed_at t))

abbrev pub team_result : ResultRow → TeamResult
team_result r = record {
  id = r.id;
  score = r.score;
  pass = r.pass;
  at = r.created_at;
  msg = r.messages;
}

unfoldable pub get_team_results : ℕ → Db Tables Error (List TeamResult)
get_team_results team = query (wrapped "") (λ t _.
    map team_result (
      order_by (λ r s. leb s.id r.id)
        (where_rows (λ (r : ResultRow). r.team_id == team) t.results)))
