-- ===== src/Portal/Results/Latest.antt =====
-- The latest scores that `getResults` of portal/results.go returns.
use isucon6_final.Common.{
  ℕ, ◌≤◌, ◌<◌, ◌≡◌, ◌⊎◌, inl, inr, refl, sym, ◌∙◌, Bool, true, false, ◌&&◌, List, [], ◌∷◌, ◌++◌,
  append_assoc, All, All-mono, All-append, IsIn, all-IsIn, leb→le, ◌==◌, Bool-cases, arith,
  if◌then◌else◌,
}
use isucon6_final.Sql.{count_rows, order_by}
use isucon6_final.Sql.Order.{All-order_by}
use isucon6_final.Sql.Sorted.{IsSort, Ordered}
use isucon6_final.Db.{World, ok, ◌>>=◌}
use isucon6_final.Portal.Schema.{ResultRow, TeamRow, Tables}
use isucon6_final.Portal.Results.{
  PlotLine, LatestScore, Display, is_official, is_shown, score_row, rows_of, join_rows, by_team,
  score_rows, Loop, start_loop, less_score, change_team, read_row, read_rows, get_results,
}

-- The last row of every run of rows of one team.
abbrev pub last_rows : List LatestScore → List LatestScore
last_rows [] = []
last_rows (r ∷ []) = r ∷ []
last_rows (r ∷ s ∷ rest) =
    let more = last_rows (s ∷ rest) in if r.team_id == s.team_id then more else r ∷ more

change_team-last_team : (r : LatestScore) (s : Loop) → (change_team r s).last_team ≡ r.team_id
change_team-last_team r s = ground arith

change_team-same :
    (r : LatestScore) (s : Loop)
    → (s.last_team == r.team_id) ≡ true
    → (change_team r s).latest_scores ≡ s.latest_scores
change_team-same r s e = rw e refl

change_team-other :
    (r : LatestScore) (s : Loop)
    → (s.last_team == r.team_id) ≡ false
    → 0 < s.last_team
    → (change_team r s).latest_scores ≡ s.latest_scores ++ s.latest ∷ []
change_team-other r s e h = ground arith

module _ (display : Display) where
  -- After a row has been read, which is `s.latest`, with the entries of the teams before.
  read_rows-after :
      (rows : List LatestScore) (s : Loop)
      → s.last_team ≡ s.latest.team_id
      → 0 < s.last_team
      → All (λ r. 0 < r.team_id) rows
      → (read_rows display rows s).latest_scores ≡ s.latest_scores ++ last_rows (s.latest ∷ rows)
  unfolding read_rows
  read_rows-after [] s e h a = ground arith
  read_rows-after (r ∷ rows) s e h a =
      let t = read_row display r s in
      let next : (read_rows display rows t).latest_scores
          ≡ t.latest_scores ++ last_rows (r ∷ rows) =
        read_rows-after rows t (change_team-last_team r s)
          (omega (arith, change_team-last_team r s, a.0)) a.1 in
      elim (Bool-cases (s.last_team == r.team_id)) [
        | inl same ↦
            let joined : (s.latest.team_id == r.team_id) ≡ true = ground arith in
            next ∙ rw (change_team-same r s same, joined) refl
        | inr other ↦
            let apart : (s.latest.team_id == r.team_id) ≡ false = ground arith in
            next
            ∙ rw (change_team-other r s other h, apart)
                (append_assoc s.latest_scores (s.latest ∷ []) (last_rows (r ∷ rows)))
      ]

  latest_of_rows :
      (rows : List LatestScore)
      → All (λ r. 0 < r.team_id) rows
      → (read_rows display rows start_loop).latest_scores ≡ last_rows rows
  unfolding read_rows
  latest_of_rows [] a = refl
  latest_of_rows (r ∷ rows) a =
      let s = read_row display r start_loop in
      let none_yet : s.latest_scores ≡ [] = ground arith in
      read_rows-after rows s (change_team-last_team r start_loop)
        (omega (arith, change_team-last_team r start_loop, a.0)) a.1
      ∙ rw none_yet refl

-- An entry is of a result and its team: of a run that passed, and of the team that asks, or of no
-- official one and not after the ranking is fixed.
pub record IsOfResult (team fixed_at : ℕ) (t : Tables) (e : LatestScore) : Type 0 where
  pub result : ResultRow
  pub scorer : TeamRow
  pub is_result : IsIn result t.results
  pub is_team : IsIn scorer t.teams
  pub same_team : result.team_id ≡ scorer.id
  pub passed : result.pass ≡ 1
  pub shown :
      (scorer.id ≡ team) ⊎ ((is_official scorer.category ≡ false) × (result.created_at ≤ fixed_at))
  pub is_entry : e ≡ score_row result scorer

module _ (team fixed_at : ℕ) where
  rows_of-All :
      (P : LatestScore → Type 0) (r : ResultRow) (ts : List TeamRow)
      → All (λ t. ((r.team_id == t.id) && is_shown team fixed_at r t) ≡ true → P (score_row r t)) ts
      → All P (rows_of team fixed_at r ts)
  rows_of-All P r [] h = tt
  rows_of-All P r (t ∷ ts) h =
      elim (Bool-cases ((r.team_id == t.id) && is_shown team fixed_at r t)) [
        | inl e ↦ rw e (h.0 e, rows_of-All P r ts h.1)
        | inr e ↦ rw e (rows_of-All P r ts h.1)
      ]

  join_rows-All :
      (P : LatestScore → Type 0) (ts : List TeamRow) (rs : List ResultRow)
      → All (λ r. All P (rows_of team fixed_at r ts)) rs
      → All P (join_rows team fixed_at ts rs)
  join_rows-All P ts [] h = tt
  join_rows-All P ts (r ∷ rs) h = All-append P _ _ h.0 (join_rows-All P ts rs h.1)

  of_result :
      (t : Tables) (r : ResultRow) (s : TeamRow)
      → IsIn r t.results
      → IsIn s t.teams
      → ((r.team_id == s.id) && is_shown team fixed_at r s) ≡ true
      → IsOfResult team fixed_at t (score_row r s)
  of_result t r s in_results in_teams h = record {
    result = r;
    scorer = s;
    is_result = in_results;
    is_team = in_teams;
    same_team = ground (arith, h);
    passed = ground (arith, h);
    shown = elim (Bool-cases (s.id == team)) [
      | inl own ↦ inl (ground arith)
      | inr other ↦ inr (ground (arith, h), leb→le r.created_at fixed_at (ground (arith, h)))
    ];
    is_entry = refl;
  }

  score_rows-IsOfResult :
      (t : Tables) → All (IsOfResult team fixed_at t) (score_rows team fixed_at t)
  unfolding score_rows
  score_rows-IsOfResult t =
      join_rows-All (IsOfResult team fixed_at t) t.teams (order_by by_team t.results) (
        All-mono _ _ (order_by by_team t.results)
          (λ r in_results. rows_of-All _ r t.teams (
            All-mono _ _ t.teams (λ s in_teams h. of_result t r s in_results in_teams h)
              (all-IsIn t.teams)))
          (All-order_by (λ r. IsIn r t.results) by_team t.results (all-IsIn t.results)))

abbrev pub HighestFirst : List LatestScore → Type 0
HighestFirst [] = Unit {0}
HighestFirst (e ∷ es) = All (λ f. f.score ≤ e.score) es × HighestFirst es

-- With a driver that does not fail, a sort.Sort that sorts, and if no team has the id 0: the latest
-- scores that `getResults` returns are the rows that end a run of rows of one team, each as often as
-- it is one, the highest score first; and every row is of a result that passed, of the team that asks
-- or of a team that is not official and no later than the ranking is fixed.
pub get_results-latest :
    (display : Display) (team fixed_at : ℕ) (w : World Tables)
    → IsSort display.sort
    → w.faults ≡ []
    → All (λ r. 0 < r.team_id) (score_rows team fixed_at w.tables)
    → (lines : List PlotLine) × (latest : List LatestScore) × ((get_results display team fixed_at
          w).0
        ≡ ok (lines, latest))
      × ((p : LatestScore → Bool)
          → count_rows p latest ≡ count_rows p (last_rows (score_rows team fixed_at w.tables)))
      × HighestFirst latest
      × All (IsOfResult team fixed_at w.tables) (score_rows team fixed_at w.tables)
unfolding get_results ◌>>=◌
get_results-latest display team fixed_at w sorts h a =
    let rows = score_rows team fixed_at w.tables in
    let found = latest_of_rows display rows a in
    (
      (read_rows display rows start_loop).plot_lines,
      display.sort less_score (last_rows rows),
      rw (h, sym found) refl,
      λ p. sorts.kept less_score (last_rows rows) p,
      highest (display.sort less_score (last_rows rows)) (
          sorts.ordered less_score (last_rows rows) (λ x y k. ground arith)
            (λ x y z k m. ground arith)),
      score_rows-IsOfResult team fixed_at w.tables,
    )
  where
    highest : (es : List LatestScore) → Ordered less_score es → HighestFirst es
    highest [] o = tt
    highest (e ∷ es) o = (All-mono _ _ es (λ f k. ground (arith, k)) o.0, highest es o.1)
