-- ===== src/Portal/Import.antt =====
-- The import of the teams (portal/cmd/importteams/main.go): a line for each team, with its columns
-- separated by tabs. Each statement is committed by itself, so that a line that ends the program leaves
-- the teams of the lines before it.
mod Tests
use isucon6_final.Common.{
  ℕ, ◌+◌, ◌≤◌, ◌≡◌, refl, Bool, true, false, not, Option, none, some, List, [], ◌∷◌, ◌++◌, String,
  str_eq, split, get_elem?, ◌==◌, if◌then◌else◌, Bool-cases, Option-cases, inl, inr, arith, All,
  All-mono, All-append, IsIn, ◌||◌,
}
use isucon6_final.Sql.{count_rows, where_rows}
use isucon6_final.Sql.Order.{All-where_rows_of}
use isucon6_final.Portal.Results.{is_official}
use isucon6_final.Db.Returns.{Returns, Returns-pure, Returns-raise, Returns-if, Keeps-Returns-bind}
use isucon6_final.Db.{
  World, Result, ok, err, panic, answer, continue, Db, pure, raise, panics, exec, ◌>>=◌, ◌>>◌,
}
use isucon6_final.Db.Keeps.{
  Keeps, Keeps-pure, Keeps-raise, Keeps-panics, Keeps-exec, Keeps-if, Keeps-bind, keeps_rules,
}
use isucon6_final.Portal.Schema.{
  Tables, TeamRow, Category, general, students, official, Error, wrapped,
}

abbrev pub operator_team_id : ℕ
operator_team_id = 9999

abbrev pub operator_password : String
operator_password = "Btw5R5fskVvXOzT"

-- A row of the INSERT: it has no address and no instance.
abbrev pub new_team : ℕ → String → String → Category → String → TeamRow
new_team id name password category group = record {
  id = id;
  name = name;
  password = password;
  ip_address = none;
  instance_name = none;
  category = category;
  azure_resource_group = group;
}

-- REPLACE INTO teams: the rows with the id or the name of the new one are deleted, since both are
-- keys. `same_name` is the equality of names in the collation of the database.
module _ (same_name : String → String → Bool) where
  abbrev pub is_replaced : ℕ → String → TeamRow → Bool
  is_replaced id name r = (r.id == id) || same_name r.name name

  unfoldable pub replace_team : ℕ → String → String → Category → String → Tables → Tables
  replace_team id name password category group t = record t {
    teams =
        where_rows (λ r. not (is_replaced id name r)) t.teams
        ++ new_team id name password category group ∷ [];
  }

  unfoldable pub store_team : ℕ → String → String → Category → String → Db Tables Error (Unit {0})
  store_team id name password category group =
      exec (wrapped "") (λ t _. (tt, replace_team id name password category group t))

abbrev pub tab : ℕ
tab = 9

-- parts[i], a panic where the line has too few columns.
unfoldable pub column : List String → ℕ → Db Tables Error String
column parts i = found (get_elem? parts i)
  where
    found : Option String → Db Tables Error String
    found none = panics
    found (some s) = pure s

unfoldable pub category_of : String → Db Tables Error Category
category_of text =
    if str_eq text "一般"
    then pure general
    else if str_eq text "学生"
    then pure students
    else raise (wrapped "unknown category")

unfoldable pub number_of : Option ℕ → Db Tables Error ℕ
number_of none = raise (wrapped "")
number_of (some n) = pure n

-- `parse_int` is strconv.ParseInt. An error is log.Fatal, which ends the program.
module _ (same_name : String → String → Bool) (parse_int : String → Option ℕ) where
  unfoldable pub import_line : String → Db Tables Error (Unit {0})
  unfolding column number_of category_of store_team
  import_line line = do
    name ← column (split tab line) 2
    password ← column (split tab line) 4
    number ← column (split tab line) 0
    id ← number_of (parse_int number)
    text ← column (split tab line) 1
    category ← category_of text
    group ← column (split tab line) 5
    store_team same_name id name password category group

  unfoldable pub import_lines : List String → Db Tables Error (Unit {0})
  unfolding import_line
  import_lines [] = pure tt
  import_lines (line ∷ lines) = do import_line line; import_lines lines

  -- The first line is dropped; last comes the team of the staff.
  abbrev pub after_first_line : List String → List String
  after_first_line [] = []
  after_first_line (line ∷ lines) = lines

  unfoldable pub import_teams : List String → Db Tables Error (Unit {0})
  unfolding import_lines
  import_teams lines = do
    import_lines (after_first_line lines)
    store_team same_name operator_team_id "運営" operator_password official ""

-- A team that does not take part is the staff's.
abbrev pub OnlyStaff : Tables → Type 0
OnlyStaff t = All (λ (r : TeamRow). is_official r.category ≡ true → r.id ≡ operator_team_id) t.teams

abbrev pub staff_team : TeamRow
staff_team = new_team operator_team_id "運営" operator_password official ""

module _ (same_name : String → String → Bool) where
  replace_team-OnlyStaff :
      (id : ℕ) (name password : String) (category : Category) (group : String) (t : Tables)
      → (is_official category ≡ true → id ≡ operator_team_id)
      → OnlyStaff t
      → OnlyStaff (replace_team same_name id name password category group t)
  unfolding replace_team
  replace_team-OnlyStaff id name password category group t allowed h =
      All-append _ _ _
        (All-where_rows_of (λ (r : TeamRow). r.id) (λ r. not (is_replaced same_name id name r)) _
          t.teams (All-mono _ _ t.teams (λ r k _. k) h))
        (allowed, tt)

  store_team-OnlyStaff :
      (id : ℕ) (name password : String) (category : Category) (group : String)
      → (is_official category ≡ true → id ≡ operator_team_id)
      → Keeps OnlyStaff (store_team same_name id name password category group)
  unfolding store_team
  store_team-OnlyStaff id name password category group allowed =
      Keeps-exec _ _ λ t n. replace_team-OnlyStaff id name password category group t allowed

  -- A REPLACE that returns has put its row into the table.
  store_team-IsIn :
      (id : ℕ) (name password : String) (category : Category) (group : String) (w : World Tables)
      → (store_team same_name id name password category group w).0 ≡ ok tt
      → IsIn
          (new_team id name password category group)
          (store_team same_name id name password category group w).1.tables.teams
  unfolding store_team replace_team ◌>>=◌
  store_team-IsIn id name password category group w h = stored w.faults h
    where
      row : TeamRow
      row = new_team id name password category group

      last : (rows : List TeamRow) → IsIn row (rows ++ row ∷ [])
      last [] = inl refl
      last (r ∷ rows) = inr (last rows)

      stored :
          (faults : List Bool)
          → let (r, v) =
              answer {E = Error}
                (err (wrapped ""))
                (λ (v : World Tables).
                  (tt, replace_team same_name id name password category group v.tables))
                w
                faults in
            r ≡ ok tt → IsIn row v.tables.teams
      stored [] k = last _
      stored (true ∷ rest) k = absurd cc
      stored (false ∷ rest) k = last _

column-OnlyStaff : (parts : List String) (i : ℕ) → Keeps OnlyStaff (column parts i)
unfolding column
column-OnlyStaff parts i = elim (Option-cases (get_elem? parts i)) [
  | inl lacks ↦ rw lacks Keeps-panics
  | inr (s, has) ↦ rw has (Keeps-pure s)
]

number_of-OnlyStaff : (n : Option ℕ) → Keeps OnlyStaff (number_of n)
unfolding number_of
number_of-OnlyStaff none = Keeps-raise _
number_of-OnlyStaff (some n) = Keeps-pure n

-- No line makes a team official.
category_of-Returns :
    (text : String) → Returns OnlyStaff (λ c. is_official c ≡ false) (category_of text)
unfolding category_of
category_of-Returns text =
    Returns-if (str_eq text "一般") _ _ (λ _. Returns-pure _ refl)
      (λ _. Returns-if (str_eq text "学生") _ _ (λ _. Returns-pure _ refl) (λ _. Returns-raise _))

module _ (same_name : String → String → Bool) (parse_int : String → Option ℕ) where
  import_line-OnlyStaff : (line : String) → Keeps OnlyStaff (import_line same_name parse_int line)
  unfolding import_line
  import_line-OnlyStaff line = Keeps-bind _ _ (column-OnlyStaff _ 2) λ name.
      Keeps-bind _ _ (column-OnlyStaff _ 4) λ password.
        Keeps-bind _ _ (column-OnlyStaff _ 0) λ number.
          Keeps-bind _ _ (number_of-OnlyStaff (parse_int number)) λ id.
            Keeps-bind _ _ (column-OnlyStaff _ 1) λ text.
              Keeps-Returns-bind _ _ _ (category_of-Returns text) λ category fine.
                Keeps-bind _ _ (column-OnlyStaff _ 5) λ group.
                  store_team-OnlyStaff same_name id name password category group
                    (λ official. absurd cc)

  import_lines-OnlyStaff :
      (lines : List String) → Keeps OnlyStaff (import_lines same_name parse_int lines)
  unfolding import_lines
  import_lines-OnlyStaff [] = Keeps-pure tt
  import_lines-OnlyStaff (line ∷ lines) =
      Keeps-bind _ _ (import_line-OnlyStaff line) λ _. import_lines-OnlyStaff lines

  staff_stored :
      (r : Result Error (Unit {0})) (v : World Tables)
      → (continue r
          (λ _. store_team same_name operator_team_id "運営" operator_password official "")
          v).0
        ≡ ok tt
      → IsIn staff_team
          (continue r
            (λ _. store_team same_name operator_team_id "運営" operator_password official "")
            v).1.tables.teams
  staff_stored (ok u) v h = store_team-IsIn same_name _ _ _ _ _ v h
  staff_stored (err e) v h = absurd cc
  staff_stored panic v h = absurd cc

  -- Whatever lines are imported and whatever the driver answers, no team but the staff's is official
  -- after the import, whether it ends or is ended by a line, if none was before; and where it ends,
  -- the staff's team is in the table, with its name and password.
  pub import_teams_official :
      (lines : List String) (w : World Tables)
      → OnlyStaff w.tables
      → OnlyStaff (import_teams same_name parse_int lines w).1.tables
        × ((import_teams same_name parse_int lines w).0 ≡ ok tt
            → IsIn staff_team (import_teams same_name parse_int lines w).1.tables.teams)
  unfolding import_teams ◌>>=◌
  import_teams_official lines w h =
      let first = import_lines same_name parse_int (after_first_line same_name parse_int lines) in
      (
        (Keeps-bind _ _ (import_lines-OnlyStaff (after_first_line same_name parse_int lines)) λ _.
              store_team-OnlyStaff same_name operator_team_id "運営" operator_password official ""
                (λ _. refl)).at
            w h,
        staff_stored (first w).0 (first w).1,
      )
