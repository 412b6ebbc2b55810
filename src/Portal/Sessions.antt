-- ===== src/Portal/Sessions.antt =====
-- Who a request of the portal is from (loadTeam and loadTeamFromSession of portal/web.go). Cookies
-- and sessions are those of packages that are not part of the repository: a request comes with what
-- they make of it.
pub mod Reading
use isucon6_final.Common.{ℕ, ◌==◌, Bool, true, false, Option, none, some, String, if◌then◌else◌}
use isucon6_final.Sql.{where_rows, first_row}
use isucon6_final.Db.{Db, Result, ok, err, panic, pure, raise, panics, query, clock, attempt, ◌>>=◌}
use isucon6_final.Portal.Schema.{
  Tables, TeamRow, Error, wrapped, already_queued, affected, http, http_message,
}
use isucon6_final.Portal.Contest.{ContestStatus, get_contest_status}
use isucon6_final.Portal.Replies.{Team}

-- The flags of the program, and the day: `midnight` is its start, `forever` 1 January 2038.
pub record Setup : Type 0 where
  pub starts : Option ℕ
  pub ends : Option ℕ
  pub midnight : ℕ
  pub forever : ℕ
  pub debug_mode : Bool

-- What `sessionStore.New` gives: an error that is not one of decoding, or the values of a session,
-- which are empty after an error of decoding, with the team id if they have one.
pub data StoredSession : Type 0 where
  broken : StoredSession
  session : Option ℕ → StoredSession

-- `debug_team` is the number in the cookie of this name, `saves` whether the session can be saved.
pub record Visit : Type 0 where
  pub is_get : Bool
  pub is_post : Bool
  pub debug_team : Option ℕ
  pub stored : StoredSession
  pub saves : Bool

unfoldable pub contest_status : Setup → Db Tables Error ContestStatus
contest_status f = do now ← clock; pure (get_contest_status f.starts f.ends f.midnight now)

-- IFNULL(…, '')
abbrev pub if_null : Option String → String
if_null none = ""
if_null (some s) = s

abbrev pub team_of : Option TeamRow → Option Team
team_of none = none
team_of (some t) = some (record {
  id = t.id;
  name = t.name;
  ip_addr = if_null t.ip_address;
  instance_name = if_null t.instance_name;
})

unfoldable pub load_team : ℕ → Db Tables Error (Option Team)
load_team id =
    query (wrapped "")
      (λ t _. team_of (first_row (where_rows (λ (r : TeamRow). r.id == id) t.teams)))

-- errors.Wrapf, which is nil for nil; the only errors here are the driver's.
unfoldable pub wrap_load : Result Error (Option Team) → Db Tables Error (Option Team)
wrap_load (ok team) = pure team
wrap_load (err e) = raise (wrapped "loadTeam")
wrap_load panic = panics

unfoldable pub load_team_of_session : StoredSession → Db Tables Error (Option Team)
unfolding wrap_load
load_team_of_session broken = raise (wrapped "sessionStore.New()")
load_team_of_session (session none) = pure none
load_team_of_session (session (some id)) = do r ← attempt (load_team id); wrap_load r

unfoldable pub load_team_from_cookie : Option ℕ → StoredSession → Db Tables Error (Option Team)
unfolding load_team_of_session
load_team_from_cookie none s = load_team_of_session s
load_team_from_cookie (some n) s = if n == 0 then load_team_of_session s else load_team n

unfoldable pub load_team_from_session : Setup → Visit → Db Tables Error (Option Team)
unfolding load_team_from_cookie
load_team_from_session f v =
    if f.debug_mode
    then load_team_from_cookie v.debug_team v.stored
    else load_team_of_session v.stored
