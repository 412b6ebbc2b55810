-- ===== src/Portal/Sessions/Reading.antt =====
-- Finding out who a request is from changes nothing.
use isucon6_final.Common.{◌==◌, ℕ, Option, none, some}
use isucon6_final.Db.{Result, ok, err, panic}
use isucon6_final.Db.Reads.{
  Reads, Reads-pure, Reads-raise, Reads-panics, Reads-query, Reads-if, Reads-attempt, Reads-clock,
  Reads-bind,
}
use isucon6_final.Portal.Schema.{Error}
use isucon6_final.Portal.Replies.{Team}
use isucon6_final.Portal.Sessions.{
  Setup, Visit, StoredSession, broken, session, contest_status, load_team, wrap_load,
  load_team_of_session, load_team_from_cookie, load_team_from_session,
}

pub contest_status-Reads : (f : Setup) → Reads (contest_status f)
unfolding contest_status
contest_status-Reads f = Reads-bind _ _ Reads-clock (λ now. Reads-pure _)

load_team-Reads : (id : ℕ) → Reads (load_team id)
unfolding load_team
load_team-Reads id = Reads-query _ _

wrap_load-Reads : (r : Result Error (Option Team)) → Reads (wrap_load r)
unfolding wrap_load
wrap_load-Reads (ok team) = Reads-pure team
wrap_load-Reads (err e) = Reads-raise _
wrap_load-Reads panic = Reads-panics

load_team_of_session-Reads : (s : StoredSession) → Reads (load_team_of_session s)
unfolding load_team_of_session
load_team_of_session-Reads broken = Reads-raise _
load_team_of_session-Reads (session none) = Reads-pure none
load_team_of_session-Reads (session (some id)) =
    Reads-bind _ _ (Reads-attempt _ (load_team-Reads id)) wrap_load-Reads

load_team_from_cookie-Reads : (c : Option ℕ) (s : StoredSession) → Reads (load_team_from_cookie c s)
unfolding load_team_from_cookie
load_team_from_cookie-Reads none s = load_team_of_session-Reads s
load_team_from_cookie-Reads (some n) s =
    Reads-if (n == 0) _ _ (load_team_of_session-Reads s) (load_team-Reads n)

pub load_team_from_session-Reads : (f : Setup) (v : Visit) → Reads (load_team_from_session f v)
unfolding load_team_from_session
load_team_from_session-Reads f v =
    Reads-if f.debug_mode _ _ (load_team_from_cookie-Reads v.debug_team v.stored)
      (load_team_of_session-Reads v.stored)
