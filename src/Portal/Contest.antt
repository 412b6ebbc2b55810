-- ===== src/Portal/Contest.antt =====
-- The hours of the contest (getContestStatus and getRankingFixedAt of portal/main.go). An instant is
-- a number of nanoseconds, and `midnight` the instant of `time.Date(y, m, d, 0, 0, 0, 0, locJST)` for
-- the date of the server's clock; Japan has no summer time. A negative flag is `none`.
use isucon6_final.Common.{
  ℕ, ◌+◌, ◌*◌, ◌-◌, ◌≤◌, ◌<◌, ◌≡◌, Bool, false, Option, none, some, ltb, if◌then◌else◌, arith,
}

pub data ContestStatus : Type 0 where
  not_started started ended : ContestStatus

abbrev pub hour : ℕ
hour = 3600 * 1000000000

-- time.Date(y, m, d, h, 0, 0, 0, locJST)
abbrev pub at_hour : ℕ → ℕ → ℕ
at_hour midnight h = midnight + h * hour

abbrev pub is_before_start : Option ℕ → ℕ → ℕ → Bool
is_before_start none midnight now = false
is_before_start (some h) midnight now = ltb now (at_hour midnight h)

abbrev pub is_after_end : Option ℕ → ℕ → ℕ → Bool
is_after_end none midnight now = false
is_after_end (some h) midnight now = ltb (at_hour midnight h) now

unfoldable pub get_contest_status : Option ℕ → Option ℕ → ℕ → ℕ → ContestStatus
get_contest_status starts ends midnight now =
    if is_before_start starts midnight now
    then not_started
    else if is_after_end ends midnight now
    then ended
    else started

-- `forever` is the instant of 1 January 2038.
unfoldable pub get_ranking_fixed_at : ℕ → Option ℕ → ℕ → ℕ
get_ranking_fixed_at forever none midnight = forever
get_ranking_fixed_at forever (some h) midnight = at_hour midnight h - hour

abbrev pub rank : ContestStatus → ℕ
rank not_started = 0
rank started = 1
rank ended = 2

-- Within one day the contest does not go back: at a later instant its status is the same or a later
-- one, whatever hours the flags name.
pub get_contest_status_monotone :
    (starts ends : Option ℕ) (midnight now later : ℕ)
    → now ≤ later
    → rank (get_contest_status starts ends midnight now)
      ≤ rank (get_contest_status starts ends midnight later)
unfolding get_contest_status
get_contest_status_monotone none none midnight now later h = ground arith
get_contest_status_monotone none (some e) midnight now later h = ground arith
get_contest_status_monotone (some s) none midnight now later h = ground arith
get_contest_status_monotone (some s) (some e) midnight now later h = ground arith

-- Once the contest has ended at an hour of the day after its first, the ranking is fixed, and has
-- been for an hour.
pub ended-ranking_fixed :
    (forever h midnight now : ℕ) (starts : Option ℕ)
    → 1 ≤ h
    → get_contest_status starts (some h) midnight now ≡ ended
    → get_ranking_fixed_at forever (some h) midnight + hour < now
unfolding get_contest_status get_ranking_fixed_at
ended-ranking_fixed forever h midnight now none k e = ground arith
ended-ranking_fixed forever h midnight now (some s) k e = ground arith
