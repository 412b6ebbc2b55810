-- ===== src/Bench/Matsuri.antt =====
-- The growing crowd of bench/scenario/matsuri.go: how many watchers enter the room, and what the
-- strokes that they hear are worth. What the watchers hear in an interval, and how much longer than
-- its sleep an interval takes, are parameters.
pub mod Crowd
pub mod Score
mod Tests
use isucon6_final.Common.{
  ℕ, suc, zero, ◌+◌, ◌-◌, ◌*◌, Bool, true, false, ◌&&◌, not, Option, none, some, List, [], ◌∷◌,
  ◌++◌, String, ltb, leb, ◌==◌, length, if◌then◌else◌,
}
use isucon6_final.Bench.Fails.{Tally, add, increment}

-- A stroke that a watcher has heard, with the number of its points and the time when it came.
pub record StrokeLog : Type 0 where
  pub stroke_id : ℕ
  pub points : ℕ
  pub received : ℕ

-- `has_ended` is whether something is in `EndCh`.
pub record Watcher : Type 0 where
  pub stroke_logs : List StrokeLog
  pub has_ended : Bool

abbrev pub new_watcher : Watcher
new_watcher = record { stroke_logs = []; has_ended = false }

abbrev pub initial_watcher_num : ℕ
initial_watcher_num = 10

-- In nanoseconds.
abbrev pub second : ℕ
second = 1000000000

abbrev pub increase_interval : ℕ
increase_interval = 5

abbrev pub is_happy : Watcher → Bool
is_happy w = ltb 0 (length w.stroke_logs) && not w.has_ended

-- The additions and the subtractions of the loop that counts.
unfoldable pub ups : List Watcher → ℕ
ups [] = 0
ups (w ∷ ws) = (if is_happy w then 1 else 0) + ups ws

unfoldable pub downs : List Watcher → ℕ
downs [] = 0
downs (w ∷ ws) = (if is_happy w then 0 else 1) + downs ws

-- `n <= 0` exactly if there are no more additions than subtractions.
unfoldable pub newcomers : List Watcher → ℕ
newcomers ws = if leb (ups ws) (downs ws) then initial_watcher_num else ups ws - downs ws

unfoldable pub enter : ℕ → List Watcher
enter zero = []
enter (suc n) = new_watcher ∷ enter n

-- What one interval does to each watcher, by its place.
unfoldable pub evolve : (ℕ → Watcher → Watcher) → ℕ → List Watcher → List Watcher
evolve during i [] = []
evolve during i (w ∷ ws) = during i w ∷ evolve during (i + 1) ws

module _ (during : ℕ → ℕ → Watcher → Watcher) (overhead : ℕ → ℕ) (timeout : ℕ) where
  -- Watchers enter and the loop sleeps; with the elapsed time the loop goes on or ends. The fuel is a
  -- number of intervals, and `none` the end of the fuel. With a timeout below the interval the
  -- difference is negative, and the loop ends after one interval.
  unfoldable pub crowd_loop : ℕ → ℕ → ℕ → List Watcher → Option (List Watcher)
  crowd_loop zero k elapsed ws = none
  crowd_loop (suc fuel) k elapsed ws =
      let now = elapsed + increase_interval * second + overhead k in
      let next = evolve (during k) 0 (ws ++ enter (newcomers ws)) in
      let rest = crowd_loop fuel (suc k) now next in
      if ltb ((timeout - increase_interval) * second) now then some next else rest

  unfoldable pub crowd : ℕ → Option (List Watcher)
  crowd fuel = crowd_loop fuel 0 0 []

-- A stroke that was posted: its id, the number of its points, and when.
pub record Posted : Type 0 where
  pub id : ℕ
  pub points : ℕ
  pub time : ℕ

-- The maps `postedStrokes` and `postTimes`, which have the same keys, the last assignment first.
unfoldable pub find_posted : ℕ → List Posted → Option Posted
find_posted id [] = none
find_posted id (p ∷ ps) = let rest = find_posted id ps in if p.id == id then some p else rest

abbrev pub stroke_receive_score : ℕ
stroke_receive_score = 1

unfoldable pub score_found : StrokeLog → Option Posted → Tally → Tally
score_found l none s = s
score_found l (some p) s =
    if not (p.points == l.points)
    then add "streamされたstrokeが間違っています" s
    else if ltb l.received (p.time + 2 * second)
    then increment stroke_receive_score s
    else s

unfoldable pub score_logs : List Posted → List StrokeLog → Tally → Tally
score_logs posted [] s = s
score_logs posted (l ∷ ls) s =
    score_logs posted ls (score_found l (find_posted l.stroke_id posted) s)

unfoldable pub score_watchers : List Posted → List Watcher → Tally → Tally
score_watchers posted [] s = s
score_watchers posted (w ∷ ws) s = score_watchers posted ws (score_logs posted w.stroke_logs s)
