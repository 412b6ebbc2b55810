-- ===== src/Bench/Matsuri/Tests.antt =====
-- The crowd and its score at concrete inputs.
use isucon6_final.Common.{
  ℕ, suc, ◌+◌, ◌-◌, ◌*◌, ◌^◌, ◌/◌, ◌≤◌, ◌≡◌, true, false, List, [], ◌∷◌, some, length, arith,
}
use isucon6_final.Bench.Fails.{Tally}
use isucon6_final.Bench.Matsuri.{
  StrokeLog, Watcher, Posted, initial_watcher_num, increase_interval, crowd, score_watchers,
}
use isucon6_final.Bench.Matsuri.Crowd.{crowd_bound}
use isucon6_final.Bench.Matsuri.Score.{score_watchers_bound}

abbrev heard : StrokeLog
heard = record { stroke_id = 7; points = 3; received = 9 }

-- Every watcher hears one stroke.
abbrev during : ℕ → ℕ → Watcher → Watcher
during k i w = record w { stroke_logs = heard ∷ [] }

abbrev overhead : ℕ → ℕ
overhead k = 1

crowd_bound_example :
    (ws : List Watcher) × (crowd during overhead 55
        (suc ((55 - increase_interval) / increase_interval))
      ≡ some ws)
    × (length ws ≤ initial_watcher_num * 2 ^ ((55 - increase_interval) / increase_interval))
crowd_bound_example = crowd_bound during overhead 55

abbrev tally : Tally
tally = record { msgs = []; is_critical = false; score = 100 }

abbrev posted : List Posted
posted = record { id = 7; points = 3; time = 8 } ∷ record { id = 8; points = 2; time = 20 } ∷ []

abbrev watchers : List Watcher
watchers =
    record { stroke_logs = heard ∷ []; has_ended = true }
    ∷ record { stroke_logs = []; has_ended = true }
    ∷ []

score_watchers_bound_example :
    (score_watchers posted watchers tally).score ≤ 100 + length posted * length watchers
score_watchers_bound_example =
    score_watchers_bound posted watchers tally
      ((7, (omega arith, omega arith)), ((0, omega arith), tt))
