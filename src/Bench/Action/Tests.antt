-- ===== src/Bench/Action/Tests.antt =====
-- A run of a request, and its theorem at a concrete input.
use isucon6_final.Common.{ℕ, ◌≡◌, refl, Bool, true, false, [], String}
use isucon6_final.Bench.Fails.{Tally}
use isucon6_final.Bench.Action.{responded, ok_checker, check_status, request, post}

abbrev accept : String → Tally → Bool × Tally
accept prefix t = (true, t)

abbrev blank : Tally
blank = record { msgs = []; is_critical = false; score = 0 }

abbrev no_digits : ℕ → String
no_digits n = ""

posted_20 : (post no_digits "/api/rooms" (responded 200) (ok_checker accept) blank).1.score ≡ 20
unfolding post request check_status
posted_20 = refl
