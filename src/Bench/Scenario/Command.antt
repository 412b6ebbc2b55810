-- ===== src/Bench/Scenario/Command.antt =====
-- The command of the benchmarker (bench/cmd/bench/main.go). The flags are its arguments; `benchmark`
-- is what runs after the initial check, and a parameter here. The two goroutines of the initial check
-- run one after the other.
use isucon6_final.Common.{
  ℕ, Bool, true, false, not, ◌&&◌, Option, none, some, List, [], ◌∷◌, String, str_eq, split,
  if◌then◌else◌,
}
use isucon6_final.Portal.Schema.{Output}
use isucon6_final.Bench.Fails.{get_unique}
use isucon6_final.Bench.Scenario.{Url, Env, Scenario, ◌>>◌}
use isucon6_final.Bench.Scenario.Initial.{
  stroke_reflected_to_top, room_without_stroke_not_shown_at_top, csrf_token_refreshed,
  cant_draw_first_stroke_on_someone_elses_room, top_page_content, check_static_files,
  api_and_html_must_be_consistent,
}
use isucon6_final.Bench.Scenario.Load.{watcher_count_increases}

abbrev pub comma : ℕ
comma = 44

module _ (parse_url : String → Option Url) where
  abbrev pub is_origin : Option Url → Bool
  is_origin none = false
  is_origin (some u) = str_eq u.scheme "https" && not (str_eq u.host "")

  unfoldable pub all_origins : List String → Bool
  all_origins [] = true
  all_origins (o ∷ os) = is_origin (parse_url o) && all_origins os

  unfoldable pub make_origins : String → Option (List String)
  make_origins urls =
      if str_eq urls ""
      then none
      else if all_origins (split comma urls)
      then some (split comma urls)
      else none

-- An error of makeOrigins is printed, and there are no origins.
abbrev pub origins_or_nil : Option (List String) → List String
origins_or_nil none = []
origins_or_nil (some origins) = origins

module _ {S F : Type 0} (e : Env S F) where
  unfoldable pub initial_check : List String → Scenario S (Unit {0})
  initial_check origins = do
    csrf_token_refreshed e origins
    stroke_reflected_to_top e origins
    room_without_stroke_not_shown_at_top e origins
    cant_draw_first_stroke_on_someone_elses_room e origins
    top_page_content e origins
    api_and_html_must_be_consistent e origins
    check_static_files e origins
    watcher_count_increases e origins

  -- GetUnique also sorts the messages.
  unfoldable pub output : (String → String → Bool) → Scenario S Output
  output le r =
      let (messages, t) = get_unique le r.tally in
      (
        some
            (record { pass = not r.tally.is_critical; score = r.tally.score; messages = messages }),
        record r { tally = t },
      )

  unfoldable pub load_unless :
      Bool → (List String → Scenario S (Unit {0})) → List String → Scenario S (Unit {0})
  load_unless only benchmark origins r =
      if not only && not r.tally.is_critical then benchmark origins r else (some tt, r)

  module _ (le : String → String → Bool) (benchmark : List String → Scenario S (Unit {0})) where
    unfoldable pub main : Bool → String → Scenario S Output
    main initial_check_only urls = do
      initial_check (origins_or_nil (make_origins e.parse_url urls))
      load_unless initial_check_only benchmark (origins_or_nil (make_origins e.parse_url urls))
      output le
