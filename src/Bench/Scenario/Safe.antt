-- ===== src/Bench/Scenario/Safe.antt =====
-- The command as a whole: with URLs that it accepts it ends with its output, and without it panics.
use isucon6_final.Common.{
  ◌<◌, ◌≡◌, refl, subst, Bool, true, false, Option, none, some, List, [], ◌∷◌, String, str_eq,
  split, split-some, length, All, if◌then◌else◌, arith,
}
use isucon6_final.Bench.Scenario.Load.{load_index_page, draw_on_random_room}
use isucon6_final.Bench.Scenario.{
  Url, Env, Run, Scenario, ◌>>=◌, rand_int, random_origin, new_session,
}
use isucon6_final.Bench.Scenario.Ends.{Ends, Any, Below}
use isucon6_final.Bench.Scenario.Runs.{IsUrl, Ready}
use isucon6_final.Bench.Scenario.Loads.{load_index_page-Ends, draw_on_random_room-Ends}
use isucon6_final.Bench.Scenario.Initial.{csrf_token_refreshed}
use isucon6_final.Bench.Scenario.Command.{
  comma, is_origin, all_origins, make_origins, initial_check, main,
}

module _ {S F : Type 0} (e : Env S F) where
  is_origin-IsUrl : (u : Option Url) → is_origin e.parse_url u ≡ true → (v : Url) × (u ≡ some v)
  is_origin-IsUrl none h = absurd cc
  is_origin-IsUrl (some u) h = (u, refl)

  all_origins-IsUrl : (os : List String) → all_origins e.parse_url os ≡ true → All (IsUrl e) os
  unfolding all_origins
  all_origins-IsUrl [] h = tt
  all_origins-IsUrl (o ∷ os) h = (
    is_origin-IsUrl (e.parse_url o) (ground (arith, h)),
    all_origins-IsUrl os (ground (arith, h)),
  )

  -- The strokes that the scenarios draw.
  pub record HasStrokes : Type 0 where
    pub stool : 0 < length (e.get_strokes "stool")
    pub star : 0 < length (e.get_strokes "star")
    pub www : 0 < length (e.get_strokes "www")

  accepted :
      (empty fine : Bool) (parts origins : List String)
      → (if empty then none else if fine then some parts else none) ≡ some origins
      → (fine ≡ true) × (parts ≡ origins)
  accepted true fine parts origins h = absurd cc
  accepted false true parts origins h = (refl, cc)
  accepted false false parts origins h = absurd cc

  make_origins-Ready :
      (urls : String) (origins : List String)
      → Below e
      → HasStrokes
      → make_origins e.parse_url urls ≡ some origins
      → Ready e origins
  unfolding make_origins
  make_origins-Ready urls origins below strokes h =
      let (fine, same) =
        accepted (str_eq urls "") (all_origins e.parse_url (split comma urls)) (split comma urls)
          origins h in
      record {
        some_origin = subst (λ os. 0 < length os) same (split-some comma urls);
        urls = subst (All (IsUrl e)) same (all_origins-IsUrl (split comma urls) fine);
        below = below;
        stool = strokes.stool;
        star = strokes.star;
        www = strokes.www;
      }

module _ {S F : Type 0} (e : Env S F) where
  -- With URLs that `makeOrigins` accepts, strokes to draw and random numbers below their bounds, each
  -- run of `LoadIndexPage` and of `DrawOnRandomRoom` ends without a panic, whatever the site answers;
  -- it takes back no message, no critical failure and no score.
  pub loads_end :
      (urls : String) (origins : List String)
      → Below e
      → HasStrokes e
      → make_origins e.parse_url urls ≡ some origins
      → Ends Any (load_index_page e origins) × Ends Any (draw_on_random_room e origins)
  loads_end urls origins below strokes h =
      let k = make_origins-Ready e urls origins below strokes h in
      (load_index_page-Ends e origins k, draw_on_random_room-Ends e origins k)

module _ {S F : Type 0} (e : Env S F) (le : String → String → Bool) where
  -- With URLs that `makeOrigins` refuses the command goes on without an origin, and panics at its
  -- first random number.
  pub main-panics :
      (benchmark : List String → Scenario S (Unit {0})) (only : Bool) (urls : String) (r : Run S)
      → make_origins e.parse_url urls ≡ none
      → (main e le benchmark only urls r).0 ≡ none
  unfolding main initial_check csrf_token_refreshed new_session random_origin rand_int ◌>>=◌
  main-panics benchmark only urls r h = rw h refl
