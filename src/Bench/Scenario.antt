-- ===== src/Bench/Scenario.antt =====
-- The scenarios of the benchmarker (bench/scenario/*.go) as programs that talk to a site. What the
-- site answers, the clock and the random numbers are parameters; a body comes as what the parsers for
-- HTML, JSON and pictures find in it. The goroutines of a scenario run one after another, and an id
-- that is no positive number is 0.
pub mod Checks
pub mod Pages
pub mod Initial
pub mod Load
pub mod Command
pub mod Grown
pub mod Ends
pub mod Sound
pub mod PageChecks
pub mod Runs
pub mod Loads
pub mod Safe
pub mod Verdicts
mod Tests
use isucon6_final.Common.{
  ℕ, ◌+◌, ◌==◌, Bool, true, false, Option, none, some, List, [], ◌∷◌, String, text_append,
  get_elem?, length, ◌*◌, if◌then◌else◌,
}
use isucon6_final.Webapp.Schema.{PostedPoint, PostedStroke}
use isucon6_final.Bench.Fails.{Tally, critical}
use isucon6_final.Bench.Action.{Outcome, StatusChecker, ok_checker, bad_request_checker, get, post}
use isucon6_final.Bench.Svg.{PolyLine}
use isucon6_final.Bench.Seed.{fluctuate_stroke}
use isucon6_final.Bench.Watching.{Event}

-- The members that the scenarios read of the types of bench/scenario/response.go.
pub record Stroke (F : Type 0) : Type 0 where
  pub id : ℕ
  pub created_at : ℕ
  pub points : List (PostedPoint F)

pub record Room (F : Type 0) : Type 0 where
  pub id : ℕ
  pub created_at : ℕ
  pub strokes : List (Stroke F)
  pub stroke_count : ℕ

pub record Response (F : Type 0) : Type 0 where
  pub room : Option (Room F)
  pub rooms : List (Room F)
  pub stroke : Option (Stroke F)
  pub csrf_token : String

-- An element of the class `room`: its id attribute and the text of its `.stroke_count`.
pub record RoomEntry : Type 0 where
  pub id : Option String
  pub stroke_count : String

-- What goquery finds in a page: the tokens of its html elements, the sources of its images, its
-- rooms, and the number of its polylines and of its elements with a data-reactid; then what
-- TopPageContent reads of the root of React and of the first script.
pub record Document : Type 0 where
  pub csrf_tokens : List (Option String)
  pub image_sources : List (Option String)
  pub rooms : List RoomEntry
  pub polylines : ℕ
  pub reactids : ℕ
  pub react_checksum : String
  pub markup : Option String
  pub script : String

-- `is_read` is whether the body can be read to its end, `md5` its sum in hexadecimal digits.
pub record Body (F : Type 0) : Type 0 where
  pub is_read : Bool
  pub document : Option Document
  pub json : Option (Response F)
  pub picture : Option (List (PolyLine F))
  pub md5 : String

pub record Answer (F : Type 0) : Type 0 where
  pub outcome : Outcome
  pub body : Body F

pub record Session : Type 0 where
  pub number : ℕ
  pub origin : String

-- The JSON that is posted, with the token of its header.
pub data Call (F : Type 0) : Type 0 where
  page : Session → String → Call F
  new_room : Session → String → Call F
  new_stroke : Session → String → ℕ → PostedStroke F → Call F

pub record Url : Type 0 where
  pub scheme : String
  pub host : String

-- `S` is the state of the site. `intn k n` is the draw number k of rand.Intn(n). `events` are those that
-- a watcher of a room hears until it has left, and whether its event source could be made.
pub record Env (S F : Type 0) : Type 0 where
  pub respond : Call F → S → Answer F × S
  pub now : S → ℕ
  pub ended : S → Bool
  pub events : Session → ℕ → S → (Bool × List Event) × S
  pub intn : ℕ → ℕ → ℕ
  pub float : ℕ → F
  pub shift : F → F → F
  pub far : F → F → Bool
  pub itoa : ℕ → String
  pub parse_int : String → Option ℕ
  pub parse_url : String → Option Url
  pub get_strokes : String → List (PostedStroke F)
  pub runes : String → List ℕ
  pub async_props : String → Option (List (Response F))

-- `draws` counts the random numbers, `sessions` the sessions.
pub record Run (S : Type 0) : Type 0 where
  pub site : S
  pub tally : Tally
  pub draws : ℕ
  pub sessions : ℕ

-- No value is a panic of the program.
abbrev pub Scenario : Type 0 → Type 0 → Type 0
Scenario S A = Run S → Option A × Run S

module _ {S A : Type 0} where
  pub pure : A → Scenario S A
  pure a r = (some a, r)

  pub panics : Scenario S A
  panics r = (none, r)

  -- xs[i]
  pub elem_at : List A → ℕ → Scenario S A
  elem_at xs i r = (get_elem? xs i, r)

module _ {S : Type 0} where
  pub report : (Tally → Tally) → Scenario S (Unit {0})
  report f r = (some tt, record r { tally = f r.tally })

  pub fails_critical : String → Scenario S (Unit {0})
  unfolding report
  fails_critical m = report (critical m)

-- Go's early returns: on a failure, silently or with a critical message.
module _ {S A : Type 0} where
  abbrev pub when_some : Option A → (A → Scenario S (Unit {0})) → Scenario S (Unit {0})
  when_some none f = pure tt
  when_some (some a) f = f a

  abbrev pub required : String → Option A → (A → Scenario S (Unit {0})) → Scenario S (Unit {0})
  required m none f = fails_critical m
  required m (some a) f = f a

abbrev pub critical_if : {S : Type 0} → Bool → String → Scenario S (Unit {0})
critical_if b m = if b then fails_critical m else pure tt

module _ {S A B : Type 0} where
  abbrev pub continue : Option A → (A → Scenario S B) → Scenario S B
  continue none f r = (none, r)
  continue (some a) f r = f a r

  infixl 10 ◌>>=◌ ◌>>◌
  unfoldable pub ◌>>=◌ : Scenario S A → (A → Scenario S B) → Scenario S B
  unfolding pure panics elem_at report fails_critical
  ◌>>=◌ m f r = let (a, u) = m r in continue a f u

  abbrev pub ◌>>◌ : Scenario S A → Scenario S B → Scenario S B
  m >> k = m >>= λ _. k

abbrev pub is_some : {A : Type 0} → Option A → Bool
is_some none = false
is_some (some a) = true

-- What a function that checks a body finds; a success is a value.
abbrev pub Check : Type 0 → Type 0 → Type 0
Check F A = Body F → String → Tally → Option A × Tally

abbrev pub decided : {A : Type 0} → Option A × Tally → Bool × Tally
decided (v, s) = (is_some v, s)

module _ {S F : Type 0} (e : Env S F) where
  -- rand.Intn(n), which panics for 0.
  pub rand_int : ℕ → Scenario S ℕ
  rand_int n r =
      if n == 0 then (none, r) else (some (e.intn r.draws n), record r { draws = r.draws + 1 })

  pub time_now : Scenario S ℕ
  time_now r = (some (e.now r.site), r)

  pub is_over : Scenario S Bool
  is_over r = (some (e.ended r.site), r)

  pub random_origin : List String → Scenario S String
  unfolding rand_int
  random_origin origins = do i ← rand_int (length origins); elem_at origins i

  -- session.New(randomOrigin(origins)); an origin that is no URL is a panic.
  unfoldable pub open_session : String → Scenario S Session
  open_session origin r = opened (e.parse_url origin)
    where
      opened : Option Url → Option Session × Run S
      opened none = (none, r)
      opened (some u) = (
        some (record { number = r.sessions; origin = origin }),
        record r { sessions = r.sessions + 1 },
      )

  unfoldable pub new_session : List String → Scenario S Session
  unfolding random_origin open_session
  new_session origins = do o ← random_origin origins; open_session o

  -- seed.FluctuateStroke with the next random numbers.
  pub fluctuate : PostedStroke F → Scenario S (PostedStroke F)
  fluctuate s r = (
    some (fluctuate_stroke e.shift (λ k. e.float (r.draws + k)) (λ n k. e.intn (r.draws + k) n) s),
    record r { draws = r.draws + 2 * length s.points + 4 },
  )

  -- What `request` of bench/action/action.go puts before a message.
  abbrev pub prefix_of : String → String → String
  prefix_of method path = text_append ("[" ∷ method ∷ " " ∷ path ∷ "] " ∷ [])

  -- action.Get with action.OK, and action.Post: the value of the check is kept where they return true.
  module _ {A : Type 0} where
    pub fetch : Session → String → Check F A → Scenario S (Option A)
    fetch s path c r =
        let (ans, site) = e.respond (page s path) r.site in
        let (fine, t) =
          get e.itoa path ans.outcome (ok_checker (λ p u. decided (c ans.body p u))) r.tally in
        (
          some (if fine then (c ans.body (prefix_of "GET" path) r.tally).0 else none),
          record r { site = site; tally = t },
        )

    pub submit :
        ((String → Tally → Bool × Tally) → StatusChecker)
        → String
        → Call F
        → Check F A
        → Scenario S (Option A)
    submit checker path call c r =
        let (ans, site) = e.respond call r.site in
        let (fine, t) =
          post e.itoa path ans.outcome (checker (λ p u. decided (c ans.body p u))) r.tally in
        (
          some (if fine then (c ans.body (prefix_of "POST" path) r.tally).0 else none),
          record r { site = site; tally = t },
        )
