-- ===== src/Bench/Worker.antt =====
-- The worker of a benchmark node (bench/cmd/worker/worker.go), that asks the portal for jobs, runs
-- the benchmarker and posts what it prints. What the portal and the network answer, the benchmarker
-- prints and the signals are come as values; the JSON decoder and Go's conversions of texts are
-- parameters.
pub mod Round
mod Tests
use isucon6_final.Common.{
  ℕ, ◌+◌, ◌==◌, Bool, true, false, Option, none, some, List, [], ◌∷◌, ◌++◌, String, ltb,
  if◌then◌else◌,
}
use isucon6_final.Portal.Schema.{Job, Output, JobResult}

-- The request cannot be made or sent, or there is a response with its status and what the decoder
-- makes of its body.
pub data Answer : Type 0 where
  unsent : Answer
  responded : ℕ → Option Job → Answer

-- `(*job.Job, error)`
pub data Fetched : Type 0 where
  failed : Fetched
  fetched : Option Job → Fetched

abbrev pub decoded_job : Option Job → Fetched
decoded_job none = failed
decoded_job (some j) = fetched (some j)

unfoldable pub fetch_job : Answer → Fetched
fetch_job unsent = failed
fetch_job (responded status body) =
    if status == 200 then decoded_job body else if status == 204 then fetched none else failed

-- One turn of the loop of `waitJob`: whether a signal has come before it, and what is answered.
pub record Poll : Type 0 where
  pub signalled : Bool
  pub answer : Answer

-- `waitJob` returns a job or nil, or the turns end before it returns.
pub data Waited : Type 0 where
  returned : Option Job → Waited
  waiting : Waited

unfoldable pub after_fetch : Fetched → Waited → Waited
after_fetch failed more = more
after_fetch (fetched none) more = more
after_fetch (fetched (some j)) more = returned (some j)

unfoldable pub wait_job : List Poll → Waited
wait_job [] = waiting
wait_job (p ∷ ps) =
    let more = wait_job ps in
    if p.signalled then returned none else after_fetch (fetch_job p.answer) more

abbrev pub max_stderr_len : ℕ
max_stderr_len = 10000

-- What the benchmarker prints.
pub record BenchRun : Type 0 where
  pub out : String
  pub stderr : String

-- One turn of the loop of `start`: whether a signal has come before it, what its wait meets, whether
-- a signal has come by the end of the wait, and what the benchmarker prints.
pub record Turn : Type 0 where
  pub signalled : Bool
  pub polls : List Poll
  pub late : Bool
  pub run : BenchRun

-- `decode_output` leaves the zero `Output`, or a part of one, where it fails; its error is only
-- logged. `rune_count` is utf8.RuneCountInString, `take_runes` the first runes of a text.
module _ (decode_output : String → Output) (rune_count : String → ℕ)
    (take_runes : ℕ → String → String) where
  unfoldable pub cut_stderr : String → String
  cut_stderr s = if ltb max_stderr_len (rune_count s) then take_runes max_stderr_len s else s

  unfoldable pub result_of : Job → BenchRun → JobResult
  result_of j run = record {
    job = some j;
    output = some (decode_output run.out);
    stderr = cut_stderr run.stderr;
  }

  unfoldable pub after_wait : Bool → BenchRun → Waited → List JobResult → List JobResult
  unfolding result_of
  after_wait late run waiting more = []
  after_wait late run (returned none) more = if late then [] else more
  after_wait late run (returned (some j)) more = if late then [] else result_of j run ∷ more

  -- The loop of `start`: the results that it posts, whatever becomes of them.
  unfoldable pub start : List Turn → List JobResult
  unfolding after_wait
  start [] = []
  start (t ∷ ts) =
      let more = start ts in
      if t.signalled then [] else after_wait t.late t.run (wait_job t.polls) more
