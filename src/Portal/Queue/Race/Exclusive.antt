-- ===== src/Portal/Queue/Race/Exclusive.antt =====
-- What holds of every interleaving of the portal's requests, and what does not.
use isucon6_final.Common.{
  ℕ, ◌<◌, ◌≡◌, ◌≢◌, refl, sym, subst, Option, none, some, List, [], ◌∷◌, String, arith, All,
  All-mono,
}
use isucon6_final.Sql.{first_row, where_rows, count_rows, first_row, where_rows}
use isucon6_final.Sql.Counts.{
  count_rows-insert, first_row-eq-none, count_rows-insert, first_row-eq-none,
}
use isucon6_final.Db.{World, Result, ok, err, panic, ◌>>=◌}
use isucon6_final.Portal.Schema.{QueueRow, Tables, Error, Job}
use isucon6_final.Portal.Queue.{holds, claims, insert_queue, insert_job, claim_job}
use isucon6_final.Portal.Queue.Outcome.{claim_job-some, claim_job-none}
use isucon6_final.Portal.Queue.Race.{
  State, Step, ask, insert, pick, claim, finish, Reach, here, next, asked, hand, world,
}
use isucon6_final.Portal.Queue.Race.Settled.{
  Settled, insert_job-Settled, claim_job-Settled, done_job-Settled, claimed-Settled,
}

abbrev pub Distinct : List ℕ → Type 0
Distinct [] = Unit {0}
Distinct (i ∷ is) = All (λ j. i ≢ j) is × Distinct is

pub record Inv (s : State) : Type 0 where
  pub settled : Settled s.handed s.tables
  pub distinct : Distinct s.handed

claim-Inv :
    (node : String) (found : Option QueueRow) (w : World Tables) (ids : List ℕ)
    → Settled ids w.tables
    → Distinct ids
    → (result : Result Error (Option Job)) → (claim_job node found w).0 ≡ result
    → Settled (hand result ids) (claim_job node found w).1.tables × Distinct (hand result ids)
claim-Inv node found w ids v d (err e) h = ((claim_job-Settled node found ids).at w v, d)
claim-Inv node found w ids v d panic h = ((claim_job-Settled node found ids).at w v, d)
claim-Inv node found w ids v d (ok none) h = ((claim_job-Settled node found ids).at w v, d)
claim-Inv node none w ids v d (ok (some j)) h = let no_job = claim_job-none node w in absurd (cc)
claim-Inv node (some r) w ids v d (ok (some j)) h =
    let (same, one, after) = claim_job-some node r w j h in
    let other : All (λ i. r.id ≢ i) ids =
      All-mono (λ i. (i < w.tables.next_queue) × (count_rows (claims i) w.tables.queues ≡ 0)) _ ids
        (λ i k e.
          absurd (
            omega (arith, one, subst (λ i. count_rows (claims i) w.tables.queues ≡ 0) (sym e) k.1)))
        v.settled in
    rw (same, after) (claimed-Settled node r w.now ids w.tables one v, (other, d))

-- Every step of any client keeps the invariant.
pub Step-Inv : {s u : State} → Step s u → Inv s → Inv u
Step-Inv (ask i team) v = record { settled = v.settled; distinct = v.distinct }
Step-Inv {s} (insert i team now found faults e) v = record {
  settled = (insert_job-Settled team found s.handed).at (world s now faults) v.settled;
  distinct = v.distinct;
}
Step-Inv (pick i) v = record { settled = v.settled; distinct = v.distinct }
Step-Inv {s} (claim i now node found faults e) v =
    let w = world s now faults in
    let (kept, apart) =
      claim-Inv node found w s.handed v.settled v.distinct (claim_job node found w).0 refl in
    record { settled = kept; distinct = apart }
Step-Inv {s} (finish res now faults) v = record {
  settled = (done_job-Settled res s.handed).at (world s now faults) v.settled;
  distinct = v.distinct;
}

Reach-Inv : {s u : State} → Reach s u → Inv s → Inv u
Reach-Inv here v = v
Reach-Inv (next r st) v = Step-Inv st (Reach-Inv r v)

-- However the requests of the portal interleave, and whatever the driver answers, no job id is
-- returned by two calls of `dequeueJob`, and no job that was returned is waiting again: from a state
-- where none has been handed out and the row ids are below the counter.
pub handed_once :
    {s u : State}
    → s.handed ≡ []
    → All (λ r. r.id < s.tables.next_queue) s.tables.queues
    → Reach s u
    → Distinct u.handed × All (λ id. count_rows (claims id) u.tables.queues ≡ 0) u.handed
handed_once {s} {u} none_yet fresh r =
    let v = Reach-Inv r (record {
      settled = record { fresh = fresh; settled = rw none_yet tt };
      distinct = rw none_yet tt;
    }) in
    (
      v.distinct,
      All-mono (λ id. (id < u.tables.next_queue) × (count_rows (claims id) u.tables.queues ≡ 0)) _
          u.handed (λ id h. h.1) v.settled.settled,
    )

-- The SELECT and the INSERT of `enqueueJob` are not one transaction: two clients that both ask
-- before either inserts leave a team that had no active job with two.
pub double_enqueue :
    (s : State) (team : ℕ)
    → count_rows (holds team) s.tables.queues ≡ 0
    → (u : State) × Reach s u × (count_rows (holds team) u.tables.queues ≡ 2)
unfolding insert_job insert_queue ◌>>=◌
double_enqueue s team h = (
  _,
  next (next (next (next here (ask 0 team)) (ask 1 team)) (insert 0 team 0 none [] no_job))
      (insert 1 team 0 none [] no_job),
  two,
)
  where
    no_job : asked team (first_row (where_rows (holds team) s.tables.queues)) ≡ asked team none
    no_job = rw (first_row-eq-none (holds team) s.tables.queues h)

    two : count_rows (holds team) (insert_queue team 0 (insert_queue team 0 s.tables)).queues ≡ 2
    two = simp count_rows-insert (ground arith)
