-- ===== src/Portal/Queue/Race/Settled.antt =====
-- Jobs that have been handed out stay so under every operation of portal/queue.go.
use native.Mathlib.Decide.{dec_lt}
use isucon6_final.Common.{
  ℕ, ◌<◌, ◌≡◌, refl, Bool, false, Option, none, some, List, ◌∷◌, String, arith, ◌==◌, All, All-mono,
}
use isucon6_final.Sql.{count_rows, update_rows}
use isucon6_final.Sql.Counts.{
  count_rows-insert, count_rows-update_le, count_rows-update_sub, count_rows_mono, All-update_rows,
}
use isucon6_final.Db.Keeps.{
  Keeps, Keeps-exec, Keeps-raise, Keeps-pure, Keeps-panics, Keeps-begin-bind, Keeps-in_tx-bind,
  Keeps-commit, keeps_rules,
}
use isucon6_final.Portal.Schema.{QueueRow, Tables, Job, Output, JobResult}
use isucon6_final.Portal.Queue.{
  is_waiting, claims, finishes, start_row, finish_row, insert_queue, insert_result, insert_job,
  claim_job, save_result, finish_job, done_job,
}
use isucon6_final.Portal.Queue.Invariant.{count-fresh, insert_queue-fresh}

-- The jobs in `ids` have been handed out: their rows are not waiting, and no new row gets their id.
pub record Settled (ids : List ℕ) (t : Tables) : Type 0 where
  pub fresh : All (λ r. r.id < t.next_queue) t.queues
  pub settled : All (λ id. (id < t.next_queue) × (count_rows (claims id) t.queues ≡ 0)) ids

insert_queue-Settled :
    (team now : ℕ) (ids : List ℕ) (t : Tables)
    → Settled ids t
    → Settled ids (insert_queue team now t)
unfolding insert_queue
insert_queue-Settled team now ids t v = record {
  fresh = insert_queue-fresh team now t v.fresh;
  settled =
      All-mono (λ id. (id < t.next_queue) × (count_rows (claims id) t.queues ≡ 0)) _ ids
        (λ id h. (omega arith, rw count_rows-insert (ground arith))) v.settled;
}

-- No row becomes waiting by an update that leaves the ids alone.
update-Settled :
    (p : QueueRow → Bool) (f : QueueRow → QueueRow) (ids : List ℕ) (t : Tables)
    → ((r : QueueRow) → (f r).id ≡ r.id)
    → ((r : QueueRow) → is_waiting (f r).status ≡ false)
    → Settled ids t
    → Settled ids (record t { queues = update_rows p f t.queues })
update-Settled p f ids t same stops v = record {
  fresh =
      All-update_rows (λ r. r.id < t.next_queue) p f t.queues (λ r h. omega (arith, same r))
        v.fresh;
  settled =
      All-mono (λ id. (id < t.next_queue) × (count_rows (claims id) t.queues ≡ 0)) _ ids
        (λ id h. (
          h.0,
          omega (
            arith,
            count_rows-update_le p (claims id) f t.queues (λ r _ k. ground (arith, stops r)),
            h.1,
          ),
        ))
        v.settled;
}

insert_result-Settled :
    (j : Job) (o : Output) (now : ℕ) (ids : List ℕ) (t : Tables)
    → Settled ids t
    → Settled ids (insert_result j o now t)
unfolding insert_result
insert_result-Settled j o now ids t v = record { fresh = v.fresh; settled = v.settled }

pub insert_job-Settled :
    (team : ℕ) (found : Option QueueRow) (ids : List ℕ)
    → Keeps (Settled ids) (insert_job team found)
unfolding insert_job
insert_job-Settled team none ids = Keeps-exec _ _ (λ t now v. insert_queue-Settled team now ids t v)
insert_job-Settled team (some r) ids = Keeps-raise _

pub claim_job-Settled :
    (node : String) (found : Option QueueRow) (ids : List ℕ)
    → Keeps (Settled ids) (claim_job node found)
unfolding claim_job
claim_job-Settled node none ids = Keeps-pure none
claim_job-Settled node (some j) ids = Keeps-begin-bind _ _ λ tx v. Keeps-in_tx-bind _ _ _ λ now.
    Keeps-in_tx-bind _ _ _ λ _.
      let kept =
        update-Settled (claims j.id) (start_row node now) ids tx (λ _. refl) (λ _. refl) v in
      search (keeps_rules, Keeps-commit)

save_result-Settled :
    (j : Job) (output : Option Output) (ids : List ℕ) (tx : Tables)
    → Settled ids tx
    → Keeps (Settled ids) (save_result j output tx)
unfolding save_result
save_result-Settled j none ids tx v = Keeps-panics
save_result-Settled j (some o) ids tx v =
    Keeps-in_tx-bind _ _ _ λ now. Keeps-commit _ _ (insert_result-Settled j o now ids tx v)

finish_job-Settled :
    (job : Option Job) (output : Option Output) (stderr : String) (ids : List ℕ) (tx : Tables)
    → Settled ids tx
    → Keeps (Settled ids) (finish_job job output stderr tx)
unfolding finish_job
finish_job-Settled none output stderr ids tx v = Keeps-panics
finish_job-Settled (some j) output stderr ids tx v = Keeps-in_tx-bind _ _ _ λ now.
    Keeps-in_tx-bind _ _ _ λ _.
      let kept =
        update-Settled (finishes j.id j.team_id) (finish_row stderr now) ids tx (λ _. refl)
          (λ _. refl) v in
      search (keeps_rules, save_result-Settled)

pub done_job-Settled : (res : JobResult) (ids : List ℕ) → Keeps (Settled ids) (done_job res)
unfolding done_job
done_job-Settled res ids =
    Keeps-begin-bind _ _ (finish_job-Settled res.job res.output res.stderr ids)

-- The claimed row is not waiting any more, and was the only one with its id.
pub claimed-Settled :
    (node : String) (r : QueueRow) (now : ℕ) (ids : List ℕ) (t : Tables)
    → count_rows (claims r.id) t.queues ≡ 1
    → Settled ids t
    → Settled
        (r.id ∷ ids)
        (record t { queues = update_rows (claims r.id) (start_row node now) t.queues })
claimed-Settled node r now ids t one v =
    let kept = update-Settled (claims r.id) (start_row node now) ids t (λ _. refl) (λ _. refl) v in
    let below : r.id < t.next_queue = elim (dec_lt r.id t.next_queue) [
      | yes h ↦ h
      | no h ↦ absurd (
          omega (
            arith,
            count-fresh t.next_queue r.id t.queues v.fresh (omega arith),
            count_rows_mono (claims r.id) (λ s. s.id == r.id) t.queues (λ s. ground arith),
          ))
    ] in
    record {
      fresh = kept.fresh;
      settled = (
        (
          below,
          omega (
            arith,
            count_rows-update_sub (claims r.id) (claims r.id) (start_row node now) t.queues
                (λ _ h. h) (λ s h. ground arith),
          ),
        ),
        kept.settled,
      );
    }
