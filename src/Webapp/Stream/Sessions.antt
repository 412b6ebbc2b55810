-- ===== src/Webapp/Stream/Sessions.antt =====
-- The strokes that a session has sent rise: what a frame, a query and the resume point do to that.
use isucon6_final.Common.{
  ℕ, ◌+◌, ◌≤◌, ◌<◌, ◌≡◌, refl, Option, none, some, List, [], ◌∷◌, ◌++◌, map, arith, ◌==◌,
  append-nil, All-mono, Bool-cases, inl, inr,
}
use isucon6_final.Sql.{count_rows, where_rows, order_by}
use isucon6_final.Sql.Sorted.{
  Rising, Sorted-Rising, order_by-Sorted, count-order_by, count-where_rows_le,
}
use isucon6_final.Sql.Order.{All-order_by, All-where_rows}
use isucon6_final.Db.{World, Result, ok, err, panic}
use isucon6_final.Db.Triple.{Ends, Triple, Triple-pure, Triple-raise}
use isucon6_final.Webapp.Schema.{StrokeRow, Tables, Stroke, Error, driver}
use isucon6_final.Webapp.Queries.{strokes_after, without_points, by_id, in_room_after}
use isucon6_final.Webapp.Stream.{
  Frame, Session, bad_request_event, first_count, watcher_event, stroke_event, error_answer,
  print_and_flush, last_stroke_id, report_count,
}

-- The ids of the strokes among the frames.
abbrev pub sent_ids : {F : Type 0} → List (Frame F) → List ℕ
sent_ids [] = []
sent_ids (stroke_event s ∷ fs) = s.row.id ∷ sent_ids fs
sent_ids (bad_request_event m ∷ fs) = sent_ids fs
sent_ids (first_count n ∷ fs) = sent_ids fs
sent_ids (watcher_event n ∷ fs) = sent_ids fs
sent_ids (error_answer ∷ fs) = sent_ids fs

Rising-le : (lo : ℕ) (is : List ℕ) (hi : ℕ) → Rising lo is hi → lo ≤ hi
Rising-le lo [] hi h = h
Rising-le lo (i ∷ is) hi h = omega (arith, h.0, Rising-le i is hi h.1)

Rising-snoc :
    (lo : ℕ) (is : List ℕ) (hi i : ℕ) → Rising lo is hi → hi < i → Rising lo (is ++ i ∷ []) i
Rising-snoc lo [] hi i h k = (omega arith, omega arith)
Rising-snoc lo (j ∷ is) hi i h k = (h.0, Rising-snoc j is hi i h.1 k)

module _ {F : Type 0} where
  -- No two strokes have the same id: `id` is the table's primary key.
  abbrev pub UniqueIds : Tables F → Type 0
  UniqueIds t = (k : ℕ) → count_rows (λ (s : StrokeRow F). s.id == k) t.strokes ≤ 1

  pub sent_ids-append : (fs gs : List (Frame F)) → sent_ids (fs ++ gs) ≡ sent_ids fs ++ sent_ids gs
  sent_ids-append [] gs = refl
  sent_ids-append (stroke_event s ∷ fs) gs = rw (sent_ids-append fs gs) refl
  sent_ids-append (bad_request_event m ∷ fs) gs = sent_ids-append fs gs
  sent_ids-append (first_count n ∷ fs) gs = sent_ids-append fs gs
  sent_ids-append (watcher_event n ∷ fs) gs = sent_ids-append fs gs
  sent_ids-append (error_answer ∷ fs) gs = sent_ids-append fs gs

  abbrev pub ids_of : List (Stroke F) → List ℕ
  ids_of ss = map (λ (s : Stroke F). s.row.id) ss

  pub ids_of-without_points :
      (rows : List (StrokeRow F))
      → ids_of (map without_points rows) ≡ map (λ (s : StrokeRow F). s.id) rows
  ids_of-without_points [] = refl
  ids_of-without_points (r ∷ rows) = rw (ids_of-without_points rows) refl

  pub strokes_after-Rising :
      (room last : ℕ) (t : Tables F)
      → UniqueIds t
      → (hi : ℕ) × Rising last (map (λ (s : StrokeRow F). s.id) (strokes_after room last t)) hi
  unfolding strokes_after
  strokes_after-Rising room last t u =
      let rows = where_rows (in_room_after room last) t.strokes in
      Sorted-Rising (λ (s : StrokeRow F). s.id) last (order_by by_id rows)
        (order_by-Sorted (λ (s : StrokeRow F). s.id) rows)
        (λ k. omega (
          arith,
          u k,
          count-order_by (λ (s : StrokeRow F). s.id == k) by_id rows,
          count-where_rows_le (in_room_after room last) (λ (s : StrokeRow F). s.id == k) t.strokes,
        ))
        (All-order_by (λ (s : StrokeRow F). last < s.id) by_id rows
          (All-mono _ (λ (s : StrokeRow F). last < s.id) rows (λ s e. ground arith)
            (All-where_rows (in_room_after room last) t.strokes)))

-- What holds of a session while it runs: all its strokes rise from above `lo` to `hi` at most.
pub record Sent {F : Type 0} (lo hi : ℕ) (s : Session F) : Type 0 where
  pub unique : UniqueIds s.tables
  pub rising : Rising lo (sent_ids s.out) hi

abbrev pub SentSome : {F : Type 0} → ℕ → Session F → Type 0
SentSome lo s = (hi : ℕ) × Sent lo hi s

module _ {F : Type 0} (lo hi : ℕ) where
  pub afterwards-Ends :
      {A : Type 0} (S : A → Type 0) (s : Session F) (r : Result Error A) (v : World (Tables F))
      → Sent lo hi s
      → Ends (λ a t. UniqueIds t × S a) UniqueIds r v.tables
      → Ends
          (λ a u. Sent lo hi u × S a)
          (SentSome lo)
          r
          (record s { tables = v.tables; turn = s.turn + 1 })
  afterwards-Ends S s (ok a) v p e = (record { unique = e.0; rising = p.rising }, e.1)
  afterwards-Ends S s (err x) v p e = (hi, record { unique = e; rising = p.rising })
  afterwards-Ends S s panic v p e = (hi, record { unique = e; rising = p.rising })

  pub print-Sent :
      (f : Frame F)
      → sent_ids (f ∷ []) ≡ []
      → Triple (Sent lo hi) (λ _. Sent lo hi) (SentSome lo) (print_and_flush f)
  unfolding print_and_flush
  print-Sent f e = record {
    at = λ w p. record {
      unique = p.unique;
      rising =
          rw (sent_ids-append w.tables.out (f ∷ []), e, append-nil (sent_ids w.tables.out))
            p.rising;
    };
  }

  pub print_stroke-Sent :
      (s : Stroke F)
      → hi < s.row.id
      → Triple (Sent lo hi) (λ _. Sent lo s.row.id) (SentSome lo) (print_and_flush (stroke_event s))
  unfolding print_and_flush
  print_stroke-Sent s h = record {
    at = λ w p. record {
      unique = p.unique;
      rising =
          rw (sent_ids-append w.tables.out (stroke_event s ∷ []))
            (Rising-snoc lo (sent_ids w.tables.out) hi s.row.id p.rising h);
    };
  }

  pub report_count-Sent :
      (old new : ℕ)
      → Triple (Sent {F = F} lo hi) (λ _. Sent lo hi) (SentSome lo) (report_count old new)
  unfolding report_count
  report_count-Sent old new = elim (Bool-cases (new == old)) [
    | inl e ↦ rw e (Triple-pure tt (λ s p. p))
    | inr e ↦ rw e (print-Sent (watcher_event new) refl)
  ]

-- Where a stream starts: after the number in Last-Event-ID.
abbrev pub after_event : Option (Option ℕ) → ℕ
after_event (some (some n)) = n
after_event (some none) = 0
after_event none = 0

module _ {F : Type 0} where
  pub last_stroke_id-Sent :
      (last_event : Option (Option ℕ))
      → Triple
          (Sent {F = F} (after_event last_event) (after_event last_event))
          (λ last u.
            Sent (after_event last_event) (after_event last_event) u
            × (last ≡ after_event last_event))
          (SentSome (after_event last_event))
          (last_stroke_id last_event)
  unfolding last_stroke_id
  last_stroke_id-Sent none = Triple-pure 0 (λ s p. (p, refl))
  last_stroke_id-Sent (some none) = Triple-raise driver (λ s p. (0, p))
  last_stroke_id-Sent (some (some n)) = Triple-pure n (λ s p. (p, refl))

  pub refused :
      (last_event : Option (Option ℕ)) (f : Frame F)
      → sent_ids (f ∷ []) ≡ []
      → Triple
          (Sent (after_event last_event) (after_event last_event))
          (λ _. SentSome (after_event last_event))
          (SentSome (after_event last_event))
          (print_and_flush f)
  unfolding print_and_flush
  refused last_event f e = record {
    at = λ w p. (
      after_event last_event,
      (print-Sent (after_event last_event) (after_event last_event) f e).at w p,
    );
  }
