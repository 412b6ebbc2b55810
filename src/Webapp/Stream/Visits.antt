-- ===== src/Webapp/Stream/Visits.antt =====
-- What the queries of a stream do to what it has sent.
use isucon6_final.Common.{ℕ, Option, none, some, String}
use isucon6_final.Sql.Sorted.{Rising}
use isucon6_final.Db.{Db, ◌>>=◌}
use isucon6_final.Db.Keeps.{Keeps, Keeps-query, Keeps-exec, Keeps-pure, Keeps-raise, keeps_rules}
use isucon6_final.Db.Triple.{Triple, Triple-query, Triple-bind, Triple-of_Keeps}
use isucon6_final.Webapp.Schema.{Tables, Error, driver}
use isucon6_final.Webapp.Queries.{
  check_token, get_stroke_points, get_strokes, strokes_after, get_room, get_watcher_count,
  update_room_watcher, or_no_rows,
}
use isucon6_final.Webapp.Stream.{Session, meanwhile, visit}
use isucon6_final.Webapp.Stream.Sessions.{
  UniqueIds, ids_of, ids_of-without_points, strokes_after-Rising, Sent, SentSome, afterwards-Ends,
}

module _ {F : Type 0} (others : ℕ → Tables F → Tables F)
    (keep : (n : ℕ) (t : Tables F) → UniqueIds t → UniqueIds (others n t)) where
  pub visit-Sent :
      (lo hi : ℕ) {A : Type 0} (S : A → Type 0) (m : Db (Tables F) Error A)
      → Triple UniqueIds (λ a t. UniqueIds t × S a) UniqueIds m
      → Triple (Sent lo hi) (λ a u. Sent lo hi u × S a) (SentSome lo) (visit others m)
  unfolding visit
  visit-Sent lo hi S m k = record {
    at = λ w p.
        let (r, v) = m (meanwhile others w) in
        afterwards-Ends lo hi S w.tables r v p
          (k.at (meanwhile others w) (keep w.tables.turn w.tables.tables p.unique));
  }

  pub visit-Keeps :
      (lo hi : ℕ) {A : Type 0} (m : Db (Tables F) Error A)
      → Keeps UniqueIds m
      → Keeps (Sent lo hi) (visit others m)
  unfolding visit
  visit-Keeps lo hi m k = record {
    at = λ w p. record {
      unique = k.at (meanwhile others w) (keep w.tables.turn w.tables.tables p.unique);
      rising = p.rising;
    };
  }

  pub keep-then :
      (lo hi : ℕ) {A B : Type 0} {Q : B → Session F → Type 0} (m : Db (Tables F) Error A)
      (f : A → Db (Session F) Error B)
      → Keeps UniqueIds m
      → ((a : A) → Triple (Sent lo hi) Q (SentSome lo) (f a))
      → Triple (Sent lo hi) Q (SentSome lo) (visit others m >>= f)
  keep-then lo hi m f k h =
      Triple-bind (λ _. Sent lo hi) _ _
        (Triple-of_Keeps (SentSome lo) _ (λ s p. (hi, p)) (visit-Keeps lo hi m k)) h

module _ {F : Type 0} where
  pub points-Keeps : (id : ℕ) → Keeps UniqueIds (get_stroke_points {F = F} id)
  unfolding get_stroke_points
  points-Keeps id = Keeps-query _ _

  pub watcher-Keeps : (room token : ℕ) → Keeps UniqueIds (update_room_watcher {F = F} room token)
  unfolding update_room_watcher
  watcher-Keeps room token = Keeps-exec _ _ (λ t n h. h)

  pub count-Keeps : (room : ℕ) → Keeps UniqueIds (get_watcher_count {F = F} room)
  unfolding get_watcher_count
  count-Keeps room = Keeps-query _ _

  pub token-Keeps : (csrf : String) → Keeps UniqueIds (check_token {F = F} csrf)
  unfolding check_token
  token-Keeps csrf = search (keeps_rules)

  pub or_no_rows-Keeps : {A : Type 0} (o : Option A) → Keeps UniqueIds (or_no_rows {F = F} o)
  unfolding or_no_rows
  or_no_rows-Keeps none = Keeps-raise _
  or_no_rows-Keeps (some a) = Keeps-pure _

  pub room-Keeps : (id : ℕ) → Keeps UniqueIds (get_room {F = F} id)
  unfolding get_room
  room-Keeps id = search (keeps_rules, or_no_rows-Keeps)

  pub strokes-Triple :
      (room last : ℕ)
      → Triple UniqueIds
          (λ ss t. UniqueIds t × ((hi : ℕ) × Rising last (ids_of ss) hi))
          UniqueIds
          (get_strokes {F = F} room last)
  unfolding get_strokes
  strokes-Triple room last =
      Triple-query driver _
        (λ t n u. (
          u,
          rw (ids_of-without_points (strokes_after room last t))
              (strokes_after-Rising room last t u),
        ))
        (λ t u. u)
