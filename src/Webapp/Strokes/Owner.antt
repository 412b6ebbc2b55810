-- ===== src/Webapp/Strokes/Owner.antt =====
-- Only the owner of a room draws its first stroke.
use isucon6_final.Common.{
  ℕ, ◌≡◌, sym, subst, true, Option, none, some, List, [], String, arith, ◌==◌, ==_iff, str_eq, All,
  Bool-cases, All-mono, inl, inr,
}
use isucon6_final.Sql.{where_rows, count_rows, first_row}
use isucon6_final.Sql.Order.{Holds, All-first_row, All-where_rows, All-where_rows_of}
use isucon6_final.Db.{Result, ok, err, panic}
use isucon6_final.Db.Keeps.{Keeps, Keeps-pure, Keeps-raise, Keeps-panics, Keeps-query-bind}
use isucon6_final.Db.Returns.{
  Returns, Returns-pure, Returns-raise, Returns-query, Returns-bind, Returns-attempt,
  Keeps-Returns-bind, Post,
}
use isucon6_final.Webapp.Schema.{
  Columns, TokenRow, RoomRow, Tables, Room, Error, driver, no_rows, PostedStroke,
}
use isucon6_final.Webapp.Queries.{
  check_token, get_room, get_strokes, strokes_after, is_token, or_no_rows,
}
use isucon6_final.Webapp.Rooms.{if_found, token_error, bad_request, room_missing}
use isucon6_final.Webapp.Strokes.{
  is_owner, is_bad_stroke, not_owner, draw_first, draw_in, post_stroke_as, post_stroke_with,
  post_api_strokes_rooms_id,
}

tokens_where :
    (Q : TokenRow → Type 0) (csrf : String) (now : ℕ) (ks : List TokenRow)
    → All (λ k. str_eq k.csrf_token csrf ≡ true → Q k) ks
    → Holds Q (first_row (where_rows (is_token csrf now) ks))
tokens_where Q csrf now ks h = All-first_row Q _ (
    All-where_rows_of (λ (k : TokenRow). k.id) (is_token csrf now) Q ks
      (All-mono (λ k. str_eq k.csrf_token csrf ≡ true → Q k) _ ks (λ k f e. f (ground arith)) h))

module _ {F : Type 0} where
  pub or_no_rows-Holds :
      {A : Type 0} {P : Tables F → Type 0} (Q : A → Type 0) (o : Option A)
      → Holds Q o
      → Returns P Q (or_no_rows o)
  unfolding or_no_rows
  or_no_rows-Holds Q none h = Returns-raise no_rows
  or_no_rows-Holds Q (some a) h = Returns-pure a h

  -- What `getRoom` returns has the id that was asked for.
  pub get_room-id :
      {P : Tables F → Type 0} (id : ℕ) → Returns P (λ (r : Room F). r.row.id ≡ id) (get_room id)
  unfolding get_room
  get_room-id id =
      Returns-bind (Holds (λ (r : RoomRow). (r.id == id) ≡ true)) _ _
        (Returns-query _ _ (λ t n h.
          All-first_row (λ (r : RoomRow). (r.id == id) ≡ true) _
            (All-where_rows (λ (r : RoomRow). r.id == id) t.rooms)))
        (λ o h.
          Returns-bind (λ (r : RoomRow). (r.id == id) ≡ true) _ _
            (or_no_rows-Holds (λ (r : RoomRow). (r.id == id) ≡ true) o h)
            (λ r e. Returns-pure _ ((==_iff r.id id).0 e)))

  -- A token that `checkToken` returns is one of the table's with the text that was sent.
  pub check_token-Holds :
      (Q : TokenRow → Type 0) (csrf : String) (t : Tables F)
      → All (λ k. str_eq k.csrf_token csrf ≡ true → Q k) t.tokens
      → Returns (λ u. u ≡ t) (Holds Q) (check_token csrf)
  unfolding check_token
  check_token-Holds Q csrf t h = elim (Bool-cases (str_eq csrf "")) [
    | inl e ↦ rw e (Returns-pure none tt)
    | inr e ↦ rw e (
        Returns-query _ _ (λ u now same.
          subst (λ v. Holds Q (first_row (where_rows (is_token csrf now) v.tokens))) (sym same)
            (tokens_where Q csrf now t.tokens h)))
  ]

module _ {F : Type 0} (column : Columns F) (t : Tables F) where
  draw_first-Keeps :
      (k : TokenRow) (room : ℕ) (p : PostedStroke F)
      → count_rows (is_owner room k.id) t.room_owners ≡ 0
      → Keeps (λ u. u ≡ t) (draw_first column k room p)
  unfolding draw_first
  draw_first-Keeps k room p h = Keeps-query-bind _ _ _ λ u n same.
      let none_owned : count_rows (is_owner room k.id) u.room_owners ≡ 0 = rw (same, h) in
      rw none_owned (Keeps-pure not_owner)

  draw_in-Keeps :
      (k : TokenRow) (body : Option (PostedStroke F)) (r : Room F)
      → count_rows (is_owner r.row.id k.id) t.room_owners ≡ 0
      → strokes_after r.row.id 0 t ≡ []
      → Keeps (λ u. u ≡ t) (draw_in column k body r)
  unfolding draw_in get_strokes
  draw_in-Keeps k none r h e = Keeps-raise driver
  draw_in-Keeps k (some p) r h e = elim (Bool-cases (is_bad_stroke p)) [
    | inl bad ↦ rw bad (Keeps-pure bad_request)
    | inr fine ↦ rw fine (
        Keeps-query-bind _ _ _ λ u n same.
          let no_strokes : strokes_after r.row.id 0 u ≡ [] = rw (same, e) in
          rw no_strokes (draw_first-Keeps k r.row.id p h))
  ]

  if_found-Keeps :
      (k : TokenRow) (id : ℕ) (body : Option (PostedStroke F)) (found : Result Error (Room F))
      → count_rows (is_owner id k.id) t.room_owners ≡ 0
      → strokes_after id 0 t ≡ []
      → Post (λ (r : Room F). r.row.id ≡ id) found
      → Keeps (λ u. u ≡ t) (if_found room_missing (draw_in column k body) found)
  unfolding if_found
  if_found-Keeps k id body (ok r) h e q = draw_in-Keeps k body r (rw (q, h)) (rw (q, e))
  if_found-Keeps k id body (err no_rows) h e q = Keeps-pure room_missing
  if_found-Keeps k id body (err driver) h e q = Keeps-raise driver
  if_found-Keeps k id body panic h e q = Keeps-panics

  post_stroke_as-Keeps :
      (found : Option TokenRow) (id : ℕ) (body : Option (PostedStroke F))
      → Holds (λ k. count_rows (is_owner id k.id) t.room_owners ≡ 0) found
      → strokes_after id 0 t ≡ []
      → Keeps (λ u. u ≡ t) (post_stroke_with column (some id) body found)
  unfolding post_stroke_with post_stroke_as
  post_stroke_as-Keeps none id body h e = Keeps-pure token_error
  post_stroke_as-Keeps (some k) id body h e =
      Keeps-Returns-bind (Post (λ (r : Room F). r.row.id ≡ id)) _ _
        (Returns-attempt _ (get_room-id id)) (λ found. if_found-Keeps k id body found h e)

  -- Whoever posts to a room that has no strokes, with a token that is not of its owner, changes
  -- nothing, whatever the driver answers.
  pub first_stroke_refused :
      (csrf : String) (id : ℕ) (body : Option (PostedStroke F))
      → strokes_after id 0 t ≡ []
      → All
          (λ k. str_eq k.csrf_token csrf ≡ true → count_rows (is_owner id k.id) t.room_owners ≡ 0)
          t.tokens
      → Keeps (λ u. u ≡ t) (post_api_strokes_rooms_id column csrf (some id) body)
  unfolding post_api_strokes_rooms_id
  first_stroke_refused csrf id body e h =
      Keeps-Returns-bind (Holds (λ k. count_rows (is_owner id k.id) t.room_owners ≡ 0)) _ _
        (check_token-Holds _ csrf t h) (λ found q. post_stroke_as-Keeps found id body q e)
