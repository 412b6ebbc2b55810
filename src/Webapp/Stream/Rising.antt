-- ===== src/Webapp/Stream/Rising.antt =====
-- The order in which a stream sends strokes.
use isucon6_final.Common.{
  ℕ, ◌≡◌, refl, zero, suc, Option, none, some, List, [], ◌∷◌, String, arith, append-nil,
}
use isucon6_final.Sql.Sorted.{Rising}
use isucon6_final.Db.{World, Result, ok, err, panic}
use isucon6_final.Db.Keeps.{Keeps, Keeps-pure, Keeps-raise, Keeps-bind, Keeps-attempt, Keeps-panics}
use isucon6_final.Db.Triple.{
  Ends, Triple, Triple-pure, Triple-bind, Triple-fact, Triple-sleep, Triple-of_Keeps,
}
use isucon6_final.Webapp.Schema.{TokenRow, Tables, Stroke, Room, Error, driver, no_rows}
use isucon6_final.Webapp.Stream.{
  Session, first_count, error_answer, send_strokes, send_changes, send_turns, room_or_none,
  stream_room, visit_room, stream_found, stream_as, open_stream, ended, get_api_stream_rooms_id,
}
use isucon6_final.Webapp.Stream.Sessions.{
  sent_ids, UniqueIds, sent_ids-append, ids_of, Sent, SentSome, print-Sent, print_stroke-Sent,
  report_count-Sent, after_event, last_stroke_id-Sent, refused,
}
use isucon6_final.Webapp.Stream.Visits.{
  visit-Sent, visit-Keeps, keep-then, points-Keeps, watcher-Keeps, count-Keeps, token-Keeps,
  room-Keeps, strokes-Triple,
}

module _ {F : Type 0} (others : ℕ → Tables F → Tables F)
    (keep : (n : ℕ) (t : Tables F) → UniqueIds t → UniqueIds (others n t)) where
  send_strokes-Sent :
      (lo : ℕ) (ss : List (Stroke F)) (last hi : ℕ)
      → Rising last (ids_of ss) hi
      → Triple (Sent lo last) (λ l. Sent lo l) (SentSome lo) (send_strokes others ss last)
  unfolding send_strokes
  send_strokes-Sent lo [] last hi h = Triple-pure last (λ s p. p)
  send_strokes-Sent lo (s ∷ ss) last hi h =
      keep-then others keep lo last _ _ (points-Keeps s.row.id) (λ points.
        Triple-bind (λ _. Sent lo s.row.id) _ _
          (print_stroke-Sent lo last (record s { points = points }) h.0)
          (λ _. send_strokes-Sent lo ss s.row.id hi h.1))

  send_changes-Sent :
      (lo room token last count : ℕ)
      → Triple
          (Sent lo last)
          (λ (sent, n). Sent lo sent)
          (SentSome lo)
          (send_changes others room token (last, count))
  unfolding send_changes
  send_changes-Sent lo room token last count =
      Triple-bind (λ _. Sent lo last) _ _ (Triple-sleep 500000)
        (λ _.
          Triple-bind (λ ss u. Sent lo last u × ((hi : ℕ) × Rising last (ids_of ss) hi)) _ _
            (visit-Sent others keep lo last _ _ (strokes-Triple room last))
            (λ ss. Triple-fact _ (λ rising.
              Triple-bind (λ l. Sent lo l) _ _ (send_strokes-Sent lo ss last rising.0 rising.1)
                (λ l. keep-then others keep lo l _ _ (watcher-Keeps room token) (λ _.
                  keep-then others keep lo l _ _ (count-Keeps room) (λ n.
                    Triple-bind (λ _. Sent lo l) _ _ (report_count-Sent lo l count n)
                      (λ _. Triple-pure (l, n) (λ s p. p))))))))

  send_turns-Sent :
      (lo loop room token last count : ℕ)
      → Triple
          (Sent lo last)
          (λ _. SentSome lo)
          (SentSome lo)
          (send_turns others loop room token (last, count))
  unfolding send_turns
  send_turns-Sent lo zero room token last count = Triple-pure tt (λ s p. (last, p))
  send_turns-Sent lo (suc loop) room token last count =
      Triple-bind (λ (sent, n). Sent lo sent) _ _ (send_changes-Sent lo room token last count)
        (λ (sent, n). send_turns-Sent lo loop room token sent n)

  stream_room-Sent :
      (last_event : Option (Option ℕ)) (token : TokenRow) (room : Room F)
      → Triple
          (Sent (after_event last_event) (after_event last_event))
          (λ _. SentSome (after_event last_event))
          (SentSome (after_event last_event))
          (stream_room others last_event token room)
  unfolding stream_room
  stream_room-Sent last_event token room =
      let lo = after_event last_event in
      keep-then others keep lo lo _ _ (watcher-Keeps room.row.id token.id) (λ _.
        keep-then others keep lo lo _ _ (count-Keeps room.row.id) (λ count.
          Triple-bind (λ _. Sent lo lo) _ _ (print-Sent lo lo (first_count count) refl)
            (λ _.
              Triple-bind (λ last u. Sent lo lo u × (last ≡ lo)) _ _
                (last_stroke_id-Sent last_event)
                (λ last.
                  Triple-fact _ (λ e. rw e (send_turns-Sent lo 6 room.row.id token.id lo count))))))

  room_or_none-Keeps : (lo hi : ℕ) (r : Result Error (Room F)) → Keeps (Sent lo hi) (room_or_none r)
  unfolding room_or_none
  room_or_none-Keeps lo hi (ok r) = Keeps-pure _
  room_or_none-Keeps lo hi (err no_rows) = Keeps-pure _
  room_or_none-Keeps lo hi (err driver) = Keeps-raise _
  room_or_none-Keeps lo hi panic = Keeps-panics

  visit_room-Keeps : (lo hi id : ℕ) → Keeps (Sent lo hi) (visit_room others id)
  unfolding visit_room
  visit_room-Keeps lo hi id =
      Keeps-bind _ _ (Keeps-attempt _ (visit-Keeps others keep lo hi _ (room-Keeps id)))
        (room_or_none-Keeps lo hi)

  stream_found-Sent :
      (last_event : Option (Option ℕ)) (token : TokenRow) (found : Option (Room F))
      → Triple
          (Sent (after_event last_event) (after_event last_event))
          (λ _. SentSome (after_event last_event))
          (SentSome (after_event last_event))
          (stream_found others last_event token found)
  unfolding stream_found
  stream_found-Sent last_event token (some room) = stream_room-Sent last_event token room
  stream_found-Sent last_event token none = refused last_event _ refl

  stream_as-Sent :
      (last_event : Option (Option ℕ)) (id : ℕ) (found : Option TokenRow)
      → Triple
          (Sent (after_event last_event) (after_event last_event))
          (λ _. SentSome (after_event last_event))
          (SentSome (after_event last_event))
          (stream_as others last_event id found)
  unfolding stream_as
  stream_as-Sent last_event id none = refused last_event _ refl
  stream_as-Sent last_event id (some token) =
      let lo = after_event last_event in
      Triple-bind (λ _. Sent lo lo) _ _
        (Triple-of_Keeps (SentSome lo) _ (λ s p. (lo, p)) (visit_room-Keeps lo lo id))
        (λ found. stream_found-Sent last_event token found)

  open_stream-Sent :
      (csrf : String) (id : ℕ) (last_event : Option (Option ℕ))
      → Triple
          (Sent (after_event last_event) (after_event last_event))
          (λ _. SentSome (after_event last_event))
          (SentSome (after_event last_event))
          (open_stream others csrf id last_event)
  unfolding open_stream
  open_stream-Sent csrf id last_event =
      let lo = after_event last_event in
      keep-then others keep lo lo _ _ (token-Keeps csrf)
        (λ found. stream_as-Sent last_event id found)

  ended-Sent :
      (lo : ℕ) (r : Result Error (Unit {0})) (w : World (Session F))
      → Ends (λ _. SentSome lo) (SentSome lo) r w.tables
      → SentSome lo (ended others (r, w)).tables
  ended-Sent lo (ok u) w h = h
  ended-Sent lo panic w h = h
  ended-Sent lo (err e) w (hi, p) = (
    hi,
    record {
      unique = p.unique;
      rising =
          rw (sent_ids-append w.tables.out (error_answer ∷ []), append-nil (sent_ids w.tables.out))
            p.rising;
    },
  )

  -- Whatever other requests do beside a stream, as long as no two strokes get the same id, and
  -- whatever the driver answers: the ids of the strokes that a stream sends are above the number in
  -- Last-Event-ID (above 0 without it) and rise strictly, so that no stroke is sent twice.
  pub get_api_stream-Rising :
      (csrf : String) (id : Option ℕ) (last_event : Option (Option ℕ)) (w : World (Session F))
      → UniqueIds w.tables.tables
      → w.tables.out ≡ []
      → (hi : ℕ) × Rising
          (after_event last_event)
          (sent_ids (get_api_stream_rooms_id others csrf id last_event w).tables.out)
          hi
  unfolding get_api_stream_rooms_id
  get_api_stream-Rising csrf none last_event w u e = (after_event last_event, rw e (omega arith))
  get_api_stream-Rising csrf (some id) last_event w u e =
      let lo = after_event last_event in
      let start : Sent lo lo w.tables = record { unique = u; rising = rw e (omega arith) } in
      let (r, v) = open_stream others csrf id last_event w in
      let (hi, p) = ended-Sent lo r v ((open_stream-Sent csrf id last_event).at w start) in
      (hi, p.rising)
