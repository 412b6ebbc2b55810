-- ===== src/Bench/Resume/Once.antt =====
-- No stroke is heard twice, however often the event source has to connect again.
use isucon6_final.Common.{
  ℕ, ◌+◌, ◌≡◌, refl, sym, subst, ap, ◌∙◌, Bool, true, false, Option, some, List, [], ◌∷◌, ◌++◌,
  String, if◌then◌else◌, All, arith, Bool-cases, inl, inr,
}
use isucon6_final.Sql.Sorted.{Rising}
use isucon6_final.Webapp.Schema.{Stroke}
use isucon6_final.Webapp.Stream.{
  Frame, bad_request_event, first_count, watcher_event, stroke_event, error_answer,
}
use isucon6_final.Webapp.Stream.Sessions.{sent_ids}
use isucon6_final.Webapp.Stream.Rising.{get_api_stream-Rising}
use isucon6_final.Bench.Sse.{Bytes, EventSource, start_reading, read_lines}
use isucon6_final.Bench.Sse.Client.{
  no_answer, Client, SseError, bad_status_code, scan_error, emit_error, close_if, read_answer,
  send_header, last_event_header, handle_answer, open_loop, emit_end,
}
use isucon6_final.Bench.Sse.Frames.{IsPlain, five_hundred, stream_lines, heard_all}
use isucon6_final.Bench.Resume.Heard.{
  resume_id, HeardTo, HeardTo-none, HeardTo-append, broken-Heard,
}
use isucon6_final.Bench.Resume.{
  Turn, IsSound, last_event, written_frames, answer_of, exchange, exchanges,
}

module _ {F : Type 0} (parse_int : Bytes → Option ℕ) (number : ℕ → Bytes) (json : Stroke F → Bytes)
    (utf8 : String → Bytes) (atoi : Bytes → ℕ × Bool)
    (number-IsPlain : (n : ℕ) → IsPlain (number n))
    (json-IsPlain : (s : Stroke F) → IsPlain (json s))
    (utf8-IsPlain : (m : String) → IsPlain (utf8 m)) (reads_500 : (atoi five_hundred).1 ≡ false)
    (parse_int-number : (n : ℕ) → parse_int (number n) ≡ some n) where
  abbrev at_id : EventSource → ℕ
  at_id s = resume_id parse_int number json utf8 s

  abbrev Heard : EventSource → EventSource → List (Frame F) → Type 0
  Heard s t fs = HeardTo parse_int number json utf8 s t fs

  unheard : (s t : EventSource) → t ≡ s → Heard s t []
  unheard s t e = HeardTo-none parse_int number json utf8 s t (rw e refl) (rw e (omega arith))

  emit_end-source : (c : Client) → (emit_end c).source ≡ c.source
  emit_end-source c = ground arith

  -- A request without an answer.
  lost : (closes : Bool) (c : Client) → (handle_answer atoi closes no_answer c).source ≡ c.source
  unfolding handle_answer
  lost closes c = ground arith

  emit_error-source : (e : SseError) (c : Client) → (emit_error e c).source ≡ c.source
  emit_error-source e c = ground arith

  close_if-source : (closes : Bool) (c : Client) → (close_if closes c).source ≡ c.source
  close_if-source true c = refl
  close_if-source false c = refl

  read-source :
      (lines : List Bytes) (fails closes : Bool) (c : Client)
      → (let read = close_if closes (read_answer atoi lines c) in
          if fails then emit_error scan_error read else read).source
        ≡ (read_lines atoi lines (start_reading c.source)).source
  read-source lines true closes c =
      emit_error-source scan_error (close_if closes (read_answer atoi lines c))
      ∙ close_if-source closes (read_answer atoi lines c)
  read-source lines false closes c = close_if-source closes (read_answer atoi lines c)

  module _ (t : Turn F) (sound : IsSound t) where
    read-Heard :
        (fs : List (Frame F)) (c : Client) (hi : ℕ)
        → Rising (at_id c.source) (sent_ids fs) hi
        → (gs : List (Frame F)) × Heard c.source
            (let (lines, fails) = t.delivers (stream_lines number json utf8 fs) in
              let read = close_if t.closes (read_answer atoi lines c) in
              if fails then emit_error scan_error read else read).source
            gs
    read-Heard fs c hi h =
        let (lines, fails) = t.delivers (stream_lines number json utf8 fs) in
        let (n, some_lines) = sound.in_order (stream_lines number json utf8 fs) in
        let (gs, heard_some) =
          broken-Heard parse_int number json utf8 atoi number-IsPlain json-IsPlain utf8-IsPlain
            reads_500 parse_int-number n fs c.source hi h in
        (
          gs,
          subst (λ u. Heard c.source u gs)
              (sym (
                read-source lines fails t.closes c
                ∙ ap (λ ls. (read_lines atoi ls (start_reading c.source)).source) some_lines))
              heard_some,
        )

    -- What the event source makes of an answer of the application.
    handle_answer-Heard :
        (fs : List (Frame F)) (c : Client) (hi : ℕ)
        → Rising (at_id c.source) (sent_ids fs) hi
        → (gs : List (Frame F)) × Heard c.source
            (handle_answer atoi t.closes (answer_of number json utf8 t.delivers fs) c).source
            gs
    unfolding handle_answer
    handle_answer-Heard [] c hi h = read-Heard [] (send_header c) hi h
    handle_answer-Heard (error_answer ∷ fs) c hi h = (
      [],
      unheard c.source _ (
          emit_error-source (bad_status_code 500) (close_if t.closes (send_header c))
          ∙ close_if-source t.closes (send_header c)),
    )
    handle_answer-Heard (bad_request_event m ∷ fs) c hi h =
        read-Heard (bad_request_event m ∷ fs) (send_header c) hi h
    handle_answer-Heard (first_count n ∷ fs) c hi h =
        read-Heard (first_count n ∷ fs) (send_header c) hi h
    handle_answer-Heard (watcher_event n ∷ fs) c hi h =
        read-Heard (watcher_event n ∷ fs) (send_header c) hi h
    handle_answer-Heard (stroke_event s ∷ fs) c hi h =
        read-Heard (stroke_event s ∷ fs) (send_header c) hi h

  module _ (csrf : String) (room : ℕ) where
    -- The frames that one exchange brings.
    exchange-Heard :
        (t : Turn F) (c : Client)
        → IsSound t
        → (fs : List (Frame F)) × Heard c.source
            (handle_answer atoi
              (exchange parse_int csrf room number json utf8 t c.source).closes
              (exchange parse_int csrf room number json utf8 t c.source).answer
              c).source
            fs
    exchange-Heard t c sound = elim (Bool-cases t.reached) [
      | inl there ↦
          let out = written_frames parse_int csrf room t c.source in
          let (hi, rising) =
            get_api_stream-Rising t.others sound.stays_unique csrf (some room)
              (last_event parse_int (last_event_header c.source)) _ sound.unique refl in
          rw there (handle_answer-Heard t sound out c hi rising)
      | inr away ↦ ([], rw away (unheard c.source _ (lost t.closes c)))
    ]

    open_loop-Heard :
        (ts : List (Turn F)) (c : Client)
        → All IsSound ts
        → (fs : List (Frame F)) × Heard c.source
            (open_loop atoi (exchanges parse_int csrf room number json utf8 atoi ts c) c).source
            fs
    unfolding open_loop exchanges
    open_loop-Heard [] c sound = ([], unheard c.source c.source refl)
    open_loop-Heard (t ∷ ts) c sound =
        let x = exchange parse_int csrf room number json utf8 t c.source in
        let d = handle_answer atoi x.closes x.answer c in
        let (fs, first) = exchange-Heard t c sound.0 in
        let next : Client = record d { slept = d.slept + d.source.retry_wait } in
        let rest =
          open_loop atoi (exchanges parse_int csrf room number json utf8 atoi ts next) next in
        elim (Bool-cases d.is_closed) [
          | inl shut ↦ (
            fs,
            subst (λ u. Heard c.source u fs)
                (sym (ap (λ b. (if b then emit_end d else rest).source) shut ∙ emit_end-source d))
                first,
          )
          | inr running ↦
              let (gs, second) = open_loop-Heard ts next sound.1 in
              (
                fs ++ gs,
                subst (λ u. Heard c.source u (fs ++ gs))
                    (sym (ap (λ b. (if b then emit_end d else rest).source) running))
                    (HeardTo-append parse_int number json utf8 c.source d.source rest.source fs gs
                      first second),
              )
        ]

    -- Over any number of connections, requests that fail and answers that break off after any of
    -- their lines included: all that an event source hears from the application are the events of
    -- frames whose stroke ids rise strictly, so that it hears no stroke twice. It needs that no two
    -- strokes get the same id, that no answer breaks off within a line, that the texts of numbers,
    -- strokes and messages are neither empty nor begin with a space, that "500" is a number, that a
    -- number is read back from its text, and that the event source starts without a Last-Event-ID.
    pub strokes_heard_once :
        (ts : List (Turn F)) (c : Client)
        → c.source.last_event_id ≡ []
        → All IsSound ts
        → (fs : List (Frame F)) × ((open_loop atoi
              (exchanges parse_int csrf room number json utf8 atoi ts c)
              c).source.emitted
            ≡ (heard_all number json utf8 fs c.source).emitted)
          × ((hi : ℕ) × Rising 0 (sent_ids fs) hi)
    strokes_heard_once ts c e sound =
        let start : at_id c.source ≡ 0 = rw e refl in
        let (fs, h) = open_loop-Heard ts c sound in
        let last : EventSource =
          (open_loop atoi (exchanges parse_int csrf room number json utf8 atoi ts c) c).source in
        (
          fs,
          h.events,
          (at_id last, subst (λ lo. Rising lo (sent_ids fs) (at_id last)) start h.rising),
        )
