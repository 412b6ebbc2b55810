-- ===== src/Bench/Sse/Client.antt =====
-- The requests of the benchmarker's event source (Open, request, On, OnError, OnEnd and Close of
-- bench/sse/eventsource.go). What the server and the network do is a list with one entry for each
-- coming request; whether Close is called while a request runs is part of it.
use isucon6_final.Common.{
  ℕ, ◌+◌, ◌≡◌, refl, ap, ◌∙◌, Bool, true, false, ◌&&◌, ◌||◌, not, Option, none, some, List, [], ◌∷◌,
  ◌++◌, ◌==◌, if◌then◌else◌, arith, Bool-cases, inl, inr,
}
use isucon6_final.Bench.Sse.{Bytes, bytes_eq, EventSource, start_reading, read_lines}

-- http.NewRequest fails, client.Do fails, or there is an answer: its status, whether its type begins
-- with text/event-stream, its lines, and whether the scanner ends with an error.
pub data Answer : Type 0 where
  bad_url : Answer
  no_answer : Answer
  answered : ℕ → Bool → List Bytes → Bool → Answer

pub record Exchange : Type 0 where
  pub answer : Answer
  pub closes : Bool

pub data SseError : Type 0 where
  request_error do_error scan_error : SseError
  bad_status_code : ℕ → SseError
  bad_content_type : SseError

-- `listened` are the events that have listeners, with their number; `requested` are the values of
-- Last-Event-ID that were sent, `none` for no header; `errors` are the calls of the error listener,
-- `ends` counts those of the end listener; `slept` is the time between the requests.
pub record Client : Type 0 where
  pub source : EventSource
  pub listened : List (Bytes × ℕ)
  pub has_err_listener : Bool
  pub has_end_listener : Bool
  pub is_closed : Bool
  pub requested : List (Option Bytes)
  pub errors : List SseError
  pub ends : ℕ
  pub slept : ℕ

-- NewEventSource
abbrev pub new_event_source : Client
new_event_source = record {
  source = record { last_event_id = []; retry_wait = 1000; emitted = [] };
  listened = [];
  has_err_listener = false;
  has_end_listener = false;
  is_closed = false;
  requested = [];
  errors = [];
  ends = 0;
  slept = 0;
}

abbrev pub add_listener : Bytes → List (Bytes × ℕ) → List (Bytes × ℕ)
add_listener event [] = (event, 1) ∷ []
add_listener event ((e, n) ∷ rest) =
    let more = add_listener event rest in
    if bytes_eq e event then (e, n + 1) ∷ rest else (e, n) ∷ more

abbrev pub on : Bytes → Client → Client
on event c = record c { listened = add_listener event c.listened }

abbrev pub on_error : Client → Client
on_error c = record c { has_err_listener = true }

abbrev pub on_end : Client → Client
on_end c = record c { has_end_listener = true }

abbrev pub close : Client → Client
close c = record c { is_closed = true }

abbrev pub emit_error : SseError → Client → Client
emit_error e c =
    if c.has_err_listener && not c.is_closed then record c { errors = c.errors ++ e ∷ [] } else c

abbrev pub emit_end : Client → Client
emit_end c = if c.has_end_listener then record c { ends = c.ends + 1 } else c

abbrev pub close_if : Bool → Client → Client
close_if closes c = if closes then close c else c

-- The header of a request.
abbrev pub last_event_header : EventSource → Option Bytes
last_event_header s = if bytes_eq s.last_event_id [] then none else some s.last_event_id

abbrev pub send_header : Client → Client
send_header c = record c { requested = c.requested ++ last_event_header c.source ∷ [] }

module _ (atoi : Bytes → ℕ × Bool) where
  abbrev pub read_answer : List Bytes → Client → Client
  read_answer lines c = record c {
    source = (read_lines atoi lines (start_reading c.source)).source;
  }

  -- The checks of `request` on an answer, in their order.
  unfoldable pub handle_answer : Bool → Answer → Client → Client
  handle_answer closes bad_url c = emit_error request_error (close_if closes c)
  handle_answer closes no_answer c = emit_error do_error (close_if closes (send_header c))
  handle_answer closes (answered status is_stream lines fails) c =
      let sent = send_header c in
      if not (status == 200)
      then emit_error (bad_status_code status) (close_if closes sent)
      else if not is_stream
      then emit_error bad_content_type (close_if closes sent)
      else let read = close_if closes (read_answer lines sent) in
        if fails then emit_error scan_error read else read

  -- The loop of `Open`, over what happens to its requests; the list may end while it still runs.
  unfoldable pub open_loop : List Exchange → Client → Client
  open_loop [] c = c
  open_loop (x ∷ xs) c =
      let d = handle_answer x.closes x.answer c in
      let rest = open_loop xs (record d { slept = d.slept + d.source.retry_wait }) in
      if d.is_closed then emit_end d else rest

-- Some request during which Close is called.
abbrev pub some_closes : List Exchange → Bool
some_closes [] = false
some_closes (x ∷ xs) = x.closes || some_closes xs

module _ (atoi : Bytes → ℕ × Bool) where
  handle_answer-is_closed :
      (closes : Bool) (a : Answer) (c : Client)
      → (handle_answer atoi closes a c).is_closed ≡ (closes || c.is_closed)
  unfolding handle_answer
  handle_answer-is_closed closes bad_url c = ground arith
  handle_answer-is_closed closes no_answer c = ground arith
  handle_answer-is_closed closes (answered status is_stream lines fails) c = ground arith

  handle_answer-listener :
      (closes : Bool) (a : Answer) (c : Client)
      → ((handle_answer atoi closes a c).has_end_listener ≡ c.has_end_listener)
        × ((handle_answer atoi closes a c).ends ≡ c.ends)
  unfolding handle_answer
  handle_answer-listener closes bad_url c = ground arith
  handle_answer-listener closes no_answer c = ground arith
  handle_answer-listener closes (answered status is_stream lines fails) c = ground arith

  -- Whatever the server answers, an event source that is opened with an end listener calls it once
  -- if Close is called during one of its requests, and not at all before that.
  pub open_loop-ends :
      (xs : List Exchange) (c : Client)
      → c.is_closed ≡ false
      → c.has_end_listener ≡ true
      → (open_loop atoi xs c).ends ≡ (if some_closes xs then c.ends + 1 else c.ends)
  unfolding open_loop
  open_loop-ends [] c h k = refl
  open_loop-ends (x ∷ xs) c h k =
      let d = handle_answer atoi x.closes x.answer c in
      let closed = handle_answer-is_closed x.closes x.answer c in
      let (listener, ends) = handle_answer-listener x.closes x.answer c in
      elim (Bool-cases x.closes) [
        | inl e ↦
            let shut : d.is_closed ≡ true = ground arith in
            let heard : d.has_end_listener ≡ true = listener ∙ k in rw (shut, heard, ends, e) refl
        | inr e ↦
            let running : d.is_closed ≡ false = ground arith in
            let next = record d { slept = d.slept + d.source.retry_wait } in
            let counted : (if some_closes xs then d.ends + 1 else d.ends)
                ≡ (if x.closes || some_closes xs then c.ends + 1 else c.ends) =
              rw (ends, e) refl in
            ap (λ b. (if b then emit_end d else open_loop atoi xs next).ends) running
            ∙ open_loop-ends xs next running (listener ∙ k)
            ∙ counted
      ]
