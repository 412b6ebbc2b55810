-- ===== src/Bench/Resume/Heard.antt =====
-- What an event source has heard of an answer that breaks off after some of its lines.
use isucon6_final.Common.{
  ℕ, zero, suc, ◌≤◌, ◌<◌, ◌≡◌, refl, sym, subst, ap, ◌∙◌, Bool, false, Option, some, List, [], ◌∷◌,
  ◌++◌, take, String, arith,
}
use isucon6_final.Sql.Sorted.{Rising}
use isucon6_final.Webapp.Schema.{Stroke}
use isucon6_final.Webapp.Stream.{
  Frame, bad_request_event, first_count, watcher_event, stroke_event, error_answer,
}
use isucon6_final.Webapp.Stream.Sessions.{sent_ids, sent_ids-append, after_event}
use isucon6_final.Bench.Sse.{Bytes, EventSource, start_reading, read_lines, read_line, blank_line}
use isucon6_final.Bench.Sse.Client.{last_event_header}
use isucon6_final.Bench.Sse.Frames.{
  IsPlain, trim_space-IsPlain, five_hundred, stream_lines, frame_lines, heard, heard_all,
  frame-first,
}
use isucon6_final.Bench.Resume.{last_event}

Rising-append :
    (lo m hi : ℕ) (is js : List ℕ) → Rising lo is m → Rising m js hi → Rising lo (is ++ js) hi
Rising-append lo m hi [] [] h k = omega (arith, h, k)
Rising-append lo m hi [] (j ∷ js) h k = (omega (arith, h, k.0), k.1)
Rising-append lo m hi (i ∷ is) js h k = (h.0, Rising-append i m hi is js h.1 k)

header-IsPlain :
    (s : EventSource) (v : Bytes)
    → IsPlain v
    → last_event_header (record s { last_event_id = v }) ≡ some v
header-IsPlain s [] p = absurd p
header-IsPlain s (c ∷ cs) p = refl

-- What is emitted does not depend on the other variables.
heard_all-emitted :
    {F : Type 0} (number : ℕ → Bytes) (json : Stroke F → Bytes) (utf8 : String → Bytes)
    (fs : List (Frame F)) (s t : EventSource)
    → s.emitted ≡ t.emitted
    → (heard_all number json utf8 fs s).emitted ≡ (heard_all number json utf8 fs t).emitted
unfolding heard_all heard
heard_all-emitted number json utf8 [] s t e = e
heard_all-emitted number json utf8 (bad_request_event m ∷ fs) s t e =
    heard_all-emitted number json utf8 fs _ _ (rw e refl)
heard_all-emitted number json utf8 (first_count n ∷ fs) s t e =
    heard_all-emitted number json utf8 fs _ _ (rw e refl)
heard_all-emitted number json utf8 (watcher_event n ∷ fs) s t e =
    heard_all-emitted number json utf8 fs _ _ (rw e refl)
heard_all-emitted number json utf8 (stroke_event u ∷ fs) s t e =
    heard_all-emitted number json utf8 fs _ _ (rw e refl)
heard_all-emitted number json utf8 (error_answer ∷ fs) s t e =
    heard_all-emitted number json utf8 fs s t e

heard_all-append :
    {F : Type 0} (number : ℕ → Bytes) (json : Stroke F → Bytes) (utf8 : String → Bytes)
    (fs gs : List (Frame F)) (s : EventSource)
    → heard_all number json utf8 (fs ++ gs) s
      ≡ heard_all number json utf8 gs (heard_all number json utf8 fs s)
unfolding heard_all
heard_all-append number json utf8 [] gs s = refl
heard_all-append number json utf8 (f ∷ fs) gs s =
    heard_all-append number json utf8 fs gs (heard number json utf8 f s)

module _ {F : Type 0} (parse_int : Bytes → Option ℕ) (number : ℕ → Bytes) (json : Stroke F → Bytes)
    (utf8 : String → Bytes) where
  -- The id after which the application goes on, for the next request of the event source.
  abbrev pub resume_id : EventSource → ℕ
  resume_id s = after_event (last_event parse_int (last_event_header s))

  -- From `s` to `t`, the events of the frames have been heard, and the next request goes on at or
  -- after the last of their strokes.
  pub record HeardTo (s t : EventSource) (fs : List (Frame F)) : Type 0 where
    pub events : t.emitted ≡ (heard_all number json utf8 fs s).emitted
    pub rising : Rising (resume_id s) (sent_ids fs) (resume_id t)

  pub HeardTo-none :
      (s t : EventSource) → t.emitted ≡ s.emitted → resume_id s ≤ resume_id t → HeardTo s t []
  unfolding heard_all
  HeardTo-none s t e h = record { events = e; rising = h }

  pub HeardTo-append :
      (s t u : EventSource) (fs gs : List (Frame F))
      → HeardTo s t fs
      → HeardTo t u gs
      → HeardTo s u (fs ++ gs)
  HeardTo-append s t u fs gs h k = record {
    events =
        k.events
        ∙ heard_all-emitted number json utf8 gs t (heard_all number json utf8 fs s) h.events
        ∙ ap (λ (v : EventSource). v.emitted) (sym (heard_all-append number json utf8 fs gs s));
    rising =
        subst (λ is. Rising (resume_id s) is (resume_id u)) (sym (sent_ids-append fs gs))
          (Rising-append (resume_id s) (resume_id t) (resume_id u) (sent_ids fs) (sent_ids gs)
            h.rising k.rising);
  }

module _ {F : Type 0} (parse_int : Bytes → Option ℕ) (number : ℕ → Bytes) (json : Stroke F → Bytes)
    (utf8 : String → Bytes) (atoi : Bytes → ℕ × Bool)
    (number-IsPlain : (n : ℕ) → IsPlain (number n))
    (json-IsPlain : (s : Stroke F) → IsPlain (json s))
    (utf8-IsPlain : (m : String) → IsPlain (utf8 m)) (reads_500 : (atoi five_hundred).1 ≡ false)
    (parse_int-number : (n : ℕ) → parse_int (number n) ≡ some n) where
  abbrev at_id : EventSource → ℕ
  at_id s = resume_id parse_int number json utf8 s

  abbrev Heard : EventSource → EventSource → List (Frame F) → Type 0
  Heard s t fs = HeardTo parse_int number json utf8 s t fs

  pub resume_id-number : (s : EventSource) (n : ℕ) → s.last_event_id ≡ number n → at_id s ≡ n
  resume_id-number s n e =
      rw (e, header-IsPlain s (number n) (number-IsPlain n), parse_int-number n) refl

  abbrev after : List Bytes → EventSource → EventSource
  after ls s = (read_lines atoi ls (start_reading s)).source

  -- A frame without an id that has been read whole.
  watched :
      (f : Frame F) (s u : EventSource) (fs : List (Frame F))
      → sent_ids (f ∷ []) ≡ []
      → at_id (heard number json utf8 f s) ≡ at_id s
      → Heard (heard number json utf8 f s) u fs
      → Heard s u (f ∷ fs)
  unfolding heard_all
  watched f s u fs none_sent same h =
      HeardTo-append parse_int number json utf8 s (heard number json utf8 f s) u (f ∷ []) fs
        (record { events = refl; rising = rw (none_sent, same) (omega arith) }) h

  -- A stroke whose id has been read, but not its event.
  only_id :
      (t : Stroke F) (s u : EventSource)
      → at_id s < t.row.id
      → u.emitted ≡ s.emitted
      → u.last_event_id ≡ number t.row.id
      → Heard s u []
  only_id t s u h e i =
      HeardTo-none parse_int number json utf8 s u e
        (let here = resume_id-number u t.row.id i in omega (arith, here, h))

  not_yet : (s : EventSource) → Heard s s []
  not_yet s = HeardTo-none parse_int number json utf8 s s refl (omega arith)

  one :
      (t : Stroke F) (s : EventSource)
      → at_id s < t.row.id
      → at_id (heard number json utf8 (stroke_event t) s) ≡ t.row.id
      → Heard s (heard number json utf8 (stroke_event t) s) (stroke_event t ∷ [])
  unfolding heard_all
  one t s h here = record { events = refl; rising = (h, omega (arith, here)) }

  -- A frame that has been read whole, before others.
  whole_frame :
      (f : Frame F) (ls : List Bytes) (s : EventSource) (fs : List (Frame F))
      → Heard s (after ls (heard number json utf8 f s)) fs
      → Heard s (after (frame_lines number json utf8 f ++ ls) s) fs
  whole_frame f ls s fs h =
      subst (λ r. Heard s r.source fs)
        (sym (
          frame-first number json utf8 atoi number-IsPlain json-IsPlain utf8-IsPlain reads_500 f ls
            s))
        h

  abbrev lines_of : List (Frame F) → List Bytes
  lines_of fs = stream_lines number json utf8 fs

  -- However many lines of an answer have been read, what was heard are the events of frames whose
  -- stroke ids rise, and the next request goes on at or after the last of them.
  pub broken-Heard :
      (n : ℕ) (fs : List (Frame F)) (s : EventSource) (hi : ℕ)
      → Rising (at_id s) (sent_ids fs) hi
      → (gs : List (Frame F)) × Heard s (after (take n (stream_lines number json utf8 fs)) s) gs
  unfolding stream_lines frame_lines read_lines read_line blank_line heard
  broken-Heard zero fs s hi h = ([], not_yet s)
  broken-Heard (suc n) [] s hi h = ([], not_yet s)
  broken-Heard (suc k) (error_answer ∷ fs) s hi h =
      let (gs, rest) = broken-Heard k fs s hi h in
      (gs, whole_frame error_answer (take k (lines_of fs)) s gs rest)
  broken-Heard (suc zero) (watcher_event m ∷ fs) s hi h = ([], not_yet s)
  broken-Heard (suc (suc zero)) (watcher_event m ∷ fs) s hi h = ([], not_yet s)
  broken-Heard (suc (suc (suc k))) (watcher_event m ∷ fs) s hi h =
      let f : Frame F = watcher_event m in
      let (gs, rest) = broken-Heard k fs (heard number json utf8 f s) hi h in
      (f ∷ gs, whole_frame f (take k (lines_of fs)) s (f ∷ gs) (watched f s _ gs refl refl rest))
  broken-Heard (suc zero) (bad_request_event m ∷ fs) s hi h = ([], not_yet s)
  broken-Heard (suc (suc zero)) (bad_request_event m ∷ fs) s hi h = ([], not_yet s)
  broken-Heard (suc (suc (suc k))) (bad_request_event m ∷ fs) s hi h =
      let f : Frame F = bad_request_event m in
      let (gs, rest) = broken-Heard k fs (heard number json utf8 f s) hi h in
      (f ∷ gs, whole_frame f (take k (lines_of fs)) s (f ∷ gs) (watched f s _ gs refl refl rest))
  broken-Heard (suc zero) (first_count m ∷ fs) s hi h = rw reads_500 ([], not_yet s)
  broken-Heard (suc (suc zero)) (first_count m ∷ fs) s hi h = rw reads_500 ([], not_yet s)
  broken-Heard (suc (suc (suc zero))) (first_count m ∷ fs) s hi h = rw reads_500 ([], not_yet s)
  broken-Heard (suc (suc (suc (suc zero)))) (first_count m ∷ fs) s hi h =
      rw reads_500 ([], not_yet s)
  broken-Heard (suc (suc (suc (suc (suc k))))) (first_count m ∷ fs) s hi h =
      let f : Frame F = first_count m in
      let (gs, rest) = broken-Heard k fs (heard number json utf8 f s) hi h in
      (f ∷ gs, whole_frame f (take k (lines_of fs)) s (f ∷ gs) (watched f s _ gs refl refl rest))
  broken-Heard (suc zero) (stroke_event t ∷ fs) s hi h =
      ([], only_id t s _ h.0 refl (trim_space-IsPlain _ (number-IsPlain t.row.id)))
  broken-Heard (suc (suc zero)) (stroke_event t ∷ fs) s hi h =
      ([], only_id t s _ h.0 refl (trim_space-IsPlain _ (number-IsPlain t.row.id)))
  broken-Heard (suc (suc (suc zero))) (stroke_event t ∷ fs) s hi h =
      ([], only_id t s _ h.0 refl (trim_space-IsPlain _ (number-IsPlain t.row.id)))
  broken-Heard (suc (suc (suc (suc zero)))) (stroke_event t ∷ fs) s hi h =
      ([], only_id t s _ h.0 refl (trim_space-IsPlain _ (number-IsPlain t.row.id)))
  broken-Heard (suc (suc (suc (suc (suc k))))) (stroke_event t ∷ fs) s hi h =
      let f : Frame F = stroke_event t in
      let u = heard number json utf8 f s in
      let here : at_id u ≡ t.row.id = resume_id-number u t.row.id refl in
      let (gs, rest) =
        broken-Heard k fs u hi (subst (λ i. Rising i (sent_ids fs) hi) (sym here) h.1) in
      (
        f ∷ gs,
        whole_frame f (take k (lines_of fs)) s (f ∷ gs)
            (HeardTo-append parse_int number json utf8 s u _ (f ∷ []) gs (one t s h.0 here) rest),
      )
