-- ===== src/Portal/Queue/Spec/Fifo.antt =====
-- The order in which jobs are handed out.
use isucon6_final.Common.{◌≡◌, sym, ap, ◌∙◌, List, [], ◌∷◌, ◌++◌, append_assoc, append-nil}
use isucon6_final.Portal.Schema.{Tables}
use isucon6_final.Portal.Queue.Invariant.{IsValid}
use isucon6_final.Portal.Queue.Spec.{
  Ticket, Spec, Event, queued, handed, finished, nothing, Allowed, queue, hand, finish, stay, view,
}
use isucon6_final.Portal.Queue.Spec.Refinement.{Call, run, AllAllowed, run_refines}

abbrev pub queued_tickets : List Event → List Ticket
queued_tickets [] = []
queued_tickets (queued t ∷ es) = t ∷ queued_tickets es
queued_tickets (handed t ∷ es) = queued_tickets es
queued_tickets (finished t n ∷ es) = queued_tickets es
queued_tickets (nothing ∷ es) = queued_tickets es

abbrev pub handed_tickets : List Event → List Ticket
handed_tickets [] = []
handed_tickets (queued t ∷ es) = handed_tickets es
handed_tickets (handed t ∷ es) = t ∷ handed_tickets es
handed_tickets (finished t n ∷ es) = handed_tickets es
handed_tickets (nothing ∷ es) = handed_tickets es

-- One step of the queue, and a line that is kept after it.
step_in_order :
    (s u : Spec) (e : Event) (es : List Event) (last : List Ticket)
    → Allowed s e u
    → u.waiting ++ queued_tickets es ≡ handed_tickets es ++ last
    → s.waiting ++ queued_tickets (e ∷ es) ≡ handed_tickets (e ∷ es) ++ last
step_in_order s u e es last (queue t idle) h =
    sym (append_assoc s.waiting (t ∷ []) (queued_tickets es)) ∙ h
step_in_order s u e es last (hand t rest line) h = rw line (ap (λ ts. t ∷ ts) h)
step_in_order s u e es last (finish t score one) h = h
step_in_order s u e es last stay h = h

in_order :
    (s u : Spec) (es : List Event)
    → AllAllowed s es u
    → s.waiting ++ queued_tickets es ≡ handed_tickets es ++ u.waiting
in_order s u [] e = append-nil s.waiting ∙ ap (λ (x : Spec). x.waiting) e
in_order s u (e ∷ es) (v, step, rest) = step_in_order s v e es u.waiting step (in_order v u es rest)

-- First in, first out: over any sequence of requests from valid tables, the jobs that waited and
-- then those that were queued are, in this order, the jobs that were handed out and then those that
-- still wait.
pub run-in_order :
    (cs : List Call) (t : Tables)
    → IsValid t
    → (view t).waiting ++ queued_tickets (run cs t).0
      ≡ handed_tickets (run cs t).0 ++ (view (run cs t).1).waiting
run-in_order cs t v = in_order (view t) (view (run cs t).1) (run cs t).0 (run_refines cs t v)
