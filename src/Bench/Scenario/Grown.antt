-- ===== src/Bench/Scenario/Grown.antt =====
-- What the benchmarker counts only grows: no message is lost, a critical failure stays, and the score
-- does not fall.
use isucon6_final.Common.{
  ℕ, ◌≤◌, ◌≡◌, refl, sym, ap, ◌∙◌, Bool, true, false, List, [], ◌∷◌, ◌++◌, append-nil, append_assoc,
  String, ◌==◌, Bool-cases, inl, inr, arith,
}
use isucon6_final.Bench.Fails.{Tally, add, critical, logger_add, logger_critical, increment}
use isucon6_final.Bench.Action.{
  Outcome, bad_url, bad_request, timed_out, failed, responded, StatusChecker, check_status, request,
  reward, get, post,
}

pub record Grown (s t : Tally) : Type 0 where
  pub messages : (more : List String) × (t.msgs ≡ s.msgs ++ more)
  pub critical : s.is_critical ≡ true → t.is_critical ≡ true
  pub score : s.score ≤ t.score

pub Grown-refl : (s : Tally) → Grown s s
Grown-refl s = record {
  messages = ([], sym (append-nil s.msgs));
  critical = λ h. h;
  score = omega arith;
}

pub Grown-trans : (s t u : Tally) → Grown s t → Grown t u → Grown s u
Grown-trans s t u h k = record {
  messages =
      let (first, e) = h.messages in
      let (second, d) = k.messages in
      (first ++ second, d ∙ ap (λ ms. ms ++ second) e ∙ append_assoc s.msgs first second);
  critical = λ c. k.critical (h.critical c);
  score = omega (arith, h.score, k.score);
}

pub Grown-add : (m : String) (s : Tally) → Grown s (add m s)
Grown-add m s = record { messages = (m ∷ [], refl); critical = λ h. h; score = omega arith }

pub Grown-critical : (m : String) (s : Tally) → Grown s (critical m s)
unfolding critical
Grown-critical m s = record { messages = (_, refl); critical = λ h. refl; score = omega arith }

pub Grown-logger_add : (prefix m : String) (s : Tally) → Grown s (logger_add prefix m s)
unfolding logger_add
Grown-logger_add prefix m s = Grown-add _ s

pub Grown-logger_critical : (prefix m : String) (s : Tally) → Grown s (logger_critical prefix m s)
unfolding logger_critical
Grown-logger_critical prefix m s = Grown-critical m s

pub Grown-increment : (n : ℕ) (s : Tally) → Grown s (increment n s)
Grown-increment n s = record {
  messages = ([], sym (append-nil s.msgs));
  critical = λ h. h;
  score = omega arith;
}

pub ruleset grown_rules =
    (Grown-refl, Grown-add, Grown-critical, Grown-logger_add, Grown-logger_critical)

module _ (itoa : ℕ → String) (c : StatusChecker)
    (k : (prefix : String) (s : Tally) → Grown s (c.check_func prefix s).1) where
  request-Grown :
      (method path : String) (outcome : Outcome) (s : Tally)
      → Grown s (request itoa method path outcome c s).1
  unfolding request check_status
  request-Grown method path bad_url s = search grown_rules
  request-Grown method path bad_request s = search grown_rules
  request-Grown method path timed_out s = search grown_rules
  request-Grown method path failed s = search grown_rules
  request-Grown method path (responded status) s = elim (Bool-cases (status == c.expected_status)) [
    | inl e ↦ rw e (k _ s)
    | inr e ↦ rw e (Grown-logger_add _ _ s)
  ]

  reward-Grown :
      (point : ℕ) (s : Tally) (r : Bool × Tally) → Grown s r.1 → Grown s (reward itoa point r).1
  reward-Grown point s (true, t) h = Grown-trans s t _ h (Grown-increment point t)
  reward-Grown point s (false, t) h = h

  -- A request adds to what is counted, if the check of its body does.
  pub get-Grown :
      (path : String) (outcome : Outcome) (s : Tally) → Grown s (get itoa path outcome c s).1
  unfolding get
  get-Grown path outcome s = reward-Grown _ s _ (request-Grown "GET" path outcome s)

  pub post-Grown :
      (path : String) (outcome : Outcome) (s : Tally) → Grown s (post itoa path outcome c s).1
  unfolding post
  post-Grown path outcome s = reward-Grown _ s _ (request-Grown "POST" path outcome s)
