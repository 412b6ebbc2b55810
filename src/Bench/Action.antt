-- ===== src/Bench/Action.antt =====
-- The requests of the benchmarker (bench/action/action.go). What the URL parser, the HTTP client and
-- the network make of a request is a parameter, and so is the function that checks a body; `itoa`
-- writes a number.
mod Tests
use isucon6_final.Common.{
  ℕ, ◌+◌, ◌≡◌, refl, ap, Bool-cases, inl, inr, Bool, true, false, not, List, [], ◌∷◌, String, ◌==◌,
  text_append, if◌then◌else◌, arith,
}
use isucon6_final.Bench.Fails.{Tally, logger_add, logger_critical, increment, add, critical}

abbrev pub get_score : ℕ
get_score = 1

abbrev pub post_score : ℕ
post_score = 20

-- url.Parse or http.NewRequest fails, client.Do times out or fails otherwise, or there is a response
-- with its status.
pub data Outcome : Type 0 where
  bad_url bad_request timed_out failed : Outcome
  responded : ℕ → Outcome

-- `check_func` reads the body of the response, and reports to a logger with the prefix.
pub record StatusChecker : Type 0 where
  pub expected_status : ℕ
  pub check_func : String → Tally → Bool × Tally

abbrev pub ok_checker : (String → Tally → Bool × Tally) → StatusChecker
ok_checker f = record { expected_status = 200; check_func = f }

abbrev pub bad_request_checker : (String → Tally → Bool × Tally) → StatusChecker
bad_request_checker f = record { expected_status = 400; check_func = f }

module _ (itoa : ℕ → String) where
  unfoldable pub check_status : StatusChecker → ℕ → String → Tally → Bool × Tally
  check_status c status prefix s =
      if not (status == c.expected_status)
      then (
        false,
        logger_add prefix
            (text_append ("ステータスが" ∷ itoa c.expected_status ∷ "ではありません: " ∷ itoa status ∷ [])) s,
      )
      else (true, s)

  abbrev pub check_body : StatusChecker → String → Bool × Tally → Bool × Tally
  check_body c prefix (false, s) = (false, s)
  check_body c prefix (true, s) = c.check_func prefix s

  unfoldable pub request : String → String → Outcome → StatusChecker → Tally → Bool × Tally
  request method path outcome c s = go outcome
    where
      prefix : String
      prefix = text_append ("[" ∷ method ∷ " " ∷ path ∷ "] " ∷ [])

      go : Outcome → Bool × Tally
      go bad_url = (false, logger_critical prefix "予期せぬエラー（主催者に連絡してください）" s)
      go bad_request = (false, logger_critical prefix "予期せぬ失敗です (主催者に連絡してください)" s)
      go timed_out = (false, logger_add prefix "リクエストがタイムアウトしました" s)
      go failed = (false, logger_add prefix "リクエストが失敗しました" s)
      go (responded status) = check_body c prefix (check_status c status prefix s)

  abbrev pub reward : ℕ → Bool × Tally → Bool × Tally
  reward point (true, s) = (true, increment point s)
  reward point (false, s) = (false, s)

  unfoldable pub get : String → Outcome → StatusChecker → Tally → Bool × Tally
  get path outcome c s = reward get_score (request "GET" path outcome c s)

  unfoldable pub post : String → Outcome → StatusChecker → Tally → Bool × Tally
  post path outcome c s = reward post_score (request "POST" path outcome c s)

  request-score :
      (method path : String) (outcome : Outcome) (c : StatusChecker) (s : Tally)
      → ((prefix : String) (t : Tally) → (c.check_func prefix t).1.score ≡ t.score)
      → (request method path outcome c s).1.score ≡ s.score
  unfolding request check_status logger_add logger_critical critical
  request-score method path bad_url c s h = refl
  request-score method path bad_request c s h = refl
  request-score method path timed_out c s h = refl
  request-score method path failed c s h = refl
  request-score method path (responded status) c s h =
      elim (Bool-cases (status == c.expected_status)) [ inl e ↦ rw e (h _ s) | inr e ↦ rw e refl ]

  reward-score :
      (point n : ℕ) (r : Bool × Tally)
      → r.1.score ≡ n
      → (reward point r).1.score ≡ (if (reward point r).0 then n + point else n)
  reward-score point n (true, s) h = ap (λ k. k + point) h
  reward-score point n (false, s) h = h

  -- If the check of a body does not touch the score, a GET adds 1 to it and a POST 20 exactly when
  -- they return true, whatever becomes of the request.
  pub get-post-score :
      (path : String) (outcome : Outcome) (c : StatusChecker) (s : Tally)
      → ((prefix : String) (t : Tally) → (c.check_func prefix t).1.score ≡ t.score)
      → ((get path outcome c s).1.score
          ≡ (if (get path outcome c s).0 then s.score + 1 else s.score))
        × ((post path outcome c s).1.score
            ≡ (if (post path outcome c s).0 then s.score + 20 else s.score))
  unfolding get post
  get-post-score path outcome c s h = (
    reward-score 1 s.score _ (request-score "GET" path outcome c s h),
    reward-score 20 s.score _ (request-score "POST" path outcome c s h),
  )
