-- ===== src/Bench/Scenario/Ends.antt =====
-- Scenarios that do not panic, with what is known of their values.
use isucon6_final.Common.{
  ℕ, zero, suc, ◌<◌, ◌≡◌, refl, Bool, true, false, Option, none, some, List, [], ◌∷◌, String, ◌==◌,
  get_elem?, length, Bool-cases, inl, inr, arith, if◌then◌else◌,
}
use isucon6_final.Webapp.Schema.{PostedStroke}
use isucon6_final.Bench.Fails.{Tally}
use isucon6_final.Bench.Action.{ok_checker}
use isucon6_final.Bench.Scenario.{
  Body, Session, Call, Env, Run, Scenario, pure, elem_at, report, fails_critical, when_some,
  required, critical_if, continue, ◌>>=◌, Check, decided, rand_int, time_now, is_over, fluctuate,
  fetch, submit, prefix_of, page,
}
use isucon6_final.Bench.Scenario.Grown.{
  Grown, Grown-refl, Grown-trans, Grown-critical, get-Grown, post-Grown,
}

-- `m` ends with a value that satisfies `Q`, and what is counted has grown.
pub record Ends {S A : Type 0} (Q : A → Type 0) (m : Scenario S A) : Type 0 where
  pub at : (r : Run S) → (a : A) × ((m r).0 ≡ some a) × Q a × Grown r.tally (m r).1.tally

abbrev pub Any : {A : Type 0} → A → Type 0
Any a = Unit

-- A value satisfies `Q`, if there is one.
abbrev pub If : {A : Type 0} → (A → Type 0) → Option A → Type 0
If Q none = Unit
If Q (some a) = Q a

module _ {A : Type 0} where
  get_elem?-some : (xs : List A) (i : ℕ) → i < length xs → (a : A) × (get_elem? xs i ≡ some a)
  get_elem?-some [] i h = absurd (omega (arith, h))
  get_elem?-some (x ∷ xs) zero h = (x, refl)
  get_elem?-some (x ∷ xs) (suc i) h = get_elem?-some xs i (omega (arith, h))

module _ {S A : Type 0} where
  pub Ends-pure : (Q : A → Type 0) (a : A) → Q a → Ends {S = S} Q (pure a)
  unfolding pure
  Ends-pure Q a q = record { at = λ r. (a, refl, q, Grown-refl r.tally) }

  pub Ends-elem_at : (xs : List A) (i : ℕ) → i < length xs → Ends {S = S} Any (elem_at xs i)
  unfolding elem_at
  Ends-elem_at xs i h = record {
    at = λ r. let (a, e) = get_elem?-some xs i h in (a, e, tt, Grown-refl r.tally);
  }

  pub Ends-if :
      (b : Bool) (x y : Scenario S A) → Ends Any x → Ends Any y → Ends Any (if b then x else y)
  Ends-if true x y h k = h
  Ends-if false x y h k = k

  pub Ends-weaken :
      (P Q : A → Type 0) (m : Scenario S A) → ((a : A) → P a → Q a) → Ends P m → Ends Q m
  Ends-weaken P Q m h k = record { at = λ r. let (a, e, p, g) = k.at r in (a, e, h a p, g) }

module _ {S : Type 0} where
  pub Ends-fails_critical : (m : String) → Ends {S = S} Any (fails_critical m)
  unfolding fails_critical report
  Ends-fails_critical m = record { at = λ r. (tt, refl, tt, Grown-critical m r.tally) }

  pub Ends-critical_if : (b : Bool) (m : String) → Ends {S = S} Any (critical_if b m)
  Ends-critical_if true m = Ends-fails_critical m
  Ends-critical_if false m = Ends-pure Any tt tt

module _ {S A B : Type 0} (Q : A → Type 0) (R : B → Type 0) where
  pub Ends-bind :
      (m : Scenario S A) (f : A → Scenario S B)
      → Ends Q m
      → ((a : A) → Q a → Ends R (f a))
      → Ends R (m >>= f)
  unfolding ◌>>=◌
  Ends-bind m f k h = record { at = λ r. one r (k.at r) }
    where
      one :
          (r : Run S)
          → ((a : A) × ((m r).0 ≡ some a) × Q a × Grown r.tally (m r).1.tally)
          → (b : B) × ((continue (m r).0 f (m r).1).0 ≡ some b)
            × R b
            × Grown r.tally (continue (m r).0 f (m r).1).1.tally
      one r (a, e, q, g) =
          let (b, d, p, more) = (h a q).at (m r).1 in rw e (b, d, p, Grown-trans _ _ _ g more)

module _ {S A : Type 0} (Q : A → Type 0) where
  pub Ends-when_some :
      (o : Option A) (f : A → Scenario S (Unit {0}))
      → If Q o
      → ((a : A) → Q a → Ends Any (f a))
      → Ends Any (when_some o f)
  Ends-when_some none f h k = Ends-pure Any tt tt
  Ends-when_some (some a) f h k = k a h

  pub Ends-required :
      (m : String) (o : Option A) (f : A → Scenario S (Unit {0}))
      → If Q o
      → ((a : A) → Q a → Ends Any (f a))
      → Ends Any (required m o f)
  Ends-required m none f h k = Ends-fails_critical m
  Ends-required m (some a) f h k = k a h

-- A check whose value satisfies `Q` adds to what is counted.
pub record Checks {F A : Type 0} (Q : A → Type 0) (c : Check F A) : Type 0 where
  pub at :
      (b : Body F) (prefix : String) (s : Tally) → If Q (c b prefix s).0 × Grown s (c b prefix s).1

module _ {S F : Type 0} (e : Env S F) where
  -- rand.Intn(n) is below n.
  abbrev pub Below : Type 0
  Below = (k n : ℕ) → 0 < n → e.intn k n < n

  pub Ends-rand_int : Below → (n : ℕ) → 0 < n → Ends (λ i. i < n) (rand_int e n)
  unfolding rand_int
  Ends-rand_int below n h = elim (Bool-cases (n == 0)) [
    | inl e ↦ absurd (ground (arith, e))
    | inr e ↦ record { at = λ r. rw e (_, refl, below r.draws n h, Grown-refl r.tally) }
  ]

  pub Ends-time_now : Ends Any (time_now e)
  unfolding time_now
  Ends-time_now = record { at = λ r. (e.now r.site, refl, tt, Grown-refl r.tally) }

  pub Ends-is_over : Ends Any (is_over e)
  unfolding is_over
  Ends-is_over = record { at = λ r. (e.ended r.site, refl, tt, Grown-refl r.tally) }

  pub Ends-fluctuate : (s : PostedStroke F) → Ends Any (fluctuate e s)
  unfolding fluctuate
  Ends-fluctuate s = record { at = λ r. (_, refl, tt, Grown-refl r.tally) }

  module _ {A : Type 0} (Q : A → Type 0) where
    kept : (b : Bool) (o : Option A) → If Q o → If Q (if b then o else none)
    kept true o h = h
    kept false o h = tt

    pub Ends-fetch :
        (s : Session) (path : String) (c : Check F A) → Checks Q c → Ends (If Q) (fetch e s path c)
    unfolding fetch
    Ends-fetch s path c k = record {
      at = λ r.
          let (ans, site) = e.respond (page s path) r.site in
          (
            _,
            refl,
            kept _ _ (k.at ans.body (prefix_of e "GET" path) r.tally).0,
            get-Grown e.itoa (ok_checker (λ p u. decided (c ans.body p u)))
                (λ p u. (k.at ans.body p u).1) path ans.outcome r.tally,
          );
    }

    pub Ends-submit :
        (code : ℕ) (path : String) (call : Call F) (c : Check F A)
        → Checks Q c
        → Ends
            (If Q)
            (submit e (λ f. record { expected_status = code; check_func = f }) path call c)
    unfolding submit
    Ends-submit code path call c k = record {
      at = λ r.
          let (ans, site) = e.respond call r.site in
          (
            _,
            refl,
            kept _ _ (k.at ans.body (prefix_of e "POST" path) r.tally).0,
            post-Grown e.itoa
                (record { expected_status = code; check_func = λ p u. decided (c ans.body p u) })
                (λ p u. (k.at ans.body p u).1) path ans.outcome r.tally,
          );
    }
