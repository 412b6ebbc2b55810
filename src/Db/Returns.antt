-- ===== src/Db/Returns.antt =====
-- Invariants with a postcondition: what an action returns, when it returns, satisfies a predicate.
use isucon6_final.Common.{ℕ, ◌≡◌, refl, Bool, true, false, List, [], ◌∷◌, if◌then◌else◌}
use isucon6_final.Db.{
  World, Result, ok, err, panic, Db, pure, raise, panics, query, must_in_tx, must_begin, in_tx,
  attempt, attempted, answer, continue, ◌>>=◌,
}
use isucon6_final.Db.Keeps.{Keeps}

-- The predicate at the value that is returned; an error and a panic satisfy it.
abbrev pub Post : {E A : Type 0} → (A → Type 0) → Result E A → Type 0
Post Q (ok a) = Q a
Post Q (err e) = Unit
Post Q panic = Unit

-- `m` keeps `P` of the tables, and what it returns satisfies `Q`.
pub record Returns {T E A : Type 0} (P : T → Type 0) (Q : A → Type 0) (m : Db T E A) : Type 0 where
  pub at : (w : World T) → P w.tables → P (m w).1.tables × Post Q (m w).0

module _ {T E A : Type 0} {P : T → Type 0} {Q : A → Type 0} where
  pub Returns-pure : (a : A) → Q a → Returns P Q (pure {E = E} a)
  unfolding pure
  Returns-pure a q = record { at = λ w h. (h, q) }

  pub Returns-raise : (e : E) → Returns P Q (raise e)
  unfolding raise
  Returns-raise e = record { at = λ w h. (h, tt) }

  pub Returns-panics : Returns {E = E} P Q panics
  unfolding panics
  Returns-panics = record { at = λ w h. (h, tt) }

  pub Returns-query :
      (e : E) (g : T → ℕ → A) → ((t : T) (n : ℕ) → P t → Q (g t n)) → Returns P Q (query e g)
  unfolding query
  Returns-query e g k = record { at = λ w. one w w.faults }
    where
      one :
          (w : World T) (faults : List Bool)
          → P w.tables
          → let (r, u) =
              answer {E = E} (err e) (λ (v : World T). (g v.tables v.now, v.tables)) w faults in
            P u.tables × Post Q r
      one w [] h = (h, k w.tables w.now h)
      one w (true ∷ rest) h = (h, tt)
      one w (false ∷ rest) h = (h, k w.tables w.now h)

  pub Returns-if :
      (b : Bool) (m n : Db T E A)
      → (b ≡ true → Returns P Q m)
      → (b ≡ false → Returns P Q n)
      → Returns P Q (if b then m else n)
  Returns-if true m n km kn = km refl
  Returns-if false m n km kn = kn refl

module _ {T E A B : Type 0} (P : T → Type 0) (Q : A → Type 0) (R : B → Type 0)
    (f : A → Db T E B) where
  after_keeps :
      ((a : A) → Q a → Keeps P (f a))
      → (r : Result E A) (w : World T) → P w.tables
      → Post Q r
      → P (continue r f w).1.tables
  after_keeps k (ok a) w h q = (k a q).at w h
  after_keeps k (err e) w h q = h
  after_keeps k panic w h q = h

  after-Returns :
      ((a : A) → Q a → Returns P R (f a))
      → (r : Result E A) (w : World T) → P w.tables
      → Post Q r
      → P (continue r f w).1.tables × Post R (continue r f w).0
  after-Returns k (ok a) w h q = (k a q).at w h
  after-Returns k (err e) w h q = (h, tt)
  after-Returns k panic w h q = (h, tt)

module _ {T E A B : Type 0} {P : T → Type 0} (Q : A → Type 0) where
  pub Keeps-Returns-bind :
      (m : Db T E A) (f : A → Db T E B)
      → Returns P Q m
      → ((a : A) → Q a → Keeps P (f a))
      → Keeps P (m >>= f)
  unfolding ◌>>=◌
  Keeps-Returns-bind m f km kf = record {
    at = λ w h.
        let (r, u) = m w in
        let (kept, q) = km.at w h in after_keeps P Q (λ _. Unit) f kf r u kept q;
  }

  pub Returns-bind :
      {R : B → Type 0} (m : Db T E A) (f : A → Db T E B)
      → Returns P Q m
      → ((a : A) → Q a → Returns P R (f a))
      → Returns P R (m >>= f)
  unfolding ◌>>=◌
  Returns-bind {R} m f km kf = record {
    at =
        λ w h. let (r, u) = m w in let (kept, q) = km.at w h in after-Returns P Q R f kf r u kept q;
  }

module _ {T E A : Type 0} (P : T → Type 0) (Q : A → Type 0) where
  attempted_returns :
      (p : Result E A × World T)
      → P p.1.tables
      → Post Q p.0
      → P (attempted p).1.tables × Post (Post {E = E} Q) (attempted p).0
  unfolding attempted
  attempted_returns (ok a, w) h q = (h, q)
  attempted_returns (err e, w) h q = (h, tt)
  attempted_returns (panic, w) h q = (h, tt)

-- Go's `v, err := f()`: of an error nothing is known, of a value what `f` promises.
module _ {T E A : Type 0} {P : T → Type 0} {Q : A → Type 0} where
  pub Returns-attempt : (m : Db T E A) → Returns P Q m → Returns P (Post Q) (attempt m)
  unfolding attempt
  Returns-attempt m k = record {
    at = λ w h. let (kept, q) = k.at w h in attempted_returns P Q (m w) kept q;
  }

module _ {T E A : Type 0} {P : T → Type 0} {Q : A → Type 0} where
  pub Returns-must_in_tx : (g : ℕ → A) → ((n : ℕ) → Q (g n)) → Returns {E = E} P Q (must_in_tx g)
  unfolding must_in_tx
  Returns-must_in_tx g k = record { at = λ w. one w w.faults }
    where
      one :
          (w : World T) (faults : List Bool)
          → P w.tables
          → let (r, u) = answer {E = E} panic (λ (v : World T). (g v.now, v.tables)) w faults in
            P u.tables × Post Q r
      one w [] h = (h, k w.now)
      one w (true ∷ rest) h = (h, tt)
      one w (false ∷ rest) h = (h, k w.now)

-- An action that keeps `P` returns something.
module _ {T E A : Type 0} {P : T → Type 0} where
  pub Returns-of_Keeps : (m : Db T E A) → Keeps P m → Returns P (λ _. Unit) m
  Returns-of_Keeps m k = record { at = λ w h. (k.at w h, any (m w).0) }
    where
      any : (r : Result E A) → Post {E = E} (λ (_ : A). Unit) r
      any (ok a) = tt
      any (err e) = tt
      any panic = tt

module _ {T E : Type 0} {P Q : T → Type 0} where
  pub Returns-must_begin : ((t : T) → P t → Q t) → Returns {E = E} P Q must_begin
  unfolding must_begin
  Returns-must_begin k = record { at = λ w. one w w.faults }
    where
      one :
          (w : World T) (faults : List Bool)
          → P w.tables
          → let (r, u) = answer {E = E} panic (λ (v : World T). (v.tables, v.tables)) w faults in
            P u.tables × Post Q r
      one w [] h = (h, k w.tables h)
      one w (true ∷ rest) h = (h, tt)
      one w (false ∷ rest) h = (h, k w.tables h)

module _ {T E A : Type 0} {P : T → Type 0} {Q : A → Type 0} where
  pub Returns-in_tx : (e : E) (g : ℕ → A) → ((n : ℕ) → Q (g n)) → Returns P Q (in_tx e g)
  unfolding in_tx
  Returns-in_tx e g k = Returns-query e (λ _ n. g n) (λ _ n _. k n)
