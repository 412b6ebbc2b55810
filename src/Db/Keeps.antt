-- ===== src/Db/Keeps.antt =====
-- Invariants of database actions, one rule for each way to build an action.
use isucon6_final.Common.{ℕ, ◌≡◌, refl, Bool, true, false, List, [], ◌∷◌, if◌then◌else◌}
use isucon6_final.Db.{
  World, Result, ok, err, panic, Db, pure, raise, panics, exec, query, in_tx, must_in_tx, begin,
  must_begin, attempt, attempted, commit, clock, continue, sleep, ◌>>=◌, answer,
}

-- `m` keeps `P` of the tables, whether it returns, fails or panics.
pub record Keeps {T E A : Type 0} (P : T → Type 0) (m : Db T E A) : Type 0 where
  pub at : (w : World T) → P w.tables → P (m w).1.tables

module _ {T E A : Type 0} (P : T → Type 0) where
  answer_keeps :
      (r : Result E A) (f : World T → A × T) (w : World T) (faults : List Bool)
      → P w.tables
      → P (f w).1
      → P (answer r f w faults).1.tables
  answer_keeps r f w [] h k = k
  answer_keeps r f w (true ∷ rest) h k = h
  answer_keeps r f w (false ∷ rest) h k = k

  attempted_keeps : (p : Result E A × World T) → P p.1.tables → P (attempted p).1.tables
  unfolding attempted
  attempted_keeps (ok a, w) h = h
  attempted_keeps (err e, w) h = h
  attempted_keeps (panic, w) h = h

module _ {T E A : Type 0} {P : T → Type 0} where
  pub Keeps-pure : (a : A) → Keeps P (pure {E = E} a)
  unfolding pure
  Keeps-pure a = record { at = λ w h. h }

  pub Keeps-raise : (e : E) → Keeps P (raise {A = A} e)
  unfolding raise
  Keeps-raise e = record { at = λ w h. h }

  pub Keeps-panics : Keeps P (panics {T = T} {E = E} {A = A})
  unfolding panics
  Keeps-panics = record { at = λ w h. h }

  pub Keeps-exec :
      (e : E) (f : T → ℕ → A × T) → ((t : T) (n : ℕ) → P t → P (f t n).1) → Keeps P (exec e f)
  unfolding exec
  Keeps-exec e f k = record {
    at = λ w h. answer_keeps P (err e) (λ v. f v.tables v.now) w w.faults h (k w.tables w.now h);
  }

  pub Keeps-query : (e : E) (f : T → ℕ → A) → Keeps P (query e f)
  unfolding query
  Keeps-query e f = record {
    at = λ w h. answer_keeps P (err e) (λ v. (f v.tables v.now, v.tables)) w w.faults h h;
  }

  pub Keeps-if :
      (test : Bool) (then_do else_do : Db T E A)
      → (test ≡ true → Keeps P then_do)
      → (test ≡ false → Keeps P else_do)
      → Keeps P (if test then then_do else else_do)
  Keeps-if true then_do else_do h k = h refl
  Keeps-if false then_do else_do h k = k refl

  pub Keeps-attempt : (m : Db T E A) → Keeps P m → Keeps P (attempt m)
  unfolding attempt
  Keeps-attempt m k = record { at = λ w h. attempted_keeps P (m w) (k.at w h) }

module _ {T E : Type 0} {P : T → Type 0} where
  pub Keeps-commit : (e : E) (t : T) → P t → Keeps P (commit e t)
  unfolding commit
  Keeps-commit e t k = Keeps-exec e (λ _ _. (tt, t)) (λ _ _ _. k)

  pub Keeps-begin : (e : E) → Keeps P (begin {T = T} e)
  unfolding begin
  Keeps-begin e = Keeps-query e (λ t _. t)

  pub Keeps-clock : Keeps P (clock {T = T} {E = E})
  unfolding clock
  Keeps-clock = record { at = λ w h. h }

  pub Keeps-sleep : (n : ℕ) → Keeps P (sleep {T = T} {E = E} n)
  unfolding sleep
  Keeps-sleep n = record { at = λ w h. h }

module _ {T E A B : Type 0} (P : T → Type 0) where
  continue_keeps :
      (f : A → Db T E B)
      → ((a : A) → Keeps P (f a))
      → (r : Result E A) (w : World T) → P w.tables
      → P (continue r f w).1.tables
  continue_keeps f k (ok a) w h = (k a).at w h
  continue_keeps f k (err e) w h = h
  continue_keeps f k panic w h = h

module _ {T E A B : Type 0} {P : T → Type 0} where
  pub Keeps-bind :
      (first : Db T E A) (rest : A → Db T E B)
      → Keeps P first
      → ((a : A) → Keeps P (rest a))
      → Keeps P (first >>= rest)
  unfolding ◌>>=◌
  Keeps-bind first rest one all = record {
    at = λ w p. let (r, v) = first w in continue_keeps P rest all r v (one.at w p);
  }

-- What follows a call that only reads may use where its answer comes from.
module _ {T E A B : Type 0} (P : T → Type 0) (f : A → Db T E B) where
  read_keeps :
      (bad : Result E A) (g : World T → A)
      → ((w : World T) → P w.tables → P (continue bad f w).1.tables)
      → ((w : World T) → P w.tables → Keeps P (f (g w)))
      → (w : World T) (faults : List Bool) → P w.tables
      → P (let (r, v) = answer bad (λ v. (g v, v.tables)) w faults in continue r f v).1.tables
  read_keeps bad g kb k w [] h = (k w h).at _ h
  read_keeps bad g kb k w (true ∷ rest) h = kb _ h
  read_keeps bad g kb k w (false ∷ rest) h = (k w h).at _ h

module _ {T E A B : Type 0} {P : T → Type 0} where
  pub Keeps-query-bind :
      (e : E) (g : T → ℕ → A) (f : A → Db T E B)
      → ((t : T) (n : ℕ) → P t → Keeps P (f (g t n)))
      → Keeps P (query e g >>= f)
  unfolding ◌>>=◌
  Keeps-query-bind e g f k = record {
    at = λ w.
        read_keeps P f (err e) (λ v. g v.tables v.now) (λ _ h. h) (λ v. k v.tables v.now) w
          w.faults;
  }

  pub Keeps-in_tx-bind :
      (e : E) (g : ℕ → A) (f : A → Db T E B)
      → ((n : ℕ) → Keeps P (f (g n)))
      → Keeps P (in_tx e g >>= f)
  unfolding ◌>>=◌
  Keeps-in_tx-bind e g f k = record {
    at = λ w. read_keeps P f (err e) (λ v. g v.now) (λ _ h. h) (λ v _. k v.now) w w.faults;
  }

  pub Keeps-must_in_tx-bind :
      (g : ℕ → A) (f : A → Db T E B) → ((n : ℕ) → Keeps P (f (g n))) → Keeps P (must_in_tx g >>= f)
  unfolding ◌>>=◌
  Keeps-must_in_tx-bind g f k = record {
    at = λ w. read_keeps P f panic (λ v. g v.now) (λ _ h. h) (λ v _. k v.now) w w.faults;
  }

module _ {T E B : Type 0} {P : T → Type 0} where
  pub Keeps-begin-bind :
      (e : E) (f : T → Db T E B) → ((t : T) → P t → Keeps P (f t)) → Keeps P (begin e >>= f)
  unfolding ◌>>=◌
  Keeps-begin-bind e f k = record {
    at = λ w. read_keeps P f (err e) (λ v. v.tables) (λ _ h. h) (λ v. k v.tables) w w.faults;
  }

  pub Keeps-must_begin-bind :
      (f : T → Db T E B) → ((t : T) → P t → Keeps P (f t)) → Keeps P (must_begin >>= f)
  unfolding ◌>>=◌
  Keeps-must_begin-bind f k = record {
    at = λ w. read_keeps P f panic (λ v. v.tables) (λ _ h. h) (λ v. k v.tables) w w.faults;
  }

pub ruleset keeps_rules = (
  Keeps-pure, Keeps-raise, Keeps-panics, Keeps-query, Keeps-if, Keeps-attempt, Keeps-clock,
  Keeps-sleep, Keeps-bind,
)
