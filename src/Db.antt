-- ===== src/Db.antt =====
-- Calls of a database driver and of the clock, as actions on a world. The driver is not part of the
-- repository: whether its next calls fail is a list of answers in the world, in the order of the
-- calls. A call that fails has changed nothing.
pub mod Keeps
pub mod Returns
pub mod Triple
pub mod Reads
use isucon6_final.Common.{ℕ, ◌+◌, ◌≡◌, refl, Bool, true, false, Option, none, some, List, [], ◌∷◌}

-- `now` is the time, `faults` says for each coming call of the driver whether it fails; past the end
-- of the list every call succeeds.
pub record World (T : Type 0) : Type 0 where
  pub tables : T
  pub now : ℕ
  pub faults : List Bool

-- What a Go function ends with: its value, the error that it returns, or a panic.
pub data Result (E A : Type 0) : Type 0 where
  ok : A → Result E A
  err : E → Result E A
  panic : Result E A

abbrev pub Db : Type 0 → Type 0 → Type 0 → Type 0
Db T E A = World T → Result E A × World T

module _ {T E A : Type 0} where
  pub pure : A → Db T E A
  pure a w = (ok a, w)

  pub raise : E → Db T E A
  raise e w = (err e, w)

  pub panics : Db T E A
  panics w = (panic, w)

  -- The next call fails with `r`, or does `f`.
  abbrev pub answer : Result E A → (World T → A × T) → World T → List Bool → Result E A × World T
  answer r f w [] = let (a, t) = f w in (ok a, record w { tables = t })
  answer r f w (false ∷ rest) = let (a, t) = f w in (ok a, record w { tables = t; faults = rest })
  answer r f w (true ∷ rest) = (r, record w { faults = rest })

  -- A statement that returns `e` if the driver fails.
  pub exec : E → (T → ℕ → A × T) → Db T E A
  exec e f w = answer (err e) (λ v. f v.tables v.now) w w.faults

  -- A query changes nothing.
  pub query : E → (T → ℕ → A) → Db T E A
  query e f w = answer (err e) (λ v. (f v.tables v.now, v.tables)) w w.faults

  -- A statement of a transaction: it works on the tables that the transaction has made so far, and
  -- the world keeps its own.
  pub in_tx : E → (ℕ → A) → Db T E A
  unfolding query
  in_tx e f = query e (λ _ n. f n)

  -- sqlx's `Must` functions panic where the driver fails.
  pub must_in_tx : (ℕ → A) → Db T E A
  must_in_tx f w = answer panic (λ v. (f v.now, v.tables)) w w.faults

  -- Go's `v, err := f()`: the error becomes a value, a panic goes on.
  pub attempted : Result E A × World T → Result E (Result E A) × World T
  attempted (ok a, w) = (ok (ok a), w)
  attempted (err e, w) = (ok (err e), w)
  attempted (panic, w) = (panic, w)

  pub attempt : Db T E A → Db T E (Result E A)
  unfolding attempted
  attempt m w = attempted (m w)

-- `COMMIT` publishes the tables as the transaction has left them. Until then its statements work on
-- the tables that it began with, and a rollback drops them.
module _ {T E : Type 0} where
  pub begin : E → Db T E T
  unfolding query
  begin e = query e (λ t _. t)

  pub must_begin : Db T E T
  must_begin w = answer panic (λ v. (v.tables, v.tables)) w w.faults

  pub commit : E → T → Db T E (Unit {0})
  unfolding exec
  commit e t = exec e (λ _ _. (tt, t))

  -- time.Now()
  pub clock : Db T E ℕ
  clock w = (ok w.now, w)

  -- time.Sleep, in the unit of the program's clock
  pub sleep : ℕ → Db T E (Unit {0})
  sleep n w = (ok tt, record w { now = w.now + n })

module _ {T E A B : Type 0} where
  abbrev pub continue : Result E A → (A → Db T E B) → Db T E B
  continue (ok a) f w = f a w
  continue (err e) f w = (err e, w)
  continue panic f w = (panic, w)

  infixl 10 ◌>>=◌ ◌>>◌
  unfoldable pub ◌>>=◌ : Db T E A → (A → Db T E B) → Db T E B
  unfolding pure raise panics exec query in_tx must_in_tx begin must_begin attempt commit clock
      sleep
  ◌>>=◌ m f w = let (r, v) = m w in continue r f v

  abbrev pub ◌>>◌ : Db T E A → Db T E B → Db T E B
  m >> k = m >>= λ _. k
