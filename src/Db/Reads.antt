-- ===== src/Db/Reads.antt =====
-- Actions that only read: they change nothing of the world but the answers that the driver has left.
use isucon6_final.Common.{
  ℕ, ◌≡◌, refl, sym, ap, subst, ◌∙◌, Bool, true, false, List, [], ◌∷◌, if◌then◌else◌,
}
use isucon6_final.Db.Keeps.{Keeps}
use isucon6_final.Db.{
  World, Db, Result, ok, err, panic, pure, raise, panics, query, clock, answer, attempt, attempted,
  continue, ◌>>=◌,
}

pub record Reads {T E A : Type 0} (m : Db T E A) : Type 0 where
  pub at : (w : World T) → (rest : List Bool) × ((m w).1 ≡ record w { faults = rest })

module _ {T E A : Type 0} where
  pub Reads-pure : (a : A) → Reads (pure {T = T} {E = E} a)
  unfolding pure
  Reads-pure a = record { at = λ w. (w.faults, refl) }

  pub Reads-raise : (e : E) → Reads (raise {T = T} {A = A} e)
  unfolding raise
  Reads-raise e = record { at = λ w. (w.faults, refl) }

  pub Reads-panics : Reads (panics {T = T} {E = E} {A = A})
  unfolding panics
  Reads-panics = record { at = λ w. (w.faults, refl) }

  pub Reads-query : (e : E) (g : T → ℕ → A) → Reads (query e g)
  unfolding query
  Reads-query e g = record { at = λ w. one w w.faults }
    where
      one :
          (w : World T) (faults : List Bool)
          → (rest : List Bool) × ((answer {E = E}
                (err e)
                (λ (v : World T). (g v.tables v.now, v.tables))
                w
                faults).1
              ≡ record w { faults = rest })
      one w [] = (w.faults, refl)
      one w (false ∷ rest) = (rest, refl)
      one w (true ∷ rest) = (rest, refl)

  pub Reads-if : (b : Bool) (m n : Db T E A) → Reads m → Reads n → Reads (if b then m else n)
  Reads-if true m n km kn = km
  Reads-if false m n km kn = kn

  attempted-world : (p : Result E A × World T) → (attempted p).1 ≡ p.1
  unfolding attempted
  attempted-world (ok a, w) = refl
  attempted-world (err e, w) = refl
  attempted-world (panic, w) = refl

  pub Reads-attempt : (m : Db T E A) → Reads m → Reads (attempt m)
  unfolding attempt
  Reads-attempt m k = record {
    at = λ w. let (rest, e) = k.at w in (rest, attempted-world (m w) ∙ e);
  }

module _ {T E : Type 0} where
  pub Reads-clock : Reads (clock {T = T} {E = E})
  unfolding clock
  Reads-clock = record { at = λ w. (w.faults, refl) }

module _ {T E A B : Type 0} (f : A → Db T E B) where
  continue-Reads :
      ((a : A) → Reads (f a))
      → (w : World T) (r : Result E A) (v : World T) (rest : List Bool)
      → v ≡ record w { faults = rest }
      → (left : List Bool) × ((continue r f v).1 ≡ record w { faults = left })
  continue-Reads k w (ok a) v rest e =
      let (left, same) = (k a).at v in
      (left, same ∙ ap (λ (u : World T). record u { faults = left }) e)
  continue-Reads k w (err x) v rest e = (rest, e)
  continue-Reads k w panic v rest e = (rest, e)

module _ {T E A B : Type 0} where
  pub Reads-bind :
      (m : Db T E A) (f : A → Db T E B) → Reads m → ((a : A) → Reads (f a)) → Reads (m >>= f)
  unfolding ◌>>=◌
  Reads-bind m f km kf = record {
    at = λ w. let (rest, e) = km.at w in continue-Reads f kf w (m w).0 (m w).1 rest e;
  }

-- What only reads keeps every predicate on the tables.
module _ {T E A : Type 0} where
  pub Reads-Keeps : (P : T → Type 0) (m : Db T E A) → Reads m → Keeps P m
  Reads-Keeps P m k = record {
    at = λ w h. let (rest, e) = k.at w in subst P (sym (ap (λ (u : World T). u.tables) e)) h;
  }

pub ruleset reads_rules = (
  Reads-pure, Reads-raise, Reads-panics, Reads-query, Reads-if, Reads-attempt, Reads-clock,
  Reads-bind,
)
