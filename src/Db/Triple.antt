-- ===== src/Db/Triple.antt =====
-- Hoare triples: from tables that satisfy `P`, an action that returns `a` ends in tables that satisfy
-- `Q a`, and one that fails or panics in tables that satisfy `R`.
use isucon6_final.Common.{ℕ, ◌≡◌, refl, Bool, true, false, List, [], ◌∷◌}
use isucon6_final.Db.Keeps.{Keeps}
use isucon6_final.Db.Returns.{Returns, Post}
use isucon6_final.Db.{
  sleep, commit, query, answer, World, Result, ok, err, panic, Db, pure, raise, panics, continue,
  ◌>>=◌,
}

abbrev pub Ends : {T E A : Type 0} → (A → T → Type 0) → (T → Type 0) → Result E A → T → Type 0
Ends Q R (ok a) t = Q a t
Ends Q R (err e) t = R t
Ends Q R panic t = R t

pub record Triple {T E A : Type 0} (P : T → Type 0) (Q : A → T → Type 0) (R : T → Type 0)
    (m : Db T E A) : Type 0 where
  pub at : (w : World T) → P w.tables → Ends Q R (m w).0 (m w).1.tables

module _ {T E A : Type 0} {P : T → Type 0} {Q : A → T → Type 0} {R : T → Type 0} where
  pub Triple-pure : (a : A) → ((t : T) → P t → Q a t) → Triple {E = E} P Q R (pure a)
  unfolding pure
  Triple-pure a h = record { at = λ w p. h w.tables p }

  pub Triple-raise : (e : E) → ((t : T) → P t → R t) → Triple {A = A} P Q R (raise e)
  unfolding raise
  Triple-raise e h = record { at = λ w p. h w.tables p }

  pub Triple-panics : ((t : T) → P t → R t) → Triple {E = E} {A = A} P Q R panics
  unfolding panics
  Triple-panics h = record { at = λ w p. h w.tables p }

  pub Triple-query :
      (e : E) (g : T → ℕ → A)
      → ((t : T) (n : ℕ) → P t → Q (g t n) t)
      → ((t : T) → P t → R t)
      → Triple P Q R (query e g)
  unfolding query
  Triple-query e g h k = record { at = λ w. one w w.faults }
    where
      one :
          (w : World T) (faults : List Bool)
          → P w.tables
          → let (r, u) = answer (err e) (λ (v : World T). (g v.tables v.now, v.tables)) w faults in
            Ends Q R r u.tables
      one w [] p = h w.tables w.now p
      one w (false ∷ rest) p = h w.tables w.now p
      one w (true ∷ rest) p = k w.tables p

module _ {T E A B : Type 0} (Q : A → T → Type 0) (R : T → Type 0) (S : B → T → Type 0)
    (f : A → Db T E B) where
  then-Ends :
      ((a : A) → Triple (Q a) S R (f a))
      → (r : Result E A) (w : World T) → Ends Q R r w.tables
      → Ends S R (continue r f w).0 (continue r f w).1.tables
  then-Ends k (ok a) w h = (k a).at w h
  then-Ends k (err e) w h = h
  then-Ends k panic w h = h

module _ {T E A B : Type 0} {P : T → Type 0} (Q : A → T → Type 0) {R : T → Type 0}
    {S : B → T → Type 0} where
  pub Triple-bind :
      (m : Db T E A) (f : A → Db T E B)
      → Triple P Q R m
      → ((a : A) → Triple (Q a) S R (f a))
      → Triple P S R (m >>= f)
  unfolding ◌>>=◌
  Triple-bind m f km kf = record {
    at = λ w h. let (r, u) = m w in then-Ends Q R S f kf r u (km.at w h);
  }

module _ {T E : Type 0} {P R : T → Type 0} where
  pub Triple-sleep : (n : ℕ) → Triple {E = E} P (λ _. P) R (sleep n)
  unfolding sleep
  Triple-sleep n = record { at = λ w p. p }

module _ {T E A : Type 0} {P : T → Type 0} (R : T → Type 0) where
  kept-Ends : (r : Result E A) (t : T) → ((u : T) → P u → R u) → P t → Ends (λ _. P) R r t
  kept-Ends (ok a) t h p = p
  kept-Ends (err e) t h p = h t p
  kept-Ends panic t h p = h t p

  pub Triple-of_Keeps : (m : Db T E A) → ((u : T) → P u → R u) → Keeps P m → Triple P (λ _. P) R m
  Triple-of_Keeps m h k = record { at = λ w p. kept-Ends (m w).0 (m w).1.tables h (k.at w p) }

-- A fact beside the precondition is a hypothesis.
pub Triple-fact :
    {T E B S : Type 0} {P : T → Type 0} {Q : B → T → Type 0} {R : T → Type 0} (m : Db T E B)
    → (S → Triple P Q R m)
    → Triple (λ t. P t × S) Q R m
Triple-fact m h = record { at = λ w p. (h p.1).at w p.0 }

module _ {T E A : Type 0} {P : T → Type 0} (Q : A → Type 0) (R : T → Type 0) where
  value_after :
      (r : Result E A) (t : T)
      → ((u : T) → P u → R u)
      → P t
      → Post Q r
      → Ends (λ a u. P u × Q a) R r t
  value_after (ok a) t h p q = (p, q)
  value_after (err e) t h p q = h t p
  value_after panic t h p q = h t p

  pub Triple-of_Returns :
      (m : Db T E A) → ((u : T) → P u → R u) → Returns P Q m → Triple P (λ a u. P u × Q a) R m
  Triple-of_Returns m h k = record {
    at = λ w p. let (kept, q) = k.at w p in value_after (m w).0 (m w).1.tables h kept q;
  }

module _ {T E A B : Type 0} {P : T → Type 0} (S : A → Type 0) {R : T → Type 0}
    {Q : B → T → Type 0} where
  -- An action that only returns something, and what follows it.
  pub Triple-Returns-bind :
      (m : Db T E A) (f : A → Db T E B)
      → ((u : T) → P u → R u)
      → Returns P S m
      → ((a : A) → S a → Triple P Q R (f a))
      → Triple P Q R (m >>= f)
  Triple-Returns-bind m f h km kf =
      Triple-bind (λ a u. P u × S a) m f (Triple-of_Returns S R m h km)
        (λ a. Triple-fact (f a) (kf a))

module _ {T E : Type 0} {P R : T → Type 0} where
  pub Triple-commit :
      (e : E) (t : T) → ((u : T) → P u → R u) → Triple P (λ _ u. u ≡ t) R (commit e t)
  unfolding commit
  Triple-commit e t h = record { at = λ w. one w w.faults }
    where
      one :
          (w : World T) (faults : List Bool)
          → P w.tables
          → let (r, u) = answer (err e) (λ (v : World T). (tt, t)) w faults in
            Ends (λ (_ : Unit {0}) u. u ≡ t) R r u.tables
      one w [] p = refl
      one w (false ∷ rest) p = refl
      one w (true ∷ rest) p = h w.tables p

-- A witness of the precondition is a parameter.
pub Triple-exists :
    {T E B S : Type 0} {P : S → T → Type 0} {Q : B → T → Type 0} {R : T → Type 0} (m : Db T E B)
    → ((s : S) → Triple (P s) Q R m)
    → Triple (λ t. (s : S) × P s t) Q R m
Triple-exists m h = record { at = λ w p. (h p.0).at w p.1 }

module _ {T E A : Type 0} (Q S : A → T → Type 0) (R Z : T → Type 0) where
  weaker-Ends :
      ((a : A) (t : T) → Q a t → S a t)
      → ((t : T) → R t → Z t)
      → (r : Result E A) (t : T) → Ends Q R r t
      → Ends S Z r t
  weaker-Ends h z (ok a) t k = h a t k
  weaker-Ends h z (err e) t k = z t k
  weaker-Ends h z panic t k = z t k

module _ {T E A : Type 0} {P : T → Type 0} (Q : A → T → Type 0) (R : T → Type 0)
    {S : A → T → Type 0} {Z : T → Type 0} {m : Db T E A} where
  -- The rule of consequence.
  pub Triple-weaken :
      ((a : A) (t : T) → Q a t → S a t) → ((t : T) → R t → Z t) → Triple P Q R m → Triple P S Z m
  Triple-weaken h z k = record {
    at = λ w p. weaker-Ends Q S R Z h z (m w).0 (m w).1.tables (k.at w p);
  }
