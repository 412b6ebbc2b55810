-- ===== src/Bench/Seed.antt =====
-- The strokes that the benchmarker draws (FluctuateStroke of bench/seed/seed.go). Floats and their
-- arithmetic, and the random numbers, are parameters: `random_float` and `random_int` give the draws
-- one after another, the second below its bound.
mod Tests
use isucon6_final.Common.{
  ℕ, ◌+◌, ◌-◌, ◌*◌, ◌≤◌, ◌<◌, ◌≡◌, refl, ap, Bool, false, ◌||◌, List, [], ◌∷◌, ltb, ◌==◌, length,
  arith, if◌then◌else◌,
}
use isucon6_final.Webapp.Schema.{PostedPoint, PostedStroke}
use isucon6_final.Webapp.Strokes.{is_bad_stroke}

unfoldable pub bounded : ℕ → ℕ → ℕ → ℕ
bounded n min max = if ltb n min then min else if ltb max n then max else n

module _ {F : Type 0} (shift : F → F → F) (random_float : ℕ → F) (random_int : ℕ → ℕ → ℕ) where
  -- `shift a r` is `a + 3.0*r - 1.5`; the draws are counted from `k`.
  unfoldable pub fluctuate_points : ℕ → List (PostedPoint F) → List (PostedPoint F)
  fluctuate_points k [] = []
  fluctuate_points k (p ∷ ps) =
      record { x = shift p.x (random_float k); y = shift p.y (random_float (k + 1)) }
      ∷ fluctuate_points (k + 2) ps

  -- Where the width would be below zero the difference stops at 0, which is below the least width as
  -- well.
  unfoldable pub fluctuate_stroke : PostedStroke F → PostedStroke F
  fluctuate_stroke s =
      let k = 2 * length s.points in
      record {
        width = bounded (s.width + random_int 20 k - 10) 1 50;
        red = random_int 100 (k + 1) + 100;
        green = random_int 100 (k + 2) + 100;
        blue = random_int 100 (k + 3) + 100;
        alpha = s.alpha;
        points = fluctuate_points 0 s.points;
      }

  length-fluctuate_points :
      (k : ℕ) (ps : List (PostedPoint F)) → length (fluctuate_points k ps) ≡ length ps
  unfolding fluctuate_points
  length-fluctuate_points k [] = refl
  length-fluctuate_points k (p ∷ ps) = omega (arith, length-fluctuate_points (k + 2) ps)

  -- A fluctuated stroke has a width from 1 to 50, colours from 100 to 199 and as many points as before.
  -- The application does not refuse it for its width or its points, if the stroke has a point.
  pub fluctuate_stroke_bounds :
      (s : PostedStroke F)
      → ((n k : ℕ) → 0 < n → random_int n k < n)
      → 0 < length s.points
      → (1 ≤ (fluctuate_stroke s).width)
        × ((fluctuate_stroke s).width ≤ 50)
        × ((100 ≤ (fluctuate_stroke s).red) × ((fluctuate_stroke s).red < 200))
        × ((100 ≤ (fluctuate_stroke s).green) × ((fluctuate_stroke s).green < 200))
        × ((100 ≤ (fluctuate_stroke s).blue) × ((fluctuate_stroke s).blue < 200))
        × (length (fluctuate_stroke s).points ≡ length s.points)
        × (is_bad_stroke (fluctuate_stroke s) ≡ false)
  unfolding fluctuate_stroke bounded
  fluctuate_stroke_bounds s below drawn =
      let k = 2 * length s.points in
      let same = length-fluctuate_points 0 s.points in
      (
        ground arith,
        ground arith,
        (omega arith, omega (arith, below 100 (k + 1) (omega arith))),
        (omega arith, omega (arith, below 100 (k + 2) (omega arith))),
        (omega arith, omega (arith, below 100 (k + 3) (omega arith))),
        same,
        ground (arith, same),
      )
