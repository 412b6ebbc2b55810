-- ===== src/Bench/Seed/Tests.antt =====
-- A stroke at a concrete input.
use isucon6_final.Common.{ℕ, ◌+◌, ◌≡◌, refl, [], ◌∷◌, ◌≤◌, ◌<◌, false, length, arith}
use isucon6_final.Webapp.Schema.{PostedStroke}
use isucon6_final.Webapp.Strokes.{is_bad_stroke}
use isucon6_final.Bench.Seed.{fluctuate_stroke_bounds, fluctuate_stroke, fluctuate_points, bounded}

abbrev line : PostedStroke ℕ
line = record {
  width = 3;
  red = 0;
  green = 0;
  blue = 0;
  alpha = 1;
  points = record { x = 3; y = 4 } ∷ [];
}

-- The least width.
thin : (fluctuate_stroke (λ a r. a + r) (λ k. k) (λ n k. 0) line).width ≡ 1
unfolding fluctuate_stroke bounded
thin = refl

moved :
    (fluctuate_stroke (λ a r. a + r) (λ k. k) (λ n k. 0) line).points ≡ record { x = 3; y = 5 } ∷ []
unfolding fluctuate_stroke fluctuate_points
moved = refl

abbrev drawn : PostedStroke ℕ
drawn = fluctuate_stroke (λ a r. a + r) (λ k. k) (λ n k. 0) line

fluctuate_stroke_bounds_example :
    (1 ≤ drawn.width)
    × (drawn.width ≤ 50)
    × ((100 ≤ drawn.red) × (drawn.red < 200))
    × ((100 ≤ drawn.green) × (drawn.green < 200))
    × ((100 ≤ drawn.blue) × (drawn.blue < 200))
    × (length drawn.points ≡ length line.points)
    × (is_bad_stroke drawn ≡ false)
fluctuate_stroke_bounds_example =
    fluctuate_stroke_bounds (λ a r. a + r) (λ k. k) (λ n k. 0) line (λ n k h. h) (omega arith)
