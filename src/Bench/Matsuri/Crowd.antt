-- ===== src/Bench/Matsuri/Crowd.antt =====
-- How large the crowd can become, and that the loop ends.
use isucon6_final.Common.{
  ℕ, suc, zero, ◌+◌, ◌-◌, ◌*◌, ◌^◌, ◌/◌, ◌≤◌, ◌<◌, ◌≡◌, refl, ap, ◌∙◌, some, List, [], ◌∷◌, ◌++◌,
  ltb, length, length-append, arith, Bool-cases, inl, inr,
}
use native.Mathlib.Nat.{mul-le-mul_left, one-le-pow, two-pow-succ, mul-add, mul_assoc}
use isucon6_final.Bench.Matsuri.{
  Watcher, initial_watcher_num, second, increase_interval, ups, downs, newcomers, enter, evolve,
  crowd_loop, crowd,
}

length-enter : (n : ℕ) → length (enter n) ≡ n
unfolding enter
length-enter zero = refl
length-enter (suc n) = ap suc (length-enter n)

length-evolve :
    (during : ℕ → Watcher → Watcher) (i : ℕ) (ws : List Watcher)
    → length (evolve during i ws) ≡ length ws
unfolding evolve
length-evolve during i [] = refl
length-evolve during i (w ∷ ws) = ap suc (length-evolve during (i + 1) ws)

ups-length : (ws : List Watcher) → ups ws ≤ length ws
unfolding ups
ups-length [] = omega arith
ups-length (w ∷ ws) = ground (arith, ups-length ws)

-- As many enter as are there at most, or the first ten.
newcomers_bound : (ws : List Watcher) → newcomers ws ≤ length ws + initial_watcher_num
unfolding newcomers
newcomers_bound ws = ground (arith, ups-length ws)

newcomers_doubled : (ws : List Watcher) (n : ℕ) → length ws ≤ n → 10 ≤ n → newcomers ws ≤ n
unfolding newcomers
newcomers_doubled ws n h k = ground (arith, ups-length ws)

le_power : (b n : ℕ) → b ≤ b * 2 ^ n
le_power b n = omega (arith, mul-le-mul_left b (one-le-pow n 2 (omega arith)))

power_suc : (b n : ℕ) → b * 2 ^ suc n ≡ 2 * b * 2 ^ n
power_suc b n =
    omega
      (arith, ap (λ k. b * k) (two-pow-succ n), mul-add b (2 ^ n) (2 ^ n), mul_assoc 2 b (2 ^ n))

module _ (during : ℕ → ℕ → Watcher → Watcher) (overhead : ℕ → ℕ) (timeout : ℕ) where
  length-grown :
      (k : ℕ) (ws : List Watcher)
      → length (evolve (during k) 0 (ws ++ enter (newcomers ws))) ≡ length ws + newcomers ws
  length-grown k ws =
      length-evolve (during k) 0 (ws ++ enter (newcomers ws))
      ∙ length-append ws (enter (newcomers ws))
      ∙ ap (λ n. length ws + n) (length-enter (newcomers ws))

  -- The crowd at most doubles in an interval, and the intervals that are left last beyond the timeout.
  crowd_loop_bound :
      (fuel k elapsed b : ℕ) (ws : List Watcher)
      → length ws + newcomers ws ≤ b
      → 10 ≤ b
      → (timeout - increase_interval) * second < elapsed + suc fuel * (increase_interval * second)
      → (last : List Watcher) × (crowd_loop during overhead timeout (suc fuel) k elapsed ws
          ≡ some last)
        × (length last ≤ b * 2 ^ fuel)
  unfolding crowd_loop
  crowd_loop_bound zero k elapsed b ws h ten time =
      let next = evolve (during k) 0 (ws ++ enter (newcomers ws)) in
      (next, ground arith, omega (arith, h, length-grown k ws))
  crowd_loop_bound (suc fuel) k elapsed b ws h ten time =
      let next = evolve (during k) 0 (ws ++ enter (newcomers ws)) in
      let now = elapsed + increase_interval * second + overhead k in
      let size : length next ≤ b = omega (arith, h, length-grown k ws) in
      elim (Bool-cases (ltb ((timeout - increase_interval) * second) now)) [
        | inl over ↦ (next, rw over refl, omega (arith, size, le_power b (suc fuel)))
        | inr on ↦
            let (last, e, most) =
              crowd_loop_bound fuel (suc k) now (2 * b) next
                (omega (arith, size, newcomers_doubled next b size ten)) (omega (arith, ten))
                (omega (arith, time)) in
            (last, rw on e, omega (arith, most, power_suc b fuel))
      ]

  -- The loop of Matsuri ends, after at most one interval more than fit between the first and the
  -- timeout, and the crowd is then at most 10 * 2 ^ ((timeout - 5) / 5), as the comment there says:
  -- whatever the watchers hear, and however long the intervals take.
  pub crowd_bound :
      (ws : List Watcher) × (crowd during overhead timeout
          (suc ((timeout - increase_interval) / increase_interval))
        ≡ some ws)
      × (length ws ≤ initial_watcher_num * 2 ^ ((timeout - increase_interval) / increase_interval))
  unfolding crowd newcomers ups downs
  crowd_bound =
      crowd_loop_bound ((timeout - increase_interval) / increase_interval) 0 0 10 [] (omega arith)
        (omega arith) (omega arith)
