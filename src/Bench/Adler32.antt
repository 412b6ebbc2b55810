-- ===== src/Bench/Adler32.antt =====
-- The checksum of bench/scenario/adler32.go. The runes of the text are a list of numbers; Go's `int`
-- has 64 bits, which is enough for the sums of 4099 runes. The result's 32 bits are read without a sign.
pub mod Plain
mod Tests
use isucon6_final.Common.{
  ℕ, zero, suc, ◌+◌, ◌-◌, ◌*◌, ◌/◌, ◌%◌, ◌^◌, min, List, [], ◌∷◌, length, take, drop,
}

abbrev pub mod_adler : ℕ
mod_adler = 65521

-- a += c; b += a
abbrev pub add_rune : ℕ → ℕ × ℕ → ℕ × ℕ
add_rune c (a, b) = (a + c, b + (a + c))

abbrev pub reduce : ℕ × ℕ → ℕ × ℕ
reduce (a, b) = (a % mod_adler, b % mod_adler)

-- The inner loop, four runes at a time.
unfoldable pub add_fours : List ℕ → ℕ × ℕ → ℕ × ℕ
add_fours (p ∷ q ∷ r ∷ s ∷ rest) sums =
    add_fours rest (add_rune s (add_rune r (add_rune q (add_rune p sums))))
add_fours _ sums = sums

-- The loop over the runes that are left.
unfoldable pub add_rest : List ℕ → ℕ × ℕ → ℕ × ℕ
add_rest [] sums = sums
add_rest (c ∷ rest) sums = add_rest rest (add_rune c sums)

-- The outer loop: `left` is `m - i`, and each turn takes 4096 runes of it, or what there is. The
-- fuel is a number of turns.
unfoldable pub add_blocks : ℕ → ℕ → List ℕ → ℕ × ℕ → ℕ × ℕ
add_blocks zero left rest sums = sums
add_blocks (suc fuel) zero rest sums = sums
add_blocks (suc fuel) (suc n) rest sums =
    let size = min 4096 (suc n) in
    add_blocks fuel (suc n - size) (drop size rest) (reduce (add_fours (take size rest) sums))

-- `l & -4`
abbrev pub whole_fours : ℕ → ℕ
whole_fours l = l / 4 * 4

-- `a|b<<16`: `a` is below 2 ^ 16, so that the bits of the two do not meet.
abbrev pub pack : ℕ × ℕ → ℕ
pack (a, b) = (a + b * 2 ^ 16) % 2 ^ 32

unfoldable pub adler32 : List ℕ → ℕ
adler32 runes =
    let m = whole_fours (length runes) in
    pack (reduce (add_rest (drop m runes) (add_blocks (m / 4096 + 1) m runes (1, 0))))
