-- ===== src/Bench/Adler32/Plain.antt =====
-- The checksum computed in blocks is the plain one, whose two sums are reduced once at the end.
use isucon6_final.Common.{
  ℕ, zero, suc, ◌+◌, ◌-◌, ◌*◌, ◌/◌, ◌%◌, ◌≤◌, ◌≡◌, refl, sym, subst, ap, ◌∙◌, min, List, [], ◌∷◌,
  ◌++◌, length, take, drop, arith, length-take,
}
use isucon6_final.Bench.Adler32.{
  mod_adler, add_rune, reduce, add_fours, add_rest, add_blocks, whole_fours, pack, adler32,
}

-- Adler-32 of RFC 1950, on the runes: both sums of the whole text, each modulo 65521.
abbrev pub plain_adler32 : List ℕ → ℕ
plain_adler32 runes = pack (reduce (add_rest runes (1, 0)))

-- Sums that agree modulo 65521.
abbrev Same : ℕ × ℕ → ℕ × ℕ → Type 0
Same (a, b) (c, d) = (a % mod_adler ≡ c % mod_adler) × (b % mod_adler ≡ d % mod_adler)

add_rune-Same : (c : ℕ) (x y : ℕ × ℕ) → Same x y → Same (add_rune c x) (add_rune c y)
add_rune-Same c (a, b) (d, e) (h, k) = (omega arith, omega arith)

add_rest-Same : (cs : List ℕ) (x y : ℕ × ℕ) → Same x y → Same (add_rest cs x) (add_rest cs y)
unfolding add_rest
add_rest-Same [] x y h = h
add_rest-Same (c ∷ cs) x y h =
    add_rest-Same cs (add_rune c x) (add_rune c y) (add_rune-Same c x y h)

reduce-Same : (x : ℕ × ℕ) → Same (reduce x) x
reduce-Same (a, b) = (omega arith, omega arith)

add_rest-append : (cs ds : List ℕ) (x : ℕ × ℕ) → add_rest (cs ++ ds) x ≡ add_rest ds (add_rest cs x)
unfolding add_rest
add_rest-append [] ds x = refl
add_rest-append (c ∷ cs) ds x = add_rest-append cs ds (add_rune c x)

take-drop : (n : ℕ) (cs : List ℕ) → take n cs ++ drop n cs ≡ cs
take-drop zero cs = refl
take-drop (suc n) [] = refl
take-drop (suc n) (c ∷ cs) = ap (λ xs. c ∷ xs) (take-drop n cs)

-- On a multiple of four runes the unrolled loop is the plain one.
add_fours-eq : (cs : List ℕ) (x : ℕ × ℕ) → length cs % 4 ≡ 0 → add_fours cs x ≡ add_rest cs x
unfolding add_fours add_rest
add_fours-eq [] x h = refl
add_fours-eq (p ∷ []) x h = absurd (omega arith)
add_fours-eq (p ∷ q ∷ []) x h = absurd (omega arith)
add_fours-eq (p ∷ q ∷ r ∷ []) x h = absurd (omega arith)
add_fours-eq (p ∷ q ∷ r ∷ s ∷ rest) x h =
    add_fours-eq rest (add_rune s (add_rune r (add_rune q (add_rune p x)))) (omega arith)

take_split : (n l : ℕ) (cs : List ℕ) → n ≤ l → take n cs ++ take (l - n) (drop n cs) ≡ take l cs
take_split zero l cs h = ap (λ k. take k cs) (omega arith)
take_split (suc n) zero cs h = absurd (omega arith)
take_split (suc n) (suc l) [] h = none_left (suc l - suc n)
  where
    none_left : (k : ℕ) → take {A = ℕ} k [] ≡ []
    none_left zero = refl
    none_left (suc k) = refl
take_split (suc n) (suc l) (c ∷ cs) h =
    ap (λ xs. c ∷ xs)
      (ap (λ k. take n cs ++ take k (drop n cs)) (omega arith) ∙ take_split n l cs (omega arith))

length-drop : (n : ℕ) (cs : List ℕ) → length (drop n cs) ≡ length cs - n
length-drop zero cs = omega arith
length-drop (suc n) [] = omega arith
length-drop (suc n) (c ∷ cs) = omega (arith, length-drop n cs)

Same-trans : (x y z : ℕ × ℕ) → Same x y → Same y z → Same x z
Same-trans x y z h k = (h.0 ∙ k.0, h.1 ∙ k.1)

-- One turn of the outer loop, and what is left after it, add up the runes of both.
block-Same :
    (size left : ℕ) (cs : List ℕ) (x : ℕ × ℕ)
    → size ≤ left
    → left ≤ length cs
    → size % 4 ≡ 0
    → Same
        (add_rest (take (left - size) (drop size cs)) (reduce (add_fours (take size cs) x)))
        (add_rest (take left cs) x)
block-Same size left cs x h k e =
    let whole : add_fours (take size cs) x ≡ add_rest (take size cs) x =
      add_fours-eq (take size cs) x (omega (arith, length-take size cs)) in
    let joined : add_rest (take (left - size) (drop size cs)) (add_rest (take size cs) x)
        ≡ add_rest (take left cs) x =
      sym (add_rest-append (take size cs) (take (left - size) (drop size cs)) x)
      ∙ ap (λ ds. add_rest ds x) (take_split size left cs h) in
    subst (Same _) joined (
      add_rest-Same (take (left - size) (drop size cs)) _ _
        (subst (Same _) whole (reduce-Same (add_fours (take size cs) x))))

-- The fuel of `adler32` is enough: with a turn for every 4096 runes, all of them are added.
blocks-Same :
    (fuel left : ℕ) (cs : List ℕ) (x : ℕ × ℕ)
    → left ≤ length cs
    → left % 4 ≡ 0
    → left ≤ fuel * 4096
    → Same (add_blocks fuel left cs x) (add_rest (take left cs) x)
unfolding add_blocks add_rest
blocks-Same zero zero cs x h e k = (refl, refl)
blocks-Same zero (suc n) cs x h e k = absurd (omega arith)
blocks-Same (suc fuel) zero cs x h e k = (refl, refl)
blocks-Same (suc fuel) (suc n) cs x h e k =
    let size = min 4096 (suc n) in
    Same-trans _ _ _
      (blocks-Same fuel (suc n - size) (drop size cs) (reduce (add_fours (take size cs) x))
        (omega (arith, length-drop size cs)) (omega arith) (omega arith))
      (block-Same size (suc n) cs x (omega arith) h (omega arith))

Same-reduce : (x y : ℕ × ℕ) → Same x y → reduce x ≡ reduce y
Same-reduce (a, b) (c, d) (h, k) = cc

-- `Adler32`, which reduces its sums after every 4096 runes and adds four at a time, returns the
-- plain checksum of any text.
pub adler32-plain : (runes : List ℕ) → adler32 runes ≡ plain_adler32 runes
unfolding adler32
adler32-plain runes =
    let m = whole_fours (length runes) in
    let blocks = add_blocks (m / 4096 + 1) m runes (1, 0) in
    let same : Same (add_rest (drop m runes) blocks)
        (add_rest (drop m runes) (add_rest (take m runes) (1, 0))) =
      add_rest-Same (drop m runes) _ _
        (blocks-Same (m / 4096 + 1) m runes (1, 0) (omega arith) (omega arith) (omega arith)) in
    ap pack (
      Same-reduce _ _ same
      ∙ ap reduce (
          sym (add_rest-append (take m runes) (drop m runes) (1, 0))
          ∙ ap (λ cs. add_rest cs (1, 0)) (take-drop m runes)))
