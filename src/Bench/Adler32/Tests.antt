-- ===== src/Bench/Adler32/Tests.antt =====
-- Runs of the checksum, and its theorem at a concrete input.
use isucon6_final.Common.{ℕ, ◌≡◌, refl, List, [], ◌∷◌}
use isucon6_final.Bench.Adler32.{adler32, add_fours, add_rest, add_blocks}
use isucon6_final.Bench.Adler32.Plain.{plain_adler32, adler32-plain}

abbrev wikipedia : List ℕ
wikipedia = b'W' ∷ b'i' ∷ b'k' ∷ b'i' ∷ b'p' ∷ b'e' ∷ b'd' ∷ b'i' ∷ b'a' ∷ []

adler32_known : adler32 wikipedia ≡ 300286872
unfolding adler32 add_blocks add_fours add_rest
adler32_known = refl

adler32-plain_example : adler32 wikipedia ≡ plain_adler32 wikipedia
adler32-plain_example = adler32-plain wikipedia
