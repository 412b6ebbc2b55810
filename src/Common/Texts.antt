-- ===== src/Common/Texts.antt =====
-- Texts taken apart at a character.
use Prim.Native.Nat.{ℕ, ◌<◌}
use Prim.Native.Char.{Char, code}
use Prim.Native.String.{String, ◌∷◌ as char_before, [] as no_char}
use mathlib.Core.Logic.{inl, inr}
use mathlib.Core.List.{List, [], ◌∷◌}
use native.Mathlib.Omega.{arith}
use isucon6_final.Common.Lists.{length}
use isucon6_final.Common.Tests.{◌==◌, if◌then◌else◌, Bool-cases}

abbrev pub put_before : Char → List String → List String
put_before c [] = char_before c "" ∷ []
put_before c (x ∷ xs) = char_before c x ∷ xs

-- Go's strings.Split for a separator of one character, by its code.
unfoldable pub split : ℕ → String → List String
split sep no_char = "" ∷ []
split sep (char_before c s) =
    let rest = split sep s in if code c == sep then "" ∷ rest else put_before c rest

put_before-some : (c : Char) (xs : List String) → 0 < length (put_before c xs)
put_before-some c [] = omega arith
put_before-some c (x ∷ xs) = omega arith

-- A text has at least one part.
pub split-some : (sep : ℕ) (s : String) → 0 < length (split sep s)
unfolding split
split-some sep no_char = omega arith
split-some sep (char_before c s) = elim (Bool-cases (code c == sep)) [
  | inl e ↦ rw e (omega arith)
  | inr e ↦ rw e (put_before-some c (split sep s))
]
