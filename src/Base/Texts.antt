-- ===== src/Base/Texts.antt =====
-- Texts as lists of code points: literals, equality and the tests of package strings.
use Prim.Native.Char.{code}
use Prim.Native.Nat.{ℕ}
use Prim.Native.String.{String}
use mathlib.Core.Path.{◌≡◌}
use mathlib.Core.Logic.{◌↔◌}
use mathlib.Core.Bool.{Bool, true, false, ◌&&◌}
use mathlib.Core.List.{List, [], ◌∷◌}
use native.Mathlib.Omega.{arith}
use go_hsql.Base.Tests.{◌==◌, if◌then◌else◌}

-- The code points of a literal.
abbrev pub codes : String → List ℕ
codes String.[] = []
codes (String.◌∷◌ c s) = code c ∷ codes s

unfoldable pub eqb_text : List ℕ → List ℕ → Bool
eqb_text [] [] = true
eqb_text [] (d ∷ t) = false
eqb_text (c ∷ s) [] = false
eqb_text (c ∷ s) (d ∷ t) = c == d && eqb_text s t

pub eqb_text_iff : (s t : List ℕ) → (eqb_text s t ≡ true) ↔ (s ≡ t)
unfolding eqb_text
eqb_text_iff [] [] = ground arith
eqb_text_iff [] (d ∷ t) = ground arith
eqb_text_iff (c ∷ s) [] = ground arith
eqb_text_iff (c ∷ s) (d ∷ t) = ground (arith, eqb_text_iff s t)

unfoldable pub contains_text : ℕ → List ℕ → Bool
contains_text c [] = false
contains_text c (d ∷ s) = if d == c then true else contains_text c s
