-- ===== src/Prelude/Text.antt =====
-- A text that the program takes apart is the list of its characters, by their code points.
use Prim.Native.Nat.{ℕ}
use mathlib.Core.Path.{◌≡◌, refl}
use mathlib.Core.Bool.{Bool, true, false, ◌&&◌}
use mathlib.Core.List.{List, [], ◌∷◌}
use native.Mathlib.Omega.{arith}
use Prim.Native.Char.{code}
use Prim.Native.String.{String}
use abr_out.Prelude.Tests.{◌==◌}

abbrev pub Text : Type 0
Text = List ℕ

-- The code points of a literal. `String` has its own `[]` and `∷`.
abbrev pub codes : String → Text
codes String.[] = []
codes (String.◌∷◌ c s) = code c ∷ codes s

unfoldable pub same_text : Text → Text → Bool
same_text [] [] = true
same_text (c ∷ s) (d ∷ t) = c == d && same_text s t
same_text _ _ = false

pub same_text_refl : (s : Text) → same_text s s ≡ true
unfolding same_text
same_text_refl [] = refl
same_text_refl (c ∷ s) = ground (arith, same_text_refl s)

pub same_text→eq : (s t : Text) → same_text s t ≡ true → s ≡ t
unfolding same_text
same_text→eq [] [] h = refl
same_text→eq [] (d ∷ t) h = cc
same_text→eq (c ∷ s) [] h = cc
same_text→eq (c ∷ s) (d ∷ t) h = ground (arith, same_text→eq s t)
