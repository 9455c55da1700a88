-- ===== src/Base/Text.antt =====
-- Strings of C: their bytes without the terminator.
use Prim.Native.Char.{code}
use Prim.Native.String.{String}
use Prim.Native.Nat.{ℕ}
use mathlib.Core.Path.{◌≡◌, refl}
use mathlib.Core.Bool.{Bool, true, false, ◌&&◌}
use mathlib.Core.List.{List, [], ◌∷◌}
use native.Mathlib.Omega.{arith}
use cse320_spring.Base.Tests.{◌==◌, ==-eq-true}

abbrev pub Bytes : Type 0
Bytes = List ℕ

-- The bytes of a literal.
abbrev pub codes : String → Bytes
codes String.[] = []
codes (String.◌∷◌ c s) = code c ∷ codes s

-- Whether `strcmp` gives 0.
unfoldable pub strcmp_equal : Bytes → Bytes → Bool
strcmp_equal [] [] = true
strcmp_equal [] (c ∷ cs) = false
strcmp_equal (b ∷ bs) [] = false
strcmp_equal (b ∷ bs) (c ∷ cs) = b == c && strcmp_equal bs cs

pub strcmp_equal_refl : (b : Bytes) → strcmp_equal b b ≡ true
unfolding strcmp_equal
strcmp_equal_refl [] = refl
strcmp_equal_refl (c ∷ cs) = rw (==-eq-true c c refl, strcmp_equal_refl cs)

pub eq_of_strcmp_equal : (b c : Bytes) → strcmp_equal b c ≡ true → b ≡ c
unfolding strcmp_equal
eq_of_strcmp_equal [] [] h = refl
eq_of_strcmp_equal [] (c ∷ cs) h = absurd (cc)
eq_of_strcmp_equal (b ∷ bs) [] h = absurd (cc)
eq_of_strcmp_equal (b ∷ bs) (c ∷ cs) h = ground (arith, eq_of_strcmp_equal bs cs)
