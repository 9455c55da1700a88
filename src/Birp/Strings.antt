-- ===== src/Birp/Strings.antt =====
-- The strings of hw1/src/custom_functions.c: len, compare, equal and string_to_int.
use cse320_spring.Base.{
  ℕ, zero, suc, ◌+◌, ◌-◌, ◌*◌, ◌%◌, ◌≤◌, ◌≡◌, ◌≢◌, refl, Bool, false, ◌&&◌, Option, none, some, [],
  ◌∷◌, ltb, leb, ◌==◌, if◌then◌else◌, length, get_or, arith,
}
use cse320_spring.Base.Int.{ℤ, pos, negsuc}
use cse320_spring.Base.Text.{Bytes, strcmp_equal}

-- `len` of a string, which is its bytes without the terminator.
abbrev pub len : Bytes → ℕ
len str = length str

-- The for loop of `compare`, from an index on. A `char` is signed.
unfoldable pub compare_from : ℕ → ℕ → Bytes → Bytes → ℤ
compare_from zero index str1 str2 = pos 0
compare_from (suc rounds) index str1 str2 =
    let c1 = get_or str1 index 0 in
    let c2 = get_or str2 index 0 in
    let rest = compare_from rounds (suc index) str1 str2 in
    if c1 == c2
    then if c1 == 0 then pos 0 else rest
    else if ltb ((c1 + 128) % 256) ((c2 + 128) % 256)
    then negsuc 0
    else pos 1

unfoldable pub compare_strings : Bytes → Bytes → ℤ
compare_strings str1 str2 =
    let max_index = if ltb (len str2) (len str1) then len str1 else len str2 in
    compare_from max_index 0 str1 str2

abbrev pub is_zero : ℤ → Bool
is_zero (pos n) = n == 0
is_zero (negsuc n) = false

unfoldable pub equal : Bytes → Bytes → Bool
equal str1 str2 = is_zero (compare_strings str1 str2)

-- The for loop of `string_to_int`, where `none` is -1. It is called with at most three digits, so
-- `result` does not overflow.
unfoldable pub digits_from : Bytes → ℕ → Option ℕ
digits_from [] result = some result
digits_from (digit ∷ str) result =
    if leb b'0' digit && leb digit b'9'
    then digits_from str (result * 10 + (digit - b'0'))
    else none

unfoldable pub string_to_int : Bytes → ℕ → ℕ → Option ℕ
string_to_int str min max = elim (digits_from str 0) [
  | none ↦ none
  | some result ↦ if leb min result && leb result max then some result else none
]

-- No byte is the terminator.
pub data IsString : Bytes → Type 0 where
  empty : IsString []
  more : {c : ℕ} {cs : Bytes} → c ≢ 0 → IsString cs → IsString (c ∷ cs)

compare_from-suc :
    (rounds index x y : ℕ) (xs ys : Bytes)
    → compare_from rounds (suc index) (x ∷ xs) (y ∷ ys) ≡ compare_from rounds index xs ys
unfolding compare_from
compare_from-suc zero index x y xs ys = refl
compare_from-suc (suc rounds) index x y xs ys = rw (compare_from-suc rounds (suc index) x y xs ys)

compare_from_lem :
    (rounds : ℕ) (str1 str2 : Bytes)
    → IsString str1
    → IsString str2
    → len str1 ≤ rounds
    → len str2 ≤ rounds
    → is_zero (compare_from rounds 0 str1 str2) ≡ strcmp_equal str1 str2
unfolding compare_from strcmp_equal
compare_from_lem zero [] [] empty empty h k = refl
compare_from_lem zero [] (y ∷ ys) empty s h k = absurd (omega arith)
compare_from_lem zero (x ∷ xs) ys s t h k = absurd (omega arith)
compare_from_lem (suc rounds) [] [] empty empty h k = refl
compare_from_lem (suc rounds) [] (y ∷ ys) empty (more n t) h k = ground arith
compare_from_lem (suc rounds) (x ∷ xs) [] (more n t) empty h k = ground arith
compare_from_lem (suc rounds) (x ∷ xs) (y ∷ ys) (more n t) (more m u) h k = ground (
  arith,
  compare_from-suc rounds 0 x y xs ys,
  compare_from_lem rounds xs ys t u (omega arith) (omega arith),
)

-- For two strings, `equal` is true exactly where all their bytes are the same.
pub equal-strcmp_equal :
    (str1 str2 : Bytes) → IsString str1 → IsString str2 → equal str1 str2 ≡ strcmp_equal str1 str2
unfolding equal compare_strings
equal-strcmp_equal str1 str2 s t =
    compare_from_lem (if ltb (len str2) (len str1) then len str1 else len str2) str1 str2 s t
      (ground arith) (ground arith)
