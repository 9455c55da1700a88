-- ===== src/Birp/Args.antt =====
-- `validargs` of hw1/src/birp.c, and what main of hw1/src/main.c does with the options.
use cse320_spring.Base.{
  ℕ, ◌+◌, ◌-◌, ◌*◌, ◌/◌, ◌%◌, ◌^◌, Bool, true, false, not, ◌||◌, Option, none, some, List, [], ◌∷◌,
  ltb, leb, ◌==◌, if◌then◌else◌, length,
}
use cse320_spring.Base.Text.{Bytes, codes}
use cse320_spring.Birp.Strings.{len, equal, string_to_int}

-- `x & ~m` for the mask m of `w` bits from bit `k` on.
abbrev pub clear_field : ℕ → ℕ → ℕ → ℕ
clear_field k w x = x - x / 2 ^ k % 2 ^ w * 2 ^ k

-- `HELP_OPTION`
abbrev pub help_option : ℕ
help_option = 0x80000000

-- `global_options` as the bit pattern of an `int`, and the local variables of the loop.
pub record Scan : Type 0 where
  pub options : ℕ
  pub input : Bool
  pub output : Bool
  pub io_search_done : Bool

-- How a round of the loop ends: with invalidargs_return, or with the next argument or the one after it.
pub data Round : Type 0 where
  invalid : Round
  next : Scan → Round
  skip : Scan → Round

abbrev pub input_format : Bytes → Scan → Round
input_format flag s =
    if equal flag (codes "pgm")
    then skip (record s { input = true; options = clear_field 0 4 s.options + 0x1 })
    else if equal flag (codes "birp")
    then skip (record s { input = true; options = clear_field 0 4 s.options + 0x2 })
    else invalid

abbrev pub output_format : Bytes → Scan → Round
output_format flag s =
    if equal flag (codes "pgm")
    then skip (record s { output = true; options = clear_field 4 4 s.options + 0x10 })
    else if equal flag (codes "birp")
    then skip (record s { output = true; options = clear_field 4 4 s.options + 0x20 })
    else if equal flag (codes "ascii")
    then skip (record s { output = true; options = clear_field 4 4 s.options + 0x30 })
    else invalid

-- The value of -t, -z and -Z, where `most` is the largest number and `longest` its digits. `put` is what
-- the options become.
abbrev pub with_value : Option Bytes → ℕ → ℕ → (ℕ → ℕ) → Scan → Round
with_value none longest most put s = invalid
with_value (some flag) longest most put s =
    if ltb longest (len flag) then invalid else elim (string_to_int flag 0 most) [
      | none ↦ invalid
      | some flag_value ↦ skip (record s { options = put flag_value })
    ]

-- The round for a flag that is not -i or -o.
unfoldable pub transformation : Bytes → Option Bytes → Scan → Round
transformation flag following s₀ =
    let s = record s₀ { io_search_done = true } in
    let cleared = clear_field 8 4 s.options in
    if not (s.options == 0x22)
    then invalid
    else if equal flag (codes "-n")
    then next (record s { options = cleared + 0x100 })
    else if equal flag (codes "-t")
    then with_value following 3 255 (λ v. clear_field 16 8 (cleared + 0x200) + v * 2 ^ 16) s
    else if equal flag (codes "-z")
    then with_value following 2 16
        (λ v. (clear_field 16 8 (cleared + 0x300) + (2 ^ 32 - v * 2 ^ 16)) % 2 ^ 24) s
    else if equal flag (codes "-Z")
    then with_value following 2 16 (λ v. clear_field 16 8 (cleared + 0x300) + v * 2 ^ 16) s
    else if equal flag (codes "-r")
    then next (record s { options = cleared + 0x400 })
    else invalid

-- A round of the loop, for a flag and the argument that follows it, if there is one.
unfoldable pub round : Bytes → Option Bytes → Scan → Round
round flag following s =
    if equal flag (codes "-i")
    then elim following [
      | none ↦ invalid
      | some arg ↦ if s.input || s.io_search_done then invalid else input_format arg s
    ]
    else if equal flag (codes "-o")
    then elim following [
      | none ↦ invalid
      | some arg ↦ if s.output || s.io_search_done then invalid else output_format arg s
    ]
    else transformation flag following s

-- The for loop; the result is `global_options`, and `none` is invalidargs_return.
unfoldable pub scan : List Bytes → Scan → Option ℕ
scan [] s = some s.options
scan (flag ∷ []) s = elim (round flag none s) [
  | invalid ↦ none
  | next t ↦ some t.options
  | skip t ↦ some t.options
]
scan (flag ∷ arg ∷ args) s = elim (round flag (some arg) s) [
  | invalid ↦ none
  | next t ↦ scan (arg ∷ args) t
  | skip t ↦ scan args t
]

-- `validargs`: whether it returns 0, and `global_options`.
unfoldable pub validargs : List Bytes → Bool × ℕ
validargs [] = (false, 0)
validargs (program ∷ []) = (true, 0x22)
validargs (program ∷ flag ∷ args) =
    if equal flag (codes "-h")
    then (true, help_option)
    else if ltb 7 (length (program ∷ flag ∷ args))
    then (false, 0)
    else elim (scan (flag ∷ args)
        (record { options = 0x22; input = false; output = false; io_search_done = false })) [
          | none ↦ (false, 0)
          | some options ↦ (true, options)
        ]

-- What main does: it prints how the program is used, calls a conversion, or only returns EXIT_FAILURE.
pub data Action : Type 0 where
  usage_failure usage_success : Action
  pgm_to_birp birp_to_pgm birp_to_birp pgm_to_ascii birp_to_ascii : Action
  failure : Action

unfoldable pub dispatch : Bool → ℕ → Action
dispatch valid options =
    if not valid
    then usage_failure
    else if leb help_option options
    then usage_success
    else if options == 0x21
    then pgm_to_birp
    else if options == 0x12
    then birp_to_pgm
    else if options % 256 == 0x22
    then birp_to_birp
    else if options == 0x31
    then pgm_to_ascii
    else if options == 0x32
    then birp_to_ascii
    else failure

unfoldable pub main : List Bytes → Action
main argv = let (valid, options) = validargs argv in dispatch valid options
