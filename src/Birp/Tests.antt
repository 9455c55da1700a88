-- ===== src/Birp/Tests.antt =====
-- Command lines of hw1, and the theorems applied to them.
use cse320_spring.Base.{ℕ, ◌≡◌, ◌⊎◌, ◌↔◌, refl, true, false, List, [], ◌∷◌, arith}
use cse320_spring.Base.Text.{Bytes, codes, strcmp_equal}
use cse320_spring.Birp.Strings.{
  equal, compare_strings, compare_from, string_to_int, digits_from, empty, more, equal-strcmp_equal,
}
use cse320_spring.Birp.Args.{
  help_option, transformation, round, scan, validargs, failure, birp_to_birp, dispatch, main,
}
use cse320_spring.Birp.Options.{IsFormats, IsTransformed, validargs_lem, main_failure}

abbrev zoom_out : List Bytes
zoom_out = codes "birp" ∷ codes "-z" ∷ codes "1" ∷ []

zoom_out_options : validargs zoom_out ≡ (true, 0xff0322)
unfolding validargs scan round transformation equal compare_strings compare_from string_to_int
    digits_from
zoom_out_options = refl

zoom_out_runs : main zoom_out ≡ birp_to_birp
unfolding main dispatch validargs scan round transformation equal compare_strings compare_from
    string_to_int digits_from
zoom_out_runs = refl

two_inputs :
    validargs (codes "birp" ∷ codes "-i" ∷ codes "pgm" ∷ codes "-i" ∷ codes "pgm" ∷ []) ≡ (false, 0)
unfolding validargs scan round transformation equal compare_strings compare_from
two_inputs = refl

validargs_lem_example :
    (validargs zoom_out ≡ (false, 0))
    ⊎ ((x : ℕ) × (validargs zoom_out ≡ (true, x))
        × ((x ≡ help_option) ⊎ (IsFormats x ⊎ IsTransformed x)))
validargs_lem_example = validargs_lem zoom_out

main_failure_example : (main zoom_out ≡ failure) ↔ (validargs zoom_out ≡ (true, 0x11))
main_failure_example = main_failure zoom_out

equal-strcmp_equal_example :
    equal (codes "-n") (codes "-no") ≡ strcmp_equal (codes "-n") (codes "-no")
equal-strcmp_equal_example =
    equal-strcmp_equal (codes "-n") (codes "-no") (more (omega arith) (more (omega arith) empty))
      (more (omega arith) (more (omega arith) (more (omega arith) empty)))
