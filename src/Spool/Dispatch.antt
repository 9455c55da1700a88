-- ===== src/Spool/Dispatch.antt =====
-- What holds of the state after a command of hw4/src/cli.c, whichever command it is.
use cse320_spring.Base.{
  ℕ, ◌^◌, ◌<◌, ◌≡◌, inl, inr, refl, Bool, true, false, Option, some, List, [], ◌∷◌, if◌then◌else◌,
  Bool-cases, Option-cases,
}
use cse320_spring.Base.Text.{Bytes}
use cse320_spring.Spool.Mask.{test_bit}
use cse320_spring.Spool.State.{FileType, Spooler, job_made, report}
use cse320_spring.Spool.Commands.{
  World, ok, error, run_printer, run_conversion, printer_set, every_printer, run_print, run_cancel,
  run_pause, run_resume, run_disable, run_enable,
}
use cse320_spring.Spool.Cli.{
  no_args, one_arg, two_args, three_args, run_print_args, is_word, run_command,
}
use cse320_spring.Spool.Tables.{with_job, create_job_lem}

-- The call gives a state with the property.
pub data Gives (P : Spooler → Type 0) : Option Spooler → Type 0 where
  gives : {o : Option Spooler} (s : Spooler) → o ≡ some s → P s → Gives P o

module _ (P : Spooler → Type 0) where
  given : (s : Spooler) → P s → Gives P (some s)
  given s v = gives s refl v

  Gives-if :
      (b : Bool) {x y : Option Spooler} → Gives P x → Gives P y → Gives P (if b then x else y)
  Gives-if true k l = k
  Gives-if false k l = l

-- A property that holds after sf_cmd_ok, after sf_cmd_error, and after each command that has a
-- function of its own, holds after any command other than quit.
module _ (P : Spooler → Type 0) (w : World) (s : Spooler) (good : P (ok s))
    (bad : P (error s)) where
  module _ (malloc : w.malloc ≡ true) (narrow : s.job_count < 2 ^ 64)
      (made : (file : Bytes) (type : FileType) (mask i : ℕ)
        → i < 64
        → test_bit s.job_count i ≡ false
        → P (
            ok (
              report
                (job_made i
                  ((with_job file type mask i s).jobs i).file
                  ((with_job file type mask i s).jobs i).type.name)
                (with_job file type mask i s)))) where
    run_print-Gives : (file : Bytes) (names : List Bytes) → Gives P (run_print w file names s)
    unfolding run_print
    run_print-Gives file names = elim (Option-cases (w.infer_file_type file)) [
      | inl e ↦ rw (run_print, e) (given P (error s) bad)
      | inr (type, e) ↦ elim (Option-cases (printer_set (every_printer names) names s)) [
        | inl f ↦ rw (run_print, e, f) (given P (error s) bad)
        | inr (mask, f) ↦ elim (create_job_lem file type mask s narrow) [
          | inl (g, _) ↦ rw (run_print, e, f, malloc, g) (given P (error s) bad)
          | inr (i, g, k, free, _) ↦
              rw (run_print, e, f, malloc, g) (given P _ (made file type mask i k free))
        ]
      ]
    ]

    run_print_args-Gives : (args : List Bytes) → Gives P (run_print_args w args s)
    run_print_args-Gives [] = given P (error s) bad
    run_print_args-Gives (file ∷ names) = run_print-Gives file names

  no_args_holds : (args : List Bytes) → P (no_args args s (ok s))
  no_args_holds [] = good
  no_args_holds (a ∷ rest) = bad

  one_arg_holds :
      (args : List Bytes) (f : Bytes → Spooler) → ((a : Bytes) → P (f a)) → P (one_arg args s f)
  one_arg_holds [] f k = bad
  one_arg_holds (a ∷ []) f k = k a
  one_arg_holds (a ∷ (b ∷ bs)) f k = bad

  two_args_holds :
      (args : List Bytes) (f : Bytes → Bytes → Spooler)
      → ((a b : Bytes) → P (f a b))
      → P (two_args args s f)
  two_args_holds [] f k = bad
  two_args_holds (a ∷ []) f k = bad
  two_args_holds (a ∷ (b ∷ [])) f k = k a b
  two_args_holds (a ∷ (b ∷ (c ∷ cs))) f k = bad

  three_args_holds :
      (args : List Bytes) (f : Bytes → Bytes → List Bytes → Spooler)
      → ((a b : Bytes) (c : List Bytes) → P (f a b c))
      → P (three_args args s f)
  three_args_holds [] f k = bad
  three_args_holds (a ∷ []) f k = bad
  three_args_holds (a ∷ (b ∷ [])) f k = bad
  three_args_holds (a ∷ (b ∷ (c ∷ cs))) f k = k a b (c ∷ cs)

  define_type_holds : (a : Bytes) → P (if w.define_type a then ok s else error s)
  define_type_holds a = elim (Bool-cases (w.define_type a)) [ inl t ↦ rw t good | inr t ↦ rw t bad ]

  pub run_command-Gives :
      (name : Bytes) (args : List Bytes)
      → w.malloc ≡ true
      → s.job_count < 2 ^ 64
      → ((file : Bytes) (type : FileType) (mask i : ℕ)
          → i < 64
          → test_bit s.job_count i ≡ false
          → P (
              ok (
                report
                  (job_made i
                    ((with_job file type mask i s).jobs i).file
                    ((with_job file type mask i s).jobs i).type.name)
                  (with_job file type mask i s))))
      → ((a b : Bytes) → P (run_printer w a b s))
      → ((a b : Bytes) (c : List Bytes) → P (run_conversion w a b c s))
      → (is_word "cancel" name ≡ true → (a : Bytes) → P (run_cancel w a s))
      → ((a : Bytes) → P (run_pause a s))
      → ((a : Bytes) → P (run_resume a s))
      → ((a : Bytes) → P (run_disable a s))
      → ((a : Bytes) → P (run_enable a s))
      → Gives P (run_command w name args s)
  unfolding run_command
  run_command-Gives name args malloc narrow made printer conversion cancel pause resume disable
        enable =
      let last =
        Gives-if P (is_word "enable" name)
          (given P _ (one_arg_holds args (λ a. run_enable a s) enable)) (given P (error s) bad) in
      let after_cancel =
        Gives-if P (is_word "pause" name)
          (given P _ (one_arg_holds args (λ a. run_pause a s) pause))
          (Gives-if P (is_word "resume" name)
            (given P _ (one_arg_holds args (λ a. run_resume a s) resume))
            (Gives-if P (is_word "disable" name)
              (given P _ (one_arg_holds args (λ a. run_disable a s) disable)) last)) in
      Gives-if P (is_word "help" name) (given P _ (no_args_holds args)) (
        Gives-if P (is_word "type" name)
          (given P _
            (one_arg_holds args (λ a. if w.define_type a then ok s else error s) define_type_holds))
          (Gives-if P (is_word "printer" name)
            (given P _ (two_args_holds args (λ a b. run_printer w a b s) printer))
            (Gives-if P (is_word "conversion" name)
              (given P _ (three_args_holds args (λ a b c. run_conversion w a b c s) conversion))
              (Gives-if P (is_word "printers" name) (given P _ (no_args_holds args)) (
                Gives-if P (is_word "jobs" name) (given P _ (no_args_holds args)) (
                  Gives-if P (is_word "print" name) (run_print_args-Gives malloc narrow made args)
                    (elim (Bool-cases (is_word "cancel" name)) [
                      | inl t ↦
                          rw t (given P _ (one_arg_holds args (λ a. run_cancel w a s) (cancel t)))
                      | inr t ↦ rw t after_cancel
                    ])))))))
