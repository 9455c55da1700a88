-- ===== src/Spool/Verdicts.antt =====
-- How many verdicts, sf_cmd_ok or sf_cmd_error, a command of hw4/src/cli.c gives.
use cse320_spring.Base.{
  ℕ, suc, ◌+◌, ◌^◌, ◌<◌, ◌≡◌, refl, ap, Bool, true, false, none, some, List, [], ◌∷◌, arith, ◌==◌,
  ◌&&◌, if◌then◌else◌, inl, inr, Bool-cases, Option-cases,
}
use cse320_spring.Base.Text.{Bytes}
use cse320_spring.Spool.Mask.{test_bit}
use cse320_spring.Spool.State.{
  FileType, Spooler, Report, cmd_ok, cmd_error, define_printer, find_printer_name, max_printers,
}
use cse320_spring.Spool.Words.{job_number}
use cse320_spring.Spool.Commands.{
  World, run_printer, run_conversion, run_cancel, run_pause, run_resume, run_disable, run_enable,
}
use cse320_spring.Spool.Cli.{is_word, run_command}
use cse320_spring.Spool.Dispatch.{gives, run_command-Gives}

abbrev pub verdicts : List Report → ℕ
verdicts [] = 0
verdicts (cmd_ok ∷ rs) = suc (verdicts rs)
verdicts (cmd_error ∷ rs) = suc (verdicts rs)
verdicts (r ∷ rs) = verdicts rs

abbrev One : Spooler → Spooler → Type 0
One s s' = verdicts s'.reports ≡ suc (verdicts s.reports)

define_printer_reports :
    (m : Bool) (name : Bytes) (type : FileType) (s : Spooler)
    → (define_printer m name type s).1.reports ≡ s.reports
unfolding define_printer
define_printer_reports m name type s = elim (Bool-cases (s.printer_count == max_printers)) [
  | inl t ↦ rw (define_printer, t)
  | inr t ↦ elim m as (λ m. (define_printer m name type s).1.reports ≡ s.reports) [
    | true ↦ rw (define_printer, t)
    | false ↦ rw (define_printer, t)
  ]
]

run_printer-One : (w : World) (a b : Bytes) (s : Spooler) → One s (run_printer w a b s)
unfolding run_printer
run_printer-One w a b s = elim (Option-cases (find_printer_name a s)) [
  | inr (p, e) ↦ rw (run_printer, e)
  | inl n ↦ elim (Option-cases (w.find_type b)) [
    | inl e ↦ rw (run_printer, n, e)
    | inr (type, e) ↦
        let same = ap (λ r. suc (verdicts r)) (define_printer_reports w.malloc a type s) in
        elim (Option-cases (define_printer w.malloc a type s).0) [
          | inl m ↦ rw (run_printer, n, e, m) same
          | inr (p, m) ↦ rw (run_printer, n, e, m) same
        ]
  ]
]

run_conversion-One :
    (w : World) (a b : Bytes) (c : List Bytes) (s : Spooler) → One s (run_conversion w a b c s)
unfolding run_conversion
run_conversion-One w a b c s = elim (Option-cases (w.find_type a)) [
  | inl e ↦ rw (run_conversion, e)
  | inr (t, e) ↦ elim (Option-cases (w.find_type b)) [
    | inl f ↦ rw (run_conversion, e, f)
    | inr (u, f) ↦ elim (Bool-cases (w.define_conversion a b c)) [
      | inl d ↦ rw (run_conversion, e, f, d)
      | inr d ↦ rw (run_conversion, e, f, d)
    ]
  ]
]

run_pause-One : (a : Bytes) (s : Spooler) → One s (run_pause a s)
unfolding run_pause
run_pause-One a s = elim (Option-cases (job_number a)) [
  | inl e ↦ rw (run_pause, e)
  | inr (i, e) ↦ elim (Bool-cases ((s.jobs i).pid == 0)) [
    | inl t ↦ rw (run_pause, e, t)
    | inr t ↦ rw (run_pause, e, t)
  ]
]

run_resume-One : (a : Bytes) (s : Spooler) → One s (run_resume a s)
unfolding run_resume
run_resume-One a s = elim (Option-cases (job_number a)) [
  | inl e ↦ rw (run_resume, e)
  | inr (i, e) ↦ elim (Bool-cases ((s.jobs i).pid == 0)) [
    | inl t ↦ rw (run_resume, e, t)
    | inr t ↦ rw (run_resume, e, t)
  ]
]

run_disable-One : (a : Bytes) (s : Spooler) → One s (run_disable a s)
unfolding run_disable
run_disable-One a s = elim (Option-cases (find_printer_name a s)) [
  | inl e ↦ rw (run_disable, e)
  | inr (p, e) ↦ rw (run_disable, e)
]

run_enable-One : (a : Bytes) (s : Spooler) → One s (run_enable a s)
unfolding run_enable
run_enable-One a s = elim (Option-cases (find_printer_name a s)) [
  | inl e ↦ rw (run_enable, e)
  | inr (p, e) ↦ rw (run_enable, e)
]

-- The argument of cancel is the number of a job that is in a slot and runs no process.
abbrev pub waits : Bytes → Spooler → Bool
waits a s = elim (job_number a) [
  | none ↦ false
  | some i ↦ (s.jobs i).pid == 0 && test_bit s.job_count i
]

-- cancel gives no verdict for a job that is in a slot and runs no process, and just one otherwise.
pub run_cancel-verdicts :
    (w : World) (a : Bytes) (s : Spooler)
    → verdicts (run_cancel w a s).reports ≡ (if waits a s then 0 else 1) + verdicts s.reports
unfolding run_cancel
run_cancel-verdicts w a s = elim (Option-cases (job_number a)) [
  | inl e ↦ let z : waits a s ≡ false = rw (waits, e) in rw (z, run_cancel, e) (omega arith)
  | inr (i, e) ↦ elim (Bool-cases ((s.jobs i).pid == 0)) [
    | inr t ↦ let z : waits a s ≡ false = rw (waits, e, t) in rw (z, run_cancel, e, t) (omega arith)
    | inl t ↦ elim (Bool-cases (test_bit s.job_count i)) [
      | inl u ↦
          let z : waits a s ≡ true = rw (waits, e, t, u) in
          rw (z, run_cancel, e, t, u) (omega arith)
      | inr u ↦
          let z : waits a s ≡ false = rw (waits, e, t, u) in
          rw (z, run_cancel, e, t, u) (omega arith)
    ]
  ]
]

-- Where malloc gives space for a file name and the table of slots is a 64-bit mask, each command
-- other than quit and cancel, whatever its arguments, gives just one verdict.
pub run_command-verdicts :
    (w : World) (name : Bytes) (args : List Bytes) (s : Spooler)
    → w.malloc ≡ true
    → s.job_count < 2 ^ 64
    → is_word "cancel" name ≡ false
    → (s' : Spooler) × (run_command w name args s ≡ some s')
      × (verdicts s'.reports ≡ suc (verdicts s.reports))
run_command-verdicts w name args s m h c =
    elim (run_command-Gives (One s) w s refl refl name args m h (λ file type mask i k free. refl)
      (λ a b. run_printer-One w a b s) (λ a b d. run_conversion-One w a b d s) (λ t a. absurd (cc))
      (λ a. run_pause-One a s) (λ a. run_resume-One a s) (λ a. run_disable-One a s)
      (λ a. run_enable-One a s)) [ gives s' e v ↦ (s', e, v) ]
