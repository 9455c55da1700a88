-- ===== src/Spool/Lines.antt =====
-- Every command of hw4/src/cli.c keeps the invariant.
use cse320_spring.Base.{
  ℕ, ◌≡◌, ◌≢◌, inl, inr, refl, List, ◌∷◌, arith, ◌==◌, Bool-cases, Option-cases,
}
use cse320_spring.Base.Text.{Bytes}
use cse320_spring.Spool.Mask.{test_bit}
use cse320_spring.Spool.State.{
  PrinterStatus, printer_disabled, printer_idle, printer_busy, job_aborted, exited, Spooler, Report,
  report, find_printer_name, define_printer, job_failed, job_status,
}
use cse320_spring.Spool.Words.{job_number}
use cse320_spring.Spool.Commands.{
  World, run_printer, run_conversion, run_cancel, run_pause, run_resume, set_status, run_disable,
  run_enable,
}
use cse320_spring.Spool.Invariant.{IsValid}
use cse320_spring.Spool.Keep.{IsValid-flags, IsValid-printer, IsValid-job}
use cse320_spring.Spool.Tables.{define_printer-IsValid}

pub report-IsValid : (e : Report) (s : Spooler) → IsValid s → IsValid (report e s)
report-IsValid e s v =
    IsValid-flags s v s.job_process_count s.jobs_done s.program_failure (e ∷ s.reports)

pub run_printer-IsValid :
    (w : World) (a b : Bytes) (s : Spooler) → IsValid s → IsValid (run_printer w a b s)
unfolding run_printer
run_printer-IsValid w a b s v = elim (Option-cases (find_printer_name a s)) [
  | inr (p, e) ↦ rw (run_printer, e) (report-IsValid _ s v)
  | inl n ↦ elim (Option-cases (w.find_type b)) [
    | inl e ↦ rw (run_printer, n, e) (report-IsValid _ s v)
    | inr (type, e) ↦
        let v' = define_printer-IsValid w.malloc a type s v in
        elim (Option-cases (define_printer w.malloc a type s).0) [
          | inl m ↦
              rw (run_printer, n, e, m) (report-IsValid _ (define_printer w.malloc a type s).1 v')
          | inr (p, m) ↦
              rw (run_printer, n, e, m)
                (report-IsValid _ _ (report-IsValid _ (define_printer w.malloc a type s).1 v'))
        ]
  ]
]

pub run_conversion-IsValid :
    (w : World) (a b : Bytes) (c : List Bytes) (s : Spooler)
    → IsValid s
    → IsValid (run_conversion w a b c s)
unfolding run_conversion
run_conversion-IsValid w a b c s v = elim (Option-cases (w.find_type a)) [
  | inl e ↦ rw (run_conversion, e) (report-IsValid _ s v)
  | inr (t, e) ↦ elim (Option-cases (w.find_type b)) [
    | inl f ↦ rw (run_conversion, e, f) (report-IsValid _ s v)
    | inr (u, f) ↦ elim (Bool-cases (w.define_conversion a b c)) [
      | inl d ↦ rw (run_conversion, e, f, d) (report-IsValid _ s v)
      | inr d ↦ rw (run_conversion, e, f, d) (report-IsValid _ s v)
    ]
  ]
]

pub run_cancel-IsValid :
    (w : World) (a : Bytes) (s : Spooler) → IsValid s → IsValid (run_cancel w a s)
unfolding run_cancel
run_cancel-IsValid w a s v = elim (Option-cases (job_number a)) [
  | inl e ↦ rw (run_cancel, e) (report-IsValid _ s v)
  | inr (i, e) ↦ elim (Bool-cases ((s.jobs i).pid == 0)) [
    | inr t ↦ rw (run_cancel, e, t) (report-IsValid _ _ (report-IsValid _ _ (report-IsValid _ s v)))
    | inl t ↦ elim (Bool-cases (test_bit s.job_count i)) [
      | inr u ↦ rw (run_cancel, e, t, u) (report-IsValid _ s v)
      | inl u ↦
          let none_running : (s.jobs i).pid ≡ 0 = ground arith in
          let k =
            IsValid-job s v i s.job_count w.time (s.jobs i).eligible (s.jobs i).file (s.jobs i).type
              job_aborted v.mask (λ j n. refl) (λ z. absurd (z none_running))
              (λ z. elim z [ inl e ↦ absurd (cc) | inr e ↦ absurd (cc) ]) (λ z. (u, inr refl)) in
          rw (run_cancel, e, t, u)
            (IsValid-flags _ k s.job_process_count s.jobs_done s.program_failure
              (job_failed i (exited 0) ∷ (job_status i job_aborted ∷ s.reports)))
    ]
  ]
]

pub run_pause-IsValid : (a : Bytes) (s : Spooler) → IsValid s → IsValid (run_pause a s)
unfolding run_pause
run_pause-IsValid a s v = elim (Option-cases (job_number a)) [
  | inl e ↦ rw (run_pause, e) (report-IsValid _ s v)
  | inr (i, e) ↦ elim (Bool-cases ((s.jobs i).pid == 0)) [
    | inl t ↦ rw (run_pause, e, t) (report-IsValid _ s v)
    | inr t ↦ rw (run_pause, e, t) (report-IsValid _ _ (report-IsValid _ s v))
  ]
]

pub run_resume-IsValid : (a : Bytes) (s : Spooler) → IsValid s → IsValid (run_resume a s)
unfolding run_resume
run_resume-IsValid a s v = elim (Option-cases (job_number a)) [
  | inl e ↦ rw (run_resume, e) (report-IsValid _ s v)
  | inr (i, e) ↦ elim (Bool-cases ((s.jobs i).pid == 0)) [
    | inl t ↦ rw (run_resume, e, t) (report-IsValid _ s v)
    | inr t ↦ rw (run_resume, e, t) (report-IsValid _ _ (report-IsValid _ s v))
  ]
]

set_status-IsValid :
    (p : ℕ) (status : PrinterStatus) (s : Spooler)
    → IsValid s
    → (status ≡ printer_idle → (s.printers p).pid ≡ 0)
    → (status ≡ printer_busy → (s.printers p).pid ≢ 0)
    → IsValid (set_status p status s)
set_status-IsValid p status s v idle busy = report-IsValid _ _ (
    report-IsValid _ _ (
      IsValid-printer s v p s.printer_count (s.printers p).name (s.printers p).type status idle busy
        (omega arith) v.few_printers))

pub run_disable-IsValid : (a : Bytes) (s : Spooler) → IsValid s → IsValid (run_disable a s)
unfolding run_disable
run_disable-IsValid a s v = elim (Option-cases (find_printer_name a s)) [
  | inl e ↦ rw (run_disable, e) (report-IsValid _ s v)
  | inr (p, e) ↦
      rw (run_disable, e)
        (set_status-IsValid p printer_disabled s v (λ z. absurd (cc)) (λ z. absurd (cc)))
]

pub run_enable-IsValid : (a : Bytes) (s : Spooler) → IsValid s → IsValid (run_enable a s)
unfolding run_enable
run_enable-IsValid a s v = elim (Option-cases (find_printer_name a s)) [
  | inl e ↦ rw (run_enable, e) (report-IsValid _ s v)
  | inr (p, e) ↦ elim (Bool-cases ((s.printers p).pid == 0)) [
    | inl t ↦
        rw (run_enable, e, t)
          (set_status-IsValid p printer_idle s v (λ z. ground arith) (λ z. absurd (cc)))
    | inr t ↦
        rw (run_enable, e, t)
          (set_status-IsValid p printer_busy s v (λ z. absurd (cc)) (λ z. ground arith))
  ]
]
