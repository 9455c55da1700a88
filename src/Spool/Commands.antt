-- ===== src/Spool/Commands.antt =====
-- The commands of run_cli in hw4/src/cli.c.
use cse320_spring.Base.{ℕ, ◌-◌, ◌^◌, Bool, Option, none, some, List, [], ◌∷◌, ◌==◌, if◌then◌else◌}
use cse320_spring.Base.Text.{Bytes}
use cse320_spring.Base.Maps.{update}
use cse320_spring.Spool.Mask.{test_bit, set_bit}
use cse320_spring.Spool.State.{
  FileType, PrinterStatus, printer_disabled, printer_idle, printer_busy, job_aborted, exited,
  Spooler, cmd_ok, cmd_error, printer_defined, printer_status, job_made, job_failed, job_status,
  killed, sigterm, sigcont, sigstop, report, define_printer, find_printer_name, create_job,
}
use cse320_spring.Spool.Words.{job_number}

-- What the conversions library and the system answer during one command.
pub record World : Type 0 where
  pub find_type : Bytes → Option FileType
  pub infer_file_type : Bytes → Option FileType
  pub define_type : Bytes → Bool
  pub define_conversion : Bytes → Bytes → List Bytes → Bool
  pub line_malloc : Bool
  pub malloc : Bool
  pub calloc : Bool
  pub time : ℕ
  pub now : ℕ

-- sf_cmd_ok and sf_cmd_error. The text of an error and what is printed are left out.
abbrev pub ok : Spooler → Spooler
ok s = report cmd_ok s

abbrev pub error : Spooler → Spooler
error s = report cmd_error s

unfoldable pub run_printer : World → Bytes → Bytes → Spooler → Spooler
run_printer w name type_name s = elim (find_printer_name name s) [
  | some p ↦ error s
  | none ↦ elim (w.find_type type_name) [
    | none ↦ error s
    | some type ↦
        let (made, s') = define_printer w.malloc name type s in
        elim made [
          | none ↦ error s'
          | some p ↦ ok (report (printer_defined (s'.printers p).name (s'.printers p).type.name) s')
        ]
  ]
]

unfoldable pub run_conversion : World → Bytes → Bytes → List Bytes → Spooler → Spooler
run_conversion w from to command s = elim (w.find_type from) [
  | none ↦ error s
  | some t ↦ elim (w.find_type to) [
    | none ↦ error s
    | some u ↦ if w.define_conversion from to command then ok s else error s
  ]
]

-- The loop over the printers that are named: their mask, or `none` where one is unknown.
unfoldable pub printer_set : ℕ → List Bytes → Spooler → Option ℕ
printer_set m [] s = some m
printer_set m (name ∷ names) s = elim (find_printer_name name s) [
  | none ↦ none
  | some p ↦ printer_set (set_bit m p) names s
]

abbrev pub every_printer : List Bytes → ℕ
every_printer [] = 2 ^ 32 - 1
every_printer (n ∷ ns) = 0

unfoldable pub run_print : World → Bytes → List Bytes → Spooler → Option Spooler
run_print w file names s = elim (w.infer_file_type file) [
  | none ↦ some (error s)
  | some type ↦ elim (printer_set (every_printer names) names s) [
    | none ↦ some (error s)
    | some m ↦ elim (create_job w.malloc file type m s) [
      | none ↦ none
      | some (none, s') ↦ some (error s')
      | some (some i, s') ↦
          some (ok (report (job_made i (s'.jobs i).file (s'.jobs i).type.name) s'))
    ]
  ]
]

unfoldable pub run_cancel : World → Bytes → Spooler → Spooler
run_cancel w word s = elim (job_number word) [
  | none ↦ error s
  | some i ↦
      if (s.jobs i).pid == 0
      then if test_bit s.job_count i
        then record s {
          jobs = update s.jobs i (record (s.jobs i) { status = job_aborted; timestamp = w.time });
          reports = job_failed i (exited 0) ∷ (job_status i job_aborted ∷ s.reports);
        }
        else error s
      else ok (report (killed (s.jobs i).pid sigcont) (report (killed (s.jobs i).pid sigterm) s))
]

unfoldable pub run_pause : Bytes → Spooler → Spooler
run_pause word s = elim (job_number word) [
  | none ↦ error s
  | some i ↦ if (s.jobs i).pid == 0 then error s else ok (report (killed (s.jobs i).pid sigstop) s)
]

unfoldable pub run_resume : Bytes → Spooler → Spooler
run_resume word s = elim (job_number word) [
  | none ↦ error s
  | some i ↦ if (s.jobs i).pid == 0 then error s else ok (report (killed (s.jobs i).pid sigcont) s)
]

abbrev pub set_status : ℕ → PrinterStatus → Spooler → Spooler
set_status p status s = ok (
    report (printer_status (s.printers p).name status)
      (record s { printers = update s.printers p (record (s.printers p) { status = status }) }))

unfoldable pub run_disable : Bytes → Spooler → Spooler
run_disable name s = elim (find_printer_name name s) [
  | none ↦ error s
  | some p ↦ set_status p printer_disabled s
]

unfoldable pub run_enable : Bytes → Spooler → Spooler
run_enable name s = elim (find_printer_name name s) [
  | none ↦ error s
  | some p ↦ set_status p (if (s.printers p).pid == 0 then printer_idle else printer_busy) s
]
