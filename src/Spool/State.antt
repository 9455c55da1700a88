-- ===== src/Spool/State.antt =====
-- The printers and jobs of hw4, their tables, and the functions of hw4/src/custom_functions.c that
-- fill them.
use cse320_spring.Base.{
  ℕ, zero, suc, ◌+◌, ◌-◌, ◌^◌, Bool, true, not, Option, none, some, List, ◌∷◌, ◌==◌, if◌then◌else◌,
}
use cse320_spring.Base.Text.{Bytes, strcmp_equal}
use cse320_spring.Base.Maps.{update}
use cse320_spring.Spool.Mask.{test_bit, set_bit}

-- `FILE_TYPE`.
pub record FileType : Type 0 where
  pub name : Bytes
  pub index : ℕ

-- `PRINTER_STATUS` and `JOB_STATUS`.
pub data PrinterStatus : Type 0 where
  printer_disabled printer_idle printer_busy : PrinterStatus

pub data JobStatus : Type 0 where
  job_created job_running job_paused job_finished job_aborted job_deleted : JobStatus

-- `PRINTER` and `JOB`. A pid is 0 where no process runs, a timestamp is 0 where the job has not
-- ended.
pub record Printer : Type 0 where
  pub name : Bytes
  pub type : FileType
  pub status : PrinterStatus
  pub pid : ℕ

pub record Job : Type 0 where
  pub file : Bytes
  pub eligible : ℕ
  pub type : FileType
  pub status : JobStatus
  pub pid : ℕ
  pub timestamp : ℕ

-- What wait reports of a child.
pub data WaitStatus : Type 0 where
  exited : ℕ → WaitStatus
  signaled : ℕ → WaitStatus
  stopped : WaitStatus
  continued : WaitStatus

pub data Signal : Type 0 where
  sigterm sigcont sigstop : Signal

-- The calls of the `sf_` functions that report to the user, and of killpg.
pub data Report : Type 0 where
  cmd_ok : Report
  cmd_error : Report
  printer_defined : Bytes → Bytes → Report
  printer_status : Bytes → PrinterStatus → Report
  job_made : ℕ → Bytes → Bytes → Report
  job_started : ℕ → Bytes → ℕ → List Bytes → Report
  job_done : ℕ → ℕ → Report
  job_failed : ℕ → WaitStatus → Report
  job_removed : ℕ → Report
  job_status : ℕ → JobStatus → Report
  killed : ℕ → Signal → Report

-- The global variables, and the reports, the last one first.
pub record Spooler : Type 0 where
  pub printers : ℕ → Printer
  pub printer_count : ℕ
  pub jobs : ℕ → Job
  pub job_count : ℕ
  pub job_process_count : ℕ
  pub jobs_done : ℕ
  pub program_failure : Bool
  pub reports : List Report

abbrev pub max_printers : ℕ
max_printers = 32

abbrev pub max_jobs : ℕ
max_jobs = 64

abbrev pub report : Report → Spooler → Spooler
report e s = record s { reports = e ∷ s.reports }

-- `define_printer`, where malloc gives space for the name or not.
unfoldable pub define_printer : Bool → Bytes → FileType → Spooler → Option ℕ × Spooler
define_printer malloc name type s =
    if s.printer_count == max_printers
    then (none, s)
    else if malloc
    then (
      some s.printer_count,
      record s {
        printer_count = s.printer_count + 1;
        printers = update s.printers s.printer_count (record (s.printers s.printer_count) {
          name = name;
          type = type;
          status = printer_disabled;
        });
      },
    )
    else (none, record s { program_failure = true })

-- The for loop of find_printer_name, with `rounds` rounds left.
unfoldable pub find_loop : ℕ → ℕ → Bytes → (ℕ → Printer) → Option ℕ
find_loop zero i name printers = none
find_loop (suc rounds) i name printers =
    if strcmp_equal (printers i).name name then some i else find_loop rounds (i + 1) name printers

unfoldable pub find_printer_name : Bytes → Spooler → Option ℕ
find_printer_name name s = find_loop s.printer_count 0 name s.printers

-- The for loop of create_job: the first slot whose bit is 0.
unfoldable pub free_slot : ℕ → ℕ → ℕ → Option ℕ
free_slot zero i m = none
free_slot (suc rounds) i m = if not (test_bit m i) then some i else free_slot rounds (i + 1) m

-- `create_job`. The outer `none` is a call of strcpy with NULL, where malloc gives no space.
unfoldable pub create_job : Bool → Bytes → FileType → ℕ → Spooler → Option (Option ℕ × Spooler)
create_job malloc file type printer_set s =
    if s.job_count == 2 ^ 64 - 1 then some (none, s) else elim (free_slot max_jobs 0 s.job_count) [
      | none ↦ some (none, s)
      | some i ↦
          if malloc
          then some (
            some i,
            record s {
              job_count = set_bit s.job_count i;
              jobs = update s.jobs i (record (s.jobs i) {
                file = file;
                type = type;
                status = job_created;
                eligible = printer_set;
              });
            },
          )
          else none
    ]
