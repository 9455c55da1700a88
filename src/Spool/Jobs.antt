-- ===== src/Spool/Jobs.antt =====
-- Jobs that start and end: start_job, scanner and job_handler of hw4/src/custom_functions.c.
use cse320_spring.Base.{
  ℕ, zero, suc, ◌+◌, ◌%◌, ◌^◌, Bool, true, false, ◌&&◌, Option, none, some, List, [], ◌∷◌, ◌==◌,
  if◌then◌else◌,
}
use cse320_spring.Base.Maybe.{◌>>=◌}
use cse320_spring.Base.Text.{Bytes}
use cse320_spring.Base.Maps.{update}
use cse320_spring.Spool.Mask.{test_bit}
use cse320_spring.Spool.State.{
  PrinterStatus, printer_idle, printer_busy, JobStatus, job_created, job_running, job_paused,
  job_finished, job_aborted, WaitStatus, exited, signaled, stopped, continued, Spooler,
  printer_status, job_started, job_done, job_failed, job_status, max_jobs,
}

abbrev pub is_created : JobStatus → Bool
is_created job_created = true
is_created _ = false

abbrev pub is_idle : PrinterStatus → Bool
is_idle printer_idle = true
is_idle _ = false

abbrev pub is_busy : PrinterStatus → Bool
is_busy printer_busy = true
is_busy _ = false

-- What the system and the conversions library answer while the scanner runs: the commands of a
-- conversion path from one type to another, the pid that fork gives to the parent for a printer and
-- a job (`none` is -1), and whether calloc gives space for the report.
pub record Answers : Type 0 where
  pub find_conversion_path : Bytes → Bytes → Option (List Bytes)
  pub fork : ℕ → ℕ → Option ℕ
  pub calloc : ℕ → ℕ → Bool

-- The parent's side of start_job.
unfoldable pub start_job : Answers → ℕ → ℕ → List Bytes → Spooler → Option ℕ × Spooler
start_job a p i path s = elim (a.fork p i) [
  | none ↦ (none, s)
  | some pid ↦
      if a.calloc p i
      then (
        some pid,
        record s {
          jobs = update s.jobs i (record (s.jobs i) { status = job_running });
          printers = update s.printers p (record (s.printers p) { status = printer_busy });
          reports =
              job_started i (s.printers p).name pid path
              ∷ (printer_status (s.printers p).name printer_busy
                  ∷ (job_status i job_running ∷ s.reports));
        },
      )
      else (none, s)
]

-- The test of the scanner for a printer and a job.
abbrev pub is_ready : ℕ → ℕ → Spooler → Bool
is_ready p i s =
    test_bit s.job_count i
    && (test_bit (s.jobs i).eligible p
        && (is_created (s.jobs i).status && is_idle (s.printers p).status))

-- The body of the scanner's inner loop.
unfoldable pub scan_job : Answers → ℕ → ℕ → Spooler → Spooler
scan_job a p i s =
    if is_ready p i s
    then elim (a.find_conversion_path (s.jobs i).type.name (s.printers p).type.name) [
      | none ↦ s
      | some path ↦
          let (started, s') = start_job a p i path s in
          elim started [
            | none ↦ s'
            | some pid ↦ record s' {
              job_process_count = s'.job_process_count + 1;
              jobs_done = 1;
              printers = update s'.printers p (record (s'.printers p) { pid = pid });
              jobs = update s'.jobs i (record (s'.jobs i) { pid = pid });
            }
          ]
    ]
    else s

-- The inner and the outer loop, with `rounds` rounds left.
unfoldable pub scan_jobs : ℕ → Answers → ℕ → ℕ → Spooler → Spooler
scan_jobs zero a p i s = s
scan_jobs (suc rounds) a p i s = scan_jobs rounds a p (i + 1) (scan_job a p i s)

unfoldable pub scan_printers : ℕ → Answers → ℕ → Spooler → Spooler
scan_printers zero a p s = s
scan_printers (suc rounds) a p s = scan_printers rounds a (p + 1) (scan_jobs max_jobs a p 0 s)

unfoldable pub scanner : Answers → Spooler → Spooler
scanner a s = scan_printers s.printer_count a 0 s

-- The loops of job_handler that look for a pid.
unfoldable pub find_pid : ℕ → ℕ → ℕ → (ℕ → ℕ) → Option ℕ
find_pid zero i pid pids = none
find_pid (suc rounds) i pid pids =
    if pid == pids i then some i else find_pid rounds (i + 1) pid pids

-- Whether the child ended by itself with EXIT_SUCCESS.
abbrev pub is_success : WaitStatus → Bool
is_success (exited code) = code == 0
is_success _ = false

-- The branch of job_handler for a child that has ended. `none` is an index that is not initialised,
-- since no job or no printer has the pid.
unfoldable pub child_ended : ℕ → ℕ → WaitStatus → Spooler → Option Spooler
child_ended time pid status s = do
  let s₁ : Spooler = record s { job_process_count = (s.job_process_count + 4294967295) % 2 ^ 32 }
  i ← find_pid max_jobs 0 pid (λ i. (s.jobs i).pid)
  p ← find_pid s.printer_count 0 pid (λ p. (s.printers p).pid)
  let ending = if is_success status then job_finished else job_aborted
  let told = if is_success status then job_done i 0 else job_failed i status
  let job = record (s.jobs i) { pid = 0; status = ending; timestamp = time }
  let reports = told ∷ (job_status i ending ∷ s.reports)
  let busy = is_busy (s.printers p).status
  some (record s₁ {
    jobs = update s.jobs i job;
    printers = update s.printers p (record (s.printers p) {
      pid = 0;
      status = if busy then printer_idle else (s.printers p).status;
    });
    reports = if busy then printer_status (s.printers p).name printer_idle ∷ reports else reports;
  })

-- The branches for a child that was stopped or continued.
unfoldable pub child_moved : ℕ → JobStatus → Spooler → Option Spooler
child_moved pid status s = do
  i ← find_pid max_jobs 0 pid (λ i. (s.jobs i).pid)
  some (record s {
    jobs = update s.jobs i (record (s.jobs i) { status = status });
    reports = job_status i status ∷ s.reports;
  })

abbrev child_changed : ℕ → ℕ → WaitStatus → Spooler → Option Spooler
child_changed time pid (exited code) s = child_ended time pid (exited code) s
child_changed time pid (signaled sig) s = child_ended time pid (signaled sig) s
child_changed time pid stopped s = child_moved pid job_paused s
child_changed time pid continued s = child_moved pid job_running s

-- One round of the while loop of job_handler, and the loop over what waitpid returns.
unfoldable pub reap : ℕ → ℕ → WaitStatus → Spooler → Option Spooler
reap time pid status s = do
  s' ← child_changed time pid status s
  some (record s' { jobs_done = if s'.job_process_count == 0 then 0 else s'.jobs_done })

unfoldable pub job_handler : ℕ → List (ℕ × WaitStatus) → Spooler → Option Spooler
job_handler time [] s = some s
job_handler time ((pid, status) ∷ rest) s = elim (reap time pid status s) [
  | none ↦ none
  | some s' ↦ job_handler time rest s'
]
