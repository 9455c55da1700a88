-- ===== src/Spool/Invariant.antt =====
-- What holds of the tables of printers and jobs between two steps.
use cse320_spring.Base.{ℕ, ◌^◌, ◌≤◌, ◌<◌, ◌≡◌, ◌≢◌, ◌⊎◌, inl, inr, refl, true, false, [], arith}
use cse320_spring.Spool.Mask.{test_bit}
use cse320_spring.Spool.State.{
  FileType, printer_disabled, printer_idle, printer_busy, job_created, job_running, job_paused,
  job_finished, job_aborted, Spooler, max_printers, max_jobs,
}

-- A printer that is idle runs no process, and one that is busy runs one. A process runs for one job
-- on one printer, and for a slot that is taken. A job has a time stamp only when it has ended.
pub record IsValid (s : Spooler) : Type 0 where
  pub few_printers : s.printer_count ≤ max_printers
  pub mask : s.job_count < 2 ^ 64
  pub spare : (p : ℕ) → s.printer_count ≤ p → (s.printers p).pid ≡ 0
  pub idle_free : (p : ℕ) → (s.printers p).status ≡ printer_idle → (s.printers p).pid ≡ 0
  pub busy_held : (p : ℕ) → (s.printers p).status ≡ printer_busy → (s.printers p).pid ≢ 0
  pub job_of :
      (p : ℕ)
      → (s.printers p).pid ≢ 0
      → (i : ℕ) × (i < max_jobs) × ((s.jobs i).pid ≡ (s.printers p).pid)
  pub printer_of :
      (i : ℕ)
      → (s.jobs i).pid ≢ 0
      → (p : ℕ) × (p < s.printer_count) × ((s.printers p).pid ≡ (s.jobs i).pid)
  pub one_printer :
      (p q : ℕ) → (s.printers p).pid ≢ 0 → (s.printers p).pid ≡ (s.printers q).pid → p ≡ q
  pub one_job : (i j : ℕ) → (s.jobs i).pid ≢ 0 → (s.jobs i).pid ≡ (s.jobs j).pid → i ≡ j
  pub running_taken : (i : ℕ) → (s.jobs i).pid ≢ 0 → test_bit s.job_count i ≡ true
  pub running_unstamped : (i : ℕ) → (s.jobs i).pid ≢ 0 → (s.jobs i).timestamp ≡ 0
  pub running_status :
      (i : ℕ)
      → (s.jobs i).pid ≢ 0
      → ((s.jobs i).status ≡ job_running) ⊎ ((s.jobs i).status ≡ job_paused)
  pub active_pid :
      (i : ℕ)
      → ((s.jobs i).status ≡ job_running) ⊎ ((s.jobs i).status ≡ job_paused)
      → (s.jobs i).pid ≢ 0
  pub stamped_taken : (i : ℕ) → (s.jobs i).timestamp ≢ 0 → test_bit s.job_count i ≡ true
  pub stamped_status :
      (i : ℕ)
      → (s.jobs i).timestamp ≢ 0
      → ((s.jobs i).status ≡ job_finished) ⊎ ((s.jobs i).status ≡ job_aborted)

abbrev pub blank : FileType
blank = record { name = []; index = 0 }

-- Static storage is zeroed: the first constructors are the statuses of an empty slot.
abbrev pub initial : Spooler
initial = record {
  printers = λ p. record { name = []; type = blank; status = printer_disabled; pid = 0 };
  printer_count = 0;
  jobs = λ i. record {
    file = [];
    eligible = 0;
    type = blank;
    status = job_created;
    pid = 0;
    timestamp = 0;
  };
  job_count = 0;
  job_process_count = 0;
  jobs_done = 0;
  program_failure = false;
  reports = [];
}

pub initial-IsValid : IsValid initial
initial-IsValid = record {
  few_printers = omega arith;
  mask = omega arith;
  spare = λ p h. refl;
  idle_free = λ p h. refl;
  busy_held = λ p h. cc;
  job_of = λ p h. absurd (h refl);
  printer_of = λ i h. absurd (h refl);
  one_printer = λ p q h e. absurd (h refl);
  one_job = λ i j h e. absurd (h refl);
  running_taken = λ i h. absurd (h refl);
  running_unstamped = λ i h. absurd (h refl);
  running_status = λ i h. absurd (h refl);
  active_pid = λ i h. elim h [ inl e ↦ absurd (cc) | inr e ↦ absurd (cc) ];
  stamped_taken = λ i h. absurd (h refl);
  stamped_status = λ i h. absurd (h refl);
}
