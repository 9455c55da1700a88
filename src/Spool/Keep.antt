-- ===== src/Spool/Keep.antt =====
-- Writes to the tables of printers and jobs that keep the invariant.
use cse320_spring.Base.{ℕ, ◌^◌, ◌≤◌, ◌<◌, ◌≡◌, ◌≢◌, ◌⊎◌, sym, ◌∙◌, Bool, true, List, arith}
use cse320_spring.Base.Text.{Bytes}
use cse320_spring.Base.Maps.{update}
use cse320_spring.Spool.Mask.{test_bit}
use cse320_spring.Spool.State.{
  FileType, PrinterStatus, printer_idle, printer_busy, JobStatus, job_running, job_paused,
  job_finished, job_aborted, Spooler, Report, max_printers,
}
use cse320_spring.Spool.Invariant.{IsValid}

module _ (s : Spooler) (v : IsValid s) where
  -- The reports and the flags are not part of it.
  pub IsValid-flags :
      (n d : ℕ) (f : Bool) (r : List Report)
      → IsValid
          (record s { job_process_count = n; jobs_done = d; program_failure = f; reports = r })
  IsValid-flags n d f r = record {
    few_printers = v.few_printers;
    mask = v.mask;
    spare = v.spare;
    idle_free = v.idle_free;
    busy_held = v.busy_held;
    job_of = v.job_of;
    printer_of = v.printer_of;
    one_printer = v.one_printer;
    one_job = v.one_job;
    running_taken = v.running_taken;
    running_unstamped = v.running_unstamped;
    running_status = v.running_status;
    active_pid = v.active_pid;
    stamped_taken = v.stamped_taken;
    stamped_status = v.stamped_status;
  }

  -- A printer's name, type and status, where the status fits the pid that it has.
  pub IsValid-printer :
      (p n : ℕ) (name : Bytes) (type : FileType) (status : PrinterStatus)
      → (status ≡ printer_idle → (s.printers p).pid ≡ 0)
      → (status ≡ printer_busy → (s.printers p).pid ≢ 0)
      → s.printer_count ≤ n
      → n ≤ max_printers
      → IsValid (record s {
        printer_count = n;
        printers =
            update s.printers p
              (record (s.printers p) { name = name; type = type; status = status });
      })
  IsValid-printer p n name type status idle busy more few =
      let same : (q : ℕ)
          → (update s.printers p
              (record (s.printers p) { name = name; type = type; status = status }) q).pid
            ≡ (s.printers q).pid =
        λ q. ground arith in
      record {
        few_printers = few;
        mask = v.mask;
        spare = λ q h. same q ∙ v.spare q (omega arith);
        idle_free = λ q h. ground (arith, v.idle_free q);
        busy_held = λ q h. ground (arith, v.busy_held q);
        job_of =
            λ q h. let (i, k, e) = v.job_of q (λ z. h (same q ∙ z)) in (i, k, e ∙ sym (same q));
        printer_of = λ i h. let (q, k, e) = v.printer_of i h in (q, omega arith, same q ∙ e);
        one_printer =
            λ q r h e. v.one_printer q r (λ z. h (same q ∙ z)) (sym (same q) ∙ (e ∙ same r));
        one_job = v.one_job;
        running_taken = v.running_taken;
        running_unstamped = v.running_unstamped;
        running_status = v.running_status;
        active_pid = v.active_pid;
        stamped_taken = v.stamped_taken;
        stamped_status = v.stamped_status;
      }

  -- The status, the time stamp and the slot of a job, where they fit its pid and each other.
  pub IsValid-job :
      (i m stamp eligible : ℕ) (file : Bytes) (type : FileType) (status : JobStatus)
      → m < 2 ^ 64
      → ((j : ℕ) → j ≢ i → test_bit m j ≡ test_bit s.job_count j)
      → ((s.jobs i).pid ≢ 0
          → (test_bit m i ≡ true) × (stamp ≡ 0) × ((status ≡ job_running) ⊎ (status ≡ job_paused)))
      → ((status ≡ job_running) ⊎ (status ≡ job_paused) → (s.jobs i).pid ≢ 0)
      → (stamp ≢ 0 → (test_bit m i ≡ true) × ((status ≡ job_finished) ⊎ (status ≡ job_aborted)))
      → IsValid (record s {
        job_count = m;
        jobs = update s.jobs i (record (s.jobs i) {
          file = file;
          eligible = eligible;
          type = type;
          status = status;
          timestamp = stamp;
        });
      })
  IsValid-job i m stamp eligible file type status narrow bits running active stamped =
      let same : (j : ℕ)
          → (update s.jobs i
              (record (s.jobs i) {
                file = file;
                eligible = eligible;
                type = type;
                status = status;
                timestamp = stamp;
              })
              j).pid
            ≡ (s.jobs j).pid =
        λ j. ground arith in
      record {
        few_printers = v.few_printers;
        mask = narrow;
        spare = v.spare;
        idle_free = v.idle_free;
        busy_held = v.busy_held;
        job_of = λ q h. let (j, k, e) = v.job_of q h in (j, k, same j ∙ e);
        printer_of =
            λ j h. let (q, k, e) = v.printer_of j (λ z. h (same j ∙ z)) in (q, k, e ∙ sym (same j));
        one_printer = v.one_printer;
        one_job = λ j k h e. v.one_job j k (λ z. h (same j ∙ z)) (sym (same j) ∙ (e ∙ same k));
        running_taken = λ j h. ground (arith, v.running_taken j, bits j);
        running_unstamped = λ j h. ground (arith, v.running_unstamped j);
        running_status = λ j h. ground (arith, v.running_status j);
        active_pid = λ j h. ground (arith, v.active_pid j);
        stamped_taken = λ j h. ground (arith, v.stamped_taken j, bits j);
        stamped_status = λ j h. ground (arith, v.stamped_status j);
      }
