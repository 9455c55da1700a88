-- ===== src/Spool/Reap.antt =====
-- job_handler keeps the invariant, and finds the job and the printer of each child.
use cse320_spring.Base.{
  ℕ, ◌+◌, ◌%◌, ◌^◌, ◌<◌, ◌≡◌, ◌≢◌, ◌⊎◌, inl, inr, refl, sym, ◌∙◌, ap, some, ◌∷◌, ◌==◌,
  if◌then◌else◌, Bool-cases,
}
use cse320_spring.Base.Maps.{update, update_self, update_other}
use cse320_spring.Spool.State.{
  Printer, Job, PrinterStatus, printer_disabled, printer_idle, printer_busy, JobStatus, job_running,
  job_paused, job_finished, job_aborted, WaitStatus, exited, signaled, stopped, continued, Spooler,
  job_status, job_done, job_failed, printer_status, max_jobs,
}
use cse320_spring.Spool.Jobs.{is_busy, is_success, find_pid, child_ended, child_moved, reap}
use cse320_spring.Spool.Find.{find_pid-some, find_pid_total}
use cse320_spring.Spool.Invariant.{IsValid}
use cse320_spring.Spool.Keep.{IsValid-flags, IsValid-job}
use cse320_spring.Spool.Processes.{ended-IsValid}

-- The state after the branch for a child that has ended.
abbrev pub ending : WaitStatus → JobStatus
ending status = if is_success status then job_finished else job_aborted

abbrev job_end : Job → ℕ → WaitStatus → Job
job_end j time status = record j { pid = 0; status = ending status; timestamp = time }

abbrev printer_end : Printer → Printer
printer_end p = record p { pid = 0; status = if is_busy p.status then printer_idle else p.status }

abbrev pub ended : Spooler → ℕ → WaitStatus → ℕ → ℕ → Spooler
ended s time status i p =
    let told =
      (if is_success status then job_done i 0 else job_failed i status)
      ∷ (job_status i (ending status) ∷ s.reports) in
    record s {
      job_process_count = (s.job_process_count + 4294967295) % 2 ^ 32;
      jobs = update s.jobs i (job_end (s.jobs i) time status);
      printers = update s.printers p (printer_end (s.printers p));
      reports =
          if is_busy (s.printers p).status
          then printer_status (s.printers p).name printer_idle ∷ told
          else told;
    }

module _ (s : Spooler) (v : IsValid s) (pid : ℕ) (some_pid : pid ≢ 0) (p₀ : ℕ)
    (held : (s.printers p₀).pid ≡ pid) where
  -- The job and the printer that are found.
  pub found_job :
      (i : ℕ) × (find_pid max_jobs 0 pid (λ i. (s.jobs i).pid) ≡ some i)
      × (i < max_jobs)
      × ((s.jobs i).pid ≡ pid)
  found_job =
      let (j, k, e) = v.job_of p₀ (λ z. some_pid (sym held ∙ z)) in
      let (i, found) = find_pid_total max_jobs pid j (λ i. (s.jobs i).pid) k (e ∙ held) in
      let (a, b) = find_pid-some max_jobs pid i (λ i. (s.jobs i).pid) found in (i, found, a, b)

  pub found_printer :
      (p : ℕ) × (find_pid s.printer_count 0 pid (λ p. (s.printers p).pid) ≡ some p)
      × (p < s.printer_count)
      × ((s.printers p).pid ≡ pid)
  found_printer =
      let (i, _, _, f) = found_job in
      let (q, k, e) = v.printer_of i (λ z. some_pid (sym f ∙ z)) in
      let (p, found) = find_pid_total s.printer_count pid q (λ p. (s.printers p).pid) k (e ∙ f) in
      let (a, b) = find_pid-some s.printer_count pid p (λ p. (s.printers p).pid) found in
      (p, found, a, b)

  pub child_ended_lem :
      (time : ℕ) (status : WaitStatus)
      → child_ended time pid status s ≡ some (ended s time status (found_job.0) (found_printer.0))
  unfolding child_ended
  child_ended_lem time status = rw (found_job.1, found_printer.1)

  not_busy : (st : PrinterStatus) → (if is_busy st then printer_idle else st) ≢ printer_busy
  not_busy printer_disabled = λ e. cc
  not_busy printer_idle = λ e. cc
  not_busy printer_busy = λ e. cc

  ending_cases :
      (status : WaitStatus) → (ending status ≡ job_finished) ⊎ (ending status ≡ job_aborted)
  ending_cases status = elim (Bool-cases (is_success status)) [
    | inl t ↦ inl (rw t)
    | inr t ↦ inr (rw t)
  ]

  pub ended_keeps :
      (time : ℕ) (status : WaitStatus) (i p : ℕ)
      → i < max_jobs
      → (s.jobs i).pid ≡ pid
      → p < s.printer_count
      → (s.printers p).pid ≡ pid
      → IsValid (ended s time status i p)
  ended_keeps time status i p li ei lp ep =
      let jobs = (ended s time status i p).jobs in
      let printers = (ended s time status i p).printers in
      let job = update_self s.jobs i (job_end (s.jobs i) time status) in
      let printer = update_self s.printers p (printer_end (s.printers p)) in
      let w =
        ended-IsValid s v p i printers jobs lp li
          (λ q h. update_other s.printers p q (printer_end (s.printers p)) h)
          (λ j h. update_other s.jobs i j (job_end (s.jobs i) time status) h)
          (λ z. some_pid (sym ep ∙ z)) (ei ∙ sym ep) (ap (λ (x : Printer). x.pid) printer)
          (λ z. not_busy (s.printers p).status (sym (ap (λ (x : Printer). x.status) printer) ∙ z))
          (ap (λ (x : Job). x.pid) job)
          (elim (ending_cases status) [
            | inl e ↦ inl (ap (λ (x : Job). x.status) job ∙ e)
            | inr e ↦ inr (ap (λ (x : Job). x.status) job ∙ e)
          ]) in
      IsValid-flags (record s { printers = printers; jobs = jobs }) w
        (ended s time status i p).job_process_count s.jobs_done s.program_failure
        (ended s time status i p).reports

-- A child that was stopped or continued.
module _ (s : Spooler) (v : IsValid s) (i : ℕ) (status : JobStatus)
    (h : (status ≡ job_running) ⊎ (status ≡ job_paused)) where
  pub moved_keeps :
      (s.jobs i).pid ≢ 0
      → IsValid (record s {
        jobs = update s.jobs i (record (s.jobs i) { status = status });
        reports = job_status i status ∷ s.reports;
      })
  moved_keeps some_pid =
      let w =
        IsValid-job s v i s.job_count (s.jobs i).timestamp (s.jobs i).eligible (s.jobs i).file
          (s.jobs i).type status v.mask (λ j k. refl)
          (λ k. (v.running_taken i k, v.running_unstamped i k, h)) (λ _. some_pid)
          (λ k. absurd (k (v.running_unstamped i some_pid))) in
      IsValid-flags (record s { jobs = update s.jobs i (record (s.jobs i) { status = status }) }) w
        s.job_process_count s.jobs_done s.program_failure (job_status i status ∷ s.reports)

-- The state after one round of job_handler, for the job and the printer that have the pid.
abbrev moved : ℕ → JobStatus → Spooler → Spooler
moved i status s = record s {
  jobs = update s.jobs i (record (s.jobs i) { status = status });
  reports = job_status i status ∷ s.reports;
}

abbrev pub changed : ℕ → WaitStatus → ℕ → ℕ → Spooler → Spooler
changed time (exited code) i p s = ended s time (exited code) i p
changed time (signaled sig) i p s = ended s time (signaled sig) i p
changed time stopped i p s = moved i job_paused s
changed time continued i p s = moved i job_running s

abbrev pub settled : Spooler → Spooler
settled s = record s { jobs_done = if s.job_process_count == 0 then 0 else s.jobs_done }

-- A child whose pid some printer has: job_handler takes note of it at the one job and the one printer
-- that have the pid.
pub reap_lem :
    (s : Spooler) (time pid p₀ : ℕ) (status : WaitStatus)
    → IsValid s
    → pid ≢ 0
    → (s.printers p₀).pid ≡ pid
    → (i : ℕ) × (p : ℕ) × (i < max_jobs)
      × ((s.jobs i).pid ≡ pid)
      × (p < s.printer_count)
      × ((s.printers p).pid ≡ pid)
      × (reap time pid status s ≡ some (settled (changed time status i p s)))
      × IsValid (settled (changed time status i p s))
unfolding reap child_moved
reap_lem s time pid p₀ status v h held =
    let (i, fi, li, ei) = found_job s v pid h p₀ held in
    let (p, fp, lp, ep) = found_printer s v pid h p₀ held in
    let over = child_ended_lem s v pid h p₀ held time in
    let keep = λ (x : Spooler) (k : IsValid x).
      IsValid-flags x k x.job_process_count (settled x).jobs_done x.program_failure x.reports in
    elim status
      as (λ st.
        (i : ℕ) × (p : ℕ) × (i < max_jobs)
        × ((s.jobs i).pid ≡ pid)
        × (p < s.printer_count)
        × ((s.printers p).pid ≡ pid)
        × (reap time pid st s ≡ some (settled (changed time st i p s)))
        × IsValid (settled (changed time st i p s))) [
          | exited code ↦ (
            i,
            p,
            li,
            ei,
            lp,
            ep,
            rw (over (exited code)),
            keep (ended s time (exited code) i p)
                (ended_keeps s v pid h p₀ held time (exited code) i p li ei lp ep),
          )
          | signaled sig ↦ (
            i,
            p,
            li,
            ei,
            lp,
            ep,
            rw (over (signaled sig)),
            keep (ended s time (signaled sig) i p)
                (ended_keeps s v pid h p₀ held time (signaled sig) i p li ei lp ep),
          )
          | stopped ↦ (
            i,
            p,
            li,
            ei,
            lp,
            ep,
            rw fi,
            keep (moved i job_paused s)
                (moved_keeps s v i job_paused (inr refl) (λ z. h (sym ei ∙ z))),
          )
          | continued ↦ (
            i,
            p,
            li,
            ei,
            lp,
            ep,
            rw fi,
            keep (moved i job_running s)
                (moved_keeps s v i job_running (inl refl) (λ z. h (sym ei ∙ z))),
          )
        ]
