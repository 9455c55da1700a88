-- ===== src/Spool/Processes.antt =====
-- A process that starts for a job on a printer, and one that ends.
use cse320_spring.Base.{ℕ, ◌<◌, ◌≡◌, ◌≢◌, ◌⊎◌, inl, inr, sym, ◌∙◌, ap, true, arith, eq_cases}
use cse320_spring.Spool.Mask.{test_bit}
use cse320_spring.Spool.State.{
  Printer, Job, printer_busy, job_running, job_finished, job_aborted, Spooler, max_jobs,
}
use cse320_spring.Spool.Invariant.{IsValid}

module _ (s : Spooler) (v : IsValid s) (p i : ℕ) (printers : ℕ → Printer) (jobs : ℕ → Job)
    (in_printers : p < s.printer_count) (in_jobs : i < max_jobs)
    (printers_other : (q : ℕ) → q ≢ p → printers q ≡ s.printers q)
    (jobs_other : (j : ℕ) → j ≢ i → jobs j ≡ s.jobs j) where
  module _ (pid : ℕ) (some_pid : pid ≢ 0) (printer_pid : (printers p).pid ≡ pid)
      (printer_status : (printers p).status ≡ printer_busy) (job_pid : (jobs i).pid ≡ pid)
      (job_status : (jobs i).status ≡ job_running) (job_stamp : (jobs i).timestamp ≡ 0)
      (was_idle : (s.printers p).pid ≡ 0) (was_waiting : (s.jobs i).pid ≡ 0)
      (taken : test_bit s.job_count i ≡ true) (fresh : (q : ℕ) → (s.printers q).pid ≢ pid) where
    fresh_job : (j : ℕ) → (s.jobs j).pid ≢ pid
    fresh_job j e = let (q, k, f) = v.printer_of j (λ z. some_pid (sym e ∙ z)) in fresh q (f ∙ e)

    started_job_of :
        (q : ℕ)
        → (printers q).pid ≢ 0
        → (j : ℕ) × (j < max_jobs) × ((jobs j).pid ≡ (printers q).pid)
    started_job_of q h = elim (eq_cases q p) [
      | inl e ↦ (i, in_jobs, job_pid ∙ (sym printer_pid ∙ ap (λ k. (printers k).pid) (sym e)))
      | inr ne ↦
          let same = ap (λ (x : Printer). x.pid) (printers_other q ne) in
          let (j, k, f) = v.job_of q (λ z. h (same ∙ z)) in
          let other : j ≢ i =
            λ e. h (same ∙ (sym f ∙ (ap (λ k. (s.jobs k).pid) e ∙ was_waiting))) in
          (j, k, ap (λ (x : Job). x.pid) (jobs_other j other) ∙ (f ∙ sym same))
    ]

    started_printer_of :
        (j : ℕ)
        → (jobs j).pid ≢ 0
        → (q : ℕ) × (q < s.printer_count) × ((printers q).pid ≡ (jobs j).pid)
    started_printer_of j h = elim (eq_cases j i) [
      | inl e ↦ (p, in_printers, printer_pid ∙ (sym job_pid ∙ ap (λ k. (jobs k).pid) (sym e)))
      | inr ne ↦
          let same = ap (λ (x : Job). x.pid) (jobs_other j ne) in
          let (q, k, f) = v.printer_of j (λ z. h (same ∙ z)) in
          let other : q ≢ p =
            λ e. h (same ∙ (sym f ∙ (ap (λ k. (s.printers k).pid) e ∙ was_idle))) in
          (q, k, ap (λ (x : Printer). x.pid) (printers_other q other) ∙ (f ∙ sym same))
    ]

    pub started-IsValid : IsValid (record s { printers = printers; jobs = jobs })
    started-IsValid = record {
      few_printers = v.few_printers;
      mask = v.mask;
      spare = λ q h. ground (arith, printers_other q, v.spare q);
      idle_free = λ q h. ground (arith, printers_other q, v.idle_free q);
      busy_held = λ q h. ground (arith, printers_other q, v.busy_held q);
      job_of = started_job_of;
      printer_of = started_printer_of;
      one_printer = λ q r h e.
          ground (arith, printers_other q, printers_other r, v.one_printer q r, fresh q, fresh r);
      one_job = λ j k h e.
          ground (arith, jobs_other j, jobs_other k, v.one_job j k, fresh_job j, fresh_job k);
      running_taken = λ j h. ground (arith, jobs_other j, v.running_taken j);
      running_unstamped = λ j h. ground (arith, jobs_other j, v.running_unstamped j);
      running_status = λ j h. ground (arith, jobs_other j, v.running_status j);
      active_pid = λ j h. ground (arith, jobs_other j, v.active_pid j);
      stamped_taken = λ j h. ground (arith, jobs_other j, v.stamped_taken j);
      stamped_status = λ j h. ground (arith, jobs_other j, v.stamped_status j);
    }

  module _ (held : (s.printers p).pid ≢ 0) (together : (s.jobs i).pid ≡ (s.printers p).pid)
      (printer_pid : (printers p).pid ≡ 0) (printer_status : (printers p).status ≢ printer_busy)
      (job_pid : (jobs i).pid ≡ 0)
      (job_status : ((jobs i).status ≡ job_finished) ⊎ ((jobs i).status ≡ job_aborted)) where
    ended_job_of :
        (q : ℕ)
        → (printers q).pid ≢ 0
        → (j : ℕ) × (j < max_jobs) × ((jobs j).pid ≡ (printers q).pid)
    ended_job_of q h =
        let ne : q ≢ p = λ e. h (ap (λ k. (printers k).pid) e ∙ printer_pid) in
        let same = ap (λ (x : Printer). x.pid) (printers_other q ne) in
        let (j, k, f) = v.job_of q (λ z. h (same ∙ z)) in
        let other : j ≢ i = λ e. ne (
          v.one_printer q p (λ z. h (same ∙ z))
            (sym f ∙ (ap (λ k. (s.jobs k).pid) e ∙ together))) in
        (j, k, ap (λ (x : Job). x.pid) (jobs_other j other) ∙ (f ∙ sym same))

    ended_printer_of :
        (j : ℕ)
        → (jobs j).pid ≢ 0
        → (q : ℕ) × (q < s.printer_count) × ((printers q).pid ≡ (jobs j).pid)
    ended_printer_of j h =
        let ne : j ≢ i = λ e. h (ap (λ k. (jobs k).pid) e ∙ job_pid) in
        let same = ap (λ (x : Job). x.pid) (jobs_other j ne) in
        let (q, k, f) = v.printer_of j (λ z. h (same ∙ z)) in
        let other : q ≢ p = λ e. ne (
          v.one_job j i (λ z. h (same ∙ z))
            (sym f ∙ (ap (λ k. (s.printers k).pid) e ∙ sym together))) in
        (q, k, ap (λ (x : Printer). x.pid) (printers_other q other) ∙ (f ∙ sym same))

    pub ended-IsValid : IsValid (record s { printers = printers; jobs = jobs })
    ended-IsValid = record {
      few_printers = v.few_printers;
      mask = v.mask;
      spare = λ q h. ground (arith, printers_other q, v.spare q);
      idle_free = λ q h. ground (arith, printers_other q, v.idle_free q);
      busy_held = λ q h. ground (arith, printers_other q, v.busy_held q);
      job_of = ended_job_of;
      printer_of = ended_printer_of;
      one_printer =
          λ q r h e. ground (arith, printers_other q, printers_other r, v.one_printer q r);
      one_job = λ j k h e. ground (arith, jobs_other j, jobs_other k, v.one_job j k);
      running_taken = λ j h. ground (arith, jobs_other j, v.running_taken j);
      running_unstamped = λ j h. ground (arith, jobs_other j, v.running_unstamped j);
      running_status = λ j h. ground (arith, jobs_other j, v.running_status j);
      active_pid = λ j h. ground (arith, jobs_other j, v.active_pid j);
      stamped_taken = λ j h. ground (arith, jobs_other j, v.stamped_taken j, v.running_taken i);
      stamped_status = λ j h. ground (arith, jobs_other j, v.stamped_status j);
    }
