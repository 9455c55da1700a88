-- ===== src/Spool/ScanKeep.antt =====
-- The loops of the scanner keep the invariant.
use cse320_spring.Base.{
  ℕ, zero, suc, ◌+◌, ◌≤◌, ◌<◌, ◌≡◌, inl, inr, refl, sym, ◌∙◌, ap, Bool, true, false, some, arith,
  ◌&&◌, eq_cases, List, subst,
}
use cse320_spring.Base.Text.{Bytes}
use cse320_spring.Base.Maps.{update, update_self, update_other}
use cse320_spring.Spool.Mask.{test_bit, test_bit-lt}
use cse320_spring.Spool.State.{
  Printer, Job, PrinterStatus, printer_disabled, printer_idle, printer_busy, JobStatus, job_created,
  job_running, job_paused, job_finished, job_aborted, job_deleted, Spooler, max_jobs,
}
use cse320_spring.Spool.Jobs.{
  Answers, is_created, is_idle, is_ready, scan_job, scan_jobs, scan_printers, scanner,
}
use cse320_spring.Spool.Invariant.{IsValid}
use cse320_spring.Spool.Keep.{IsValid-flags}
use cse320_spring.Spool.Processes.{started-IsValid}
use cse320_spring.Spool.Scan.{IsForking, IsFresh, IsStart, started, scan_job_cases}

pub created_of : (st : JobStatus) → is_created st ≡ true → st ≡ job_created
created_of job_created h = refl
created_of job_running h = absurd (cc)
created_of job_paused h = absurd (cc)
created_of job_finished h = absurd (cc)
created_of job_aborted h = absurd (cc)
created_of job_deleted h = absurd (cc)

pub idle_of : (st : PrinterStatus) → is_idle st ≡ true → st ≡ printer_idle
idle_of printer_disabled h = absurd (cc)
idle_of printer_idle h = refl
idle_of printer_busy h = absurd (cc)

and_left : (a b : Bool) → (a && b) ≡ true → a ≡ true
and_left true b h = refl
and_left false b h = absurd (cc)

and_right : (a b : Bool) → (a && b) ≡ true → b ≡ true
and_right true b h = h
and_right false b h = absurd (cc)

pub ready_facts :
    (p i : ℕ) (s : Spooler)
    → is_ready p i s ≡ true
    → (test_bit s.job_count i ≡ true)
      × (test_bit (s.jobs i).eligible p ≡ true)
      × ((s.jobs i).status ≡ job_created)
      × ((s.printers p).status ≡ printer_idle)
ready_facts p i s h =
    let bit = test_bit s.job_count i in
    let mask = test_bit (s.jobs i).eligible p in
    let made = is_created (s.jobs i).status in
    let idle = is_idle (s.printers p).status in
    let rest = and_right bit (mask && (made && idle)) h in
    let last = and_right mask (made && idle) rest in
    (
      and_left bit (mask && (made && idle)) h,
      and_left mask (made && idle) rest,
      created_of (s.jobs i).status (and_left made idle last),
      idle_of (s.printers p).status (and_right made idle last),
    )

module _ (a : Answers) (forking : IsForking a) where
  module _ (p i pid : ℕ) (path : List Bytes) (s : Spooler) (v : IsValid s)
      (st : IsStart a p i pid path s) (fresh : IsFresh a p i s) where
    pub started_keeps : p < s.printer_count → IsValid (started p i pid path s)
    started_keeps h =
        let (taken, eligible, made, idle) = ready_facts p i s st.ready in
        let printer : Printer = record (s.printers p) { status = printer_busy; pid = pid } in
        let job : Job = record (s.jobs i) { status = job_running; pid = pid } in
        let printers = update s.printers p printer in
        let jobs = update s.jobs i job in
        let at_printer = update_self s.printers p printer in
        let at_job = update_self s.jobs i job in
        let waiting : (s.jobs i).pid ≡ 0 = elim (eq_cases (s.jobs i).pid 0) [
          | inl e ↦ e
          | inr ne ↦ elim (v.running_status i ne) [ inl e ↦ absurd (cc) | inr e ↦ absurd (cc) ]
        ] in
        let unstamped : (s.jobs i).timestamp ≡ 0 = elim (eq_cases (s.jobs i).timestamp 0) [
          | inl e ↦ e
          | inr ne ↦ elim (v.stamped_status i ne) [ inl e ↦ absurd (cc) | inr e ↦ absurd (cc) ]
        ] in
        let w =
          started-IsValid s v p i printers jobs h (test_bit-lt 64 s.job_count i v.mask taken)
            (λ q k. update_other s.printers p q printer k) (λ j k. update_other s.jobs i j job k)
            pid (forking.some_pid p i pid st.forked) (ap (λ (x : Printer). x.pid) at_printer)
            (ap (λ (x : Printer). x.status) at_printer) (ap (λ (x : Job). x.pid) at_job)
            (ap (λ (x : Job). x.status) at_job) (ap (λ (x : Job). x.timestamp) at_job ∙ unstamped)
            (v.idle_free p idle) waiting taken
            (λ q. fresh.this_printer i pid q (omega arith) st.forked) in
        IsValid-flags (record s { printers = printers; jobs = jobs }) w (s.job_process_count + 1) 1
          s.program_failure (started p i pid path s).reports

    pub started-IsFresh : IsFresh a p (i + 1) (started p i pid path s)
    started-IsFresh = record {
      this_printer = λ j other q k f e. elim (eq_cases q p) [
        | inl at ↦
            let both : other ≡ pid = ground arith in
            let (_, same) = forking.one_child p i p j pid st.forked (f ∙ ap (λ n. some n) both) in
            absurd (omega arith)
        | inr ne ↦ fresh.this_printer j other q (omega arith) f (
            ap (λ (x : Printer). x.pid)
              (sym (
                update_other s.printers p q
                  (record (s.printers p) { status = printer_busy; pid = pid }) ne))
            ∙ e)
      ];
      later_printers = λ r j other q k f e. elim (eq_cases q p) [
        | inl at ↦
            let both : other ≡ pid = ground arith in
            let (same, _) = forking.one_child p i r j pid st.forked (f ∙ ap (λ n. some n) both) in
            absurd (omega arith)
        | inr ne ↦ fresh.later_printers r j other q k f (
            ap (λ (x : Printer). x.pid)
              (sym (
                update_other s.printers p q
                  (record (s.printers p) { status = printer_busy; pid = pid }) ne))
            ∙ e)
      ];
    }

  -- What holds between two rounds, for a table of `n` printers.
  abbrev pub Between : ℕ → ℕ → ℕ → Spooler → Type 0
  Between n p i s = IsValid s × IsFresh a p i s × (s.printer_count ≡ n)

  pub scan_job_keeps :
      (n p i : ℕ) (s : Spooler) → p < n → Between n p i s → Between n p (i + 1) (scan_job a p i s)
  scan_job_keeps n p i s h (v, fresh, count) = elim (scan_job_cases a p i s) [
    | inl e ↦ subst (Between n p (i + 1)) (sym e) (
      v,
      record {
        this_printer = λ j pid q k f. fresh.this_printer j pid q (omega arith) f;
        later_printers = fresh.later_printers;
      },
      count,
    )
    | inr (pid, path, st, e) ↦ subst (Between n p (i + 1)) (sym e) (
      started_keeps p i pid path s v st fresh (omega arith),
      started-IsFresh p i pid path s v st fresh,
      count,
    )
  ]

  pub scan_jobs_keeps :
      (rounds n p i : ℕ) (s : Spooler)
      → p < n
      → Between n p i s
      → Between n p (i + rounds) (scan_jobs rounds a p i s)
  unfolding scan_jobs
  scan_jobs_keeps zero n p i s h b = subst (λ k. Between n p k s) (omega arith) b
  scan_jobs_keeps (suc rounds) n p i s h b =
      let rest =
        scan_jobs_keeps rounds n p (i + 1) (scan_job a p i s) h (scan_job_keeps n p i s h b) in
      subst (λ k. Between n p k (scan_jobs rounds a p (i + 1) (scan_job a p i s))) (omega arith)
        rest

  next_printer : (n p i : ℕ) (s : Spooler) → Between n p i s → Between n (p + 1) 0 s
  next_printer n p i s (v, fresh, count) = (
    v,
    record {
      this_printer = λ j pid q k f. fresh.later_printers (p + 1) j pid q (omega arith) f;
      later_printers = λ r j pid q k f. fresh.later_printers r j pid q (omega arith) f;
    },
    count,
  )

  pub scan_printers_keeps :
      (rounds n p : ℕ) (s : Spooler)
      → p + rounds ≤ n
      → Between n p 0 s
      → Between n (p + rounds) 0 (scan_printers rounds a p s)
  unfolding scan_printers
  scan_printers_keeps zero n p s h b = subst (λ k. Between n k 0 s) (omega arith) b
  scan_printers_keeps (suc rounds) n p s h b =
      let s' = scan_jobs max_jobs a p 0 s in
      let after =
        next_printer n p (0 + max_jobs) s' (scan_jobs_keeps max_jobs n p 0 s (omega arith) b) in
      let rest = scan_printers_keeps rounds n (p + 1) s' (omega arith) after in
      subst (λ k. Between n k 0 (scan_printers rounds a (p + 1) s')) (omega arith) rest

-- The scanner keeps the invariant, where fork gives each child a pid that no other child has.
pub scanner-IsValid :
    (a : Answers) (s : Spooler) → IsForking a → IsFresh a 0 0 s → IsValid s → IsValid (scanner a s)
unfolding scanner
scanner-IsValid a s forking fresh v =
    (scan_printers_keeps a forking s.printer_count s.printer_count 0 s (omega arith)
      (v, fresh, refl)).0
