-- ===== src/Spool/Idle.antt =====
-- The scanner leaves no job that could start.
use cse320_spring.Base.{
  ℕ, zero, suc, ◌+◌, ◌≤◌, ◌<◌, ◌≡◌, ◌≢◌, inl, inr, sym, ◌∙◌, ap, ap₂, some, true, false, List,
  arith, ◌&&◌, eq_cases, Bool-cases, subst,
}
use cse320_spring.Base.Text.{Bytes}
use cse320_spring.Base.Maps.{update_self, update_other}
use cse320_spring.Spool.Mask.{test_bit}
use cse320_spring.Spool.State.{Printer, Job, printer_busy, job_running, Spooler, max_jobs}
use cse320_spring.Spool.Jobs.{
  Answers, is_created, is_idle, is_ready, scan_job, scan_jobs, scan_printers, scanner,
}
use cse320_spring.Spool.Scan.{IsStart, started, scan_job_cases, scan_job-started}
use cse320_spring.Spool.ScanKeep.{ready_facts}

module _ (a : Answers) where
  -- The printer of a job that was started is busy, and the job is running.
  started_printer :
      (p i pid : ℕ) (path : List Bytes) (s : Spooler)
      → ((started p i pid path s).printers p).status ≡ printer_busy
  started_printer p i pid path s =
      ap (λ (x : Printer). x.status)
        (update_self s.printers p (record (s.printers p) { status = printer_busy; pid = pid }))

  started_job :
      (p i pid : ℕ) (path : List Bytes) (s : Spooler)
      → ((started p i pid path s).jobs i).status ≡ job_running
  started_job p i pid path s =
      ap (λ (x : Job). x.status)
        (update_self s.jobs i (record (s.jobs i) { status = job_running; pid = pid }))

  started_less :
      (p i q j pid other : ℕ) (path way : List Bytes) (s : Spooler)
      → IsStart a q j other way (started p i pid path s)
      → IsStart a q j other way s
  started_less p i q j pid other path way s st =
      let (taken, eligible, made, idle) = ready_facts q j (started p i pid path s) st.ready in
      let apart : q ≢ p = λ e.
        let b =
          ap (λ k. ((started p i pid path s).printers k).status) e
          ∙ started_printer p i pid path s in
        absurd (cc) in
      let apart' : j ≢ i = λ e.
        let b = ap (λ k. ((started p i pid path s).jobs k).status) e ∙ started_job p i pid path s in
        absurd (cc) in
      let printer =
        update_other s.printers p q (record (s.printers p) { status = printer_busy; pid = pid })
          apart in
      let job =
        update_other s.jobs i j (record (s.jobs i) { status = job_running; pid = pid }) apart' in
      record {
        ready =
            sym (
              ap₂
                (λ (x : Job) (y : Printer).
                  test_bit s.job_count j
                  && (test_bit x.eligible q && (is_created x.status && is_idle y.status)))
                job printer)
            ∙ st.ready;
        path_there =
            sym (
              ap₂ (λ (x : Job) (y : Printer). a.find_conversion_path x.type.name y.type.name) job
                printer)
            ∙ st.path_there;
        forked = st.forked;
        allocated = st.allocated;
      }

  scan_job_less :
      (p i q j pid : ℕ) (path : List Bytes) (s : Spooler)
      → IsStart a q j pid path (scan_job a p i s)
      → IsStart a q j pid path s
  scan_job_less p i q j pid path s st = elim (scan_job_cases a p i s) [
    | inl e ↦ subst (IsStart a q j pid path) e st
    | inr (x, way, _, e) ↦
        started_less p i q j x pid way path s (subst (IsStart a q j pid path) e st)
  ]

  scan_job_done :
      (p i pid : ℕ) (path : List Bytes) (s : Spooler)
      → IsStart a p i pid path (scan_job a p i s)
      → ⊥
  scan_job_done p i pid path s st =
      let e = scan_job-started a p i pid path s (scan_job_less p i p i pid path s st) in
      let st' = subst (IsStart a p i pid path) e st in
      let (_, _, _, idle) = ready_facts p i (started p i pid path s) st'.ready in
      let busy = started_printer p i pid path s in cc

  scan_jobs_less :
      (rounds p i q j pid : ℕ) (path : List Bytes) (s : Spooler)
      → IsStart a q j pid path (scan_jobs rounds a p i s)
      → IsStart a q j pid path s
  unfolding scan_jobs
  scan_jobs_less zero p i q j pid path s st = st
  scan_jobs_less (suc rounds) p i q j pid path s st =
      scan_job_less p i q j pid path s
        (scan_jobs_less rounds p (i + 1) q j pid path (scan_job a p i s) st)

  scan_jobs_done :
      (rounds p i j pid : ℕ) (path : List Bytes) (s : Spooler)
      → i ≤ j
      → j < i + rounds
      → IsStart a p j pid path (scan_jobs rounds a p i s)
      → ⊥
  unfolding scan_jobs
  scan_jobs_done zero p i j pid path s h k st = absurd (omega arith)
  scan_jobs_done (suc rounds) p i j pid path s h k st = elim (eq_cases j i) [
    | inr ne ↦
        scan_jobs_done rounds p (i + 1) j pid path (scan_job a p i s) (omega arith) (omega arith) st
    | inl e ↦
        let first = scan_jobs_less rounds p (i + 1) p j pid path (scan_job a p i s) st in
        scan_job_done p i pid path s
          (subst (λ k. IsStart a p k pid path (scan_job a p i s)) e first)
  ]

  scan_printers_less :
      (rounds p q j pid : ℕ) (path : List Bytes) (s : Spooler)
      → IsStart a q j pid path (scan_printers rounds a p s)
      → IsStart a q j pid path s
  unfolding scan_printers
  scan_printers_less zero p q j pid path s st = st
  scan_printers_less (suc rounds) p q j pid path s st =
      scan_jobs_less max_jobs p 0 q j pid path s
        (scan_printers_less rounds (p + 1) q j pid path (scan_jobs max_jobs a p 0 s) st)

  scan_printers_done :
      (rounds p q j pid : ℕ) (path : List Bytes) (s : Spooler)
      → p ≤ q
      → q < p + rounds
      → j < max_jobs
      → IsStart a q j pid path (scan_printers rounds a p s)
      → ⊥
  unfolding scan_printers
  scan_printers_done zero p q j pid path s h k l st = absurd (omega arith)
  scan_printers_done (suc rounds) p q j pid path s h k l st = elim (eq_cases q p) [
    | inr ne ↦
        scan_printers_done rounds (p + 1) q j pid path (scan_jobs max_jobs a p 0 s) (omega arith)
          (omega arith) l st
    | inl e ↦
        let first =
          scan_printers_less rounds (p + 1) q j pid path (scan_jobs max_jobs a p 0 s) st in
        scan_jobs_done max_jobs p 0 j pid path s (omega arith) (omega arith)
          (subst (λ k. IsStart a k j pid path (scan_jobs max_jobs a p 0 s)) e first)
  ]

scanner_left :
    (a : Answers) (s : Spooler) (p i pid : ℕ) (path : List Bytes)
    → p < s.printer_count
    → i < max_jobs
    → IsStart a p i pid path (scanner a s)
    → ⊥
unfolding scanner
scanner_left a s p i pid path h k st =
    scan_printers_done a s.printer_count 0 p i pid path s (omega arith) (omega arith) k st

-- After the scanner, where there is a path from the type of a job to that of a printer, and fork and
-- calloc succeed for them, it does not hold that the slot is taken, the job is created and eligible
-- for the printer, and the printer is idle.
pub scanner_done :
    (a : Answers) (s : Spooler) (p i pid : ℕ) (path : List Bytes)
    → p < s.printer_count
    → i < max_jobs
    → a.find_conversion_path ((scanner a s).jobs i).type.name ((scanner a s).printers p).type.name
      ≡ some path
    → a.fork p i ≡ some pid
    → a.calloc p i ≡ true
    → (test_bit (scanner a s).job_count i
        && (test_bit ((scanner a s).jobs i).eligible p
            && (is_created ((scanner a s).jobs i).status
                && is_idle ((scanner a s).printers p).status)))
      ≡ false
scanner_done a s p i pid path h k there forked allocated =
    elim (Bool-cases (is_ready p i (scanner a s))) [
      | inr t ↦ t
      | inl t ↦ absurd (
          scanner_left a s p i pid path h k
            (record { ready = t; path_there = there; forked = forked; allocated = allocated }))
    ]
