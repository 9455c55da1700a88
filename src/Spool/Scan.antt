-- ===== src/Spool/Scan.antt =====
-- The scanner keeps the invariant.
use cse320_spring.Base.{
  ℕ, ◌+◌, ◌≤◌, ◌<◌, ◌≡◌, ◌≢◌, ◌⊎◌, inl, inr, refl, true, false, none, some, ◌∷◌, ◌==◌, Bool-cases,
  Option-cases, ==-eq-true, List,
}
use mathlib.Core.Path.{fun_ext, ap₂}
use cse320_spring.Base.Text.{Bytes}
use cse320_spring.Base.Maps.{update}
use cse320_spring.Spool.State.{
  printer_busy, job_running, Spooler, job_started, printer_status, job_status,
}
use cse320_spring.Spool.Jobs.{Answers, is_ready, start_job, scan_job}

-- fork gives the parent a pid that is not 0, and another one for each child.
pub record IsForking (a : Answers) : Type 0 where
  pub some_pid : (p i pid : ℕ) → a.fork p i ≡ some pid → pid ≢ 0
  pub one_child :
      (p i q j pid : ℕ) → a.fork p i ≡ some pid → a.fork q j ≡ some pid → (p ≡ q) × (i ≡ j)

-- The pids that fork is still to give, from a printer and a job on, are of no printer.
pub record IsFresh (a : Answers) (p i : ℕ) (s : Spooler) : Type 0 where
  pub this_printer : (j pid q : ℕ) → i ≤ j → a.fork p j ≡ some pid → (s.printers q).pid ≢ pid
  pub later_printers : (r j pid q : ℕ) → p < r → a.fork r j ≡ some pid → (s.printers q).pid ≢ pid

-- The state after a job was started.
abbrev pub started : ℕ → ℕ → ℕ → List Bytes → Spooler → Spooler
started p i pid path s = record s {
  job_process_count = s.job_process_count + 1;
  jobs_done = 1;
  printers = update s.printers p (record (s.printers p) { status = printer_busy; pid = pid });
  jobs = update s.jobs i (record (s.jobs i) { status = job_running; pid = pid });
  reports =
      job_started i (s.printers p).name pid path
      ∷ (printer_status (s.printers p).name printer_busy ∷ (job_status i job_running ∷ s.reports));
}

-- A job is ready, a path is there, fork gives a pid and calloc space: then the job is started.
pub record IsStart (a : Answers) (p i pid : ℕ) (path : List Bytes) (s : Spooler) : Type 0 where
  pub ready : is_ready p i s ≡ true
  pub path_there : a.find_conversion_path (s.jobs i).type.name (s.printers p).type.name ≡ some path
  pub forked : a.fork p i ≡ some pid
  pub allocated : a.calloc p i ≡ true

-- Two writes to one entry of a table are one.
rewritten {ℓ} :
    {A : Type ℓ} (f : ℕ → A) (k : ℕ) (u : A) (g : A → A)
    → update (update f k u) k (g (update f k u k)) ≡ update f k (g u)
rewritten f k u g =
    fun_ext (λ j. elim (Bool-cases (j == k)) [ inl t ↦ rw (t, ==-eq-true k k refl) | inr t ↦ rw t ])

-- The state that start_job leaves.
abbrev begun : ℕ → ℕ → ℕ → List Bytes → Spooler → Spooler
begun p i pid path s = record s {
  jobs = update s.jobs i (record (s.jobs i) { status = job_running });
  printers = update s.printers p (record (s.printers p) { status = printer_busy });
  reports =
      job_started i (s.printers p).name pid path
      ∷ (printer_status (s.printers p).name printer_busy ∷ (job_status i job_running ∷ s.reports));
}

start_job-begun :
    (a : Answers) (p i pid : ℕ) (path : List Bytes) (s : Spooler)
    → a.fork p i ≡ some pid
    → a.calloc p i ≡ true
    → start_job a p i path s ≡ (some pid, begun p i pid path s)
unfolding start_job
start_job-begun a p i pid path s f c = rw (start_job, f, c)

start_job-none :
    (a : Answers) (p i : ℕ) (path : List Bytes) (s : Spooler)
    → ((pid : ℕ) → a.fork p i ≡ some pid → a.calloc p i ≡ false)
    → start_job a p i path s ≡ (none, s)
unfolding start_job
start_job-none a p i path s h = elim (Option-cases (a.fork p i)) [
  | inl n ↦ rw (start_job, n)
  | inr (pid, f) ↦ rw (start_job, f, h pid f)
]

pub scan_job-started :
    (a : Answers) (p i pid : ℕ) (path : List Bytes) (s : Spooler)
    → IsStart a p i pid path s
    → scan_job a p i s ≡ started p i pid path s
unfolding scan_job
scan_job-started a p i pid path s st =
    let begin = start_job-begun a p i pid path s st.forked st.allocated in
    let ps =
      rewritten s.printers p (record (s.printers p) { status = printer_busy })
        (λ x. record x { pid = pid }) in
    let js =
      rewritten s.jobs i (record (s.jobs i) { status = job_running })
        (λ x. record x { pid = pid }) in
    rw (st.ready, st.path_there, begin, begin)
      (ap₂
        (λ P J. record (begun p i pid path s) {
          job_process_count = s.job_process_count + 1;
          jobs_done = 1;
          printers = P;
          jobs = J;
        })
        ps js)

-- The scanner's body starts the job or changes nothing.
pub scan_job_cases :
    (a : Answers) (p i : ℕ) (s : Spooler)
    → (scan_job a p i s ≡ s)
      ⊎ ((pid : ℕ) × (path : List Bytes) × IsStart a p i pid path s
          × (scan_job a p i s ≡ started p i pid path s))
unfolding scan_job
scan_job_cases a p i s = elim (Bool-cases (is_ready p i s)) [
  | inr t ↦ inl (rw t)
  | inl t ↦
      elim (Option-cases (a.find_conversion_path (s.jobs i).type.name (s.printers p).type.name)) [
        | inl n ↦ inl (rw (t, n))
        | inr (path, e) ↦ elim (Option-cases (a.fork p i)) [
          | inl f ↦
              let same = start_job-none a p i path s (λ pid g. absurd (cc)) in
              inl (rw (t, e, same, same))
          | inr (pid, f) ↦ elim (Bool-cases (a.calloc p i)) [
            | inl c ↦
                let st : IsStart a p i pid path s = record {
                  ready = t;
                  path_there = e;
                  forked = f;
                  allocated = c;
                } in
                inr (pid, path, st, scan_job-started a p i pid path s st)
            | inr c ↦
                let same = start_job-none a p i path s (λ pid g. c) in inl (rw (t, e, same, same))
          ]
        ]
      ]
]
