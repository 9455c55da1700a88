-- ===== src/Spool/Reach.antt =====
-- The steps of the spooler of hw4, and the states that they reach.
use cse320_spring.Base.{
  ℕ, zero, suc, ◌+◌, ◌≡◌, ◌≢◌, inl, inr, refl, sym, ◌∙◌, ap, true, some, List, [], ◌∷◌, ◌++◌, subst,
  Bool-cases,
}
use mathlib.Core.Option.{some-injective}
use mathlib.Core.List.{append_assoc}
use cse320_spring.Base.Text.{Bytes}
use cse320_spring.Spool.State.{
  JobStatus, job_created, job_running, job_paused, job_finished, job_aborted, job_deleted,
  WaitStatus, Spooler, Report, report, Signal, killed, sigterm, sigcont, max_jobs,
}
use cse320_spring.Spool.Jobs.{Answers, scanner, reap}
use cse320_spring.Spool.Commands.{World}
use cse320_spring.Spool.Cli.{Next, run_line, end_paused, is_paused}
use cse320_spring.Spool.Invariant.{IsValid, initial, initial-IsValid}
use cse320_spring.Spool.Scan.{IsForking, IsFresh}
use cse320_spring.Spool.ScanKeep.{scanner-IsValid}
use cse320_spring.Spool.Reap.{reap_lem}
use cse320_spring.Spool.Rounds.{run_line-IsValid}

-- A line is run, the scanner runs, or job_handler takes note of a child that a printer waits for.
pub data Step : Spooler → Spooler → Type 0 where
  line :
      (w : World) (text : Bytes) (n : Next) {s s' : Spooler}
      → w.malloc ≡ true
      → run_line w text s ≡ some (n, s')
      → Step s s'
  scan :
      (a : Answers) {s s' : Spooler} → IsForking a → IsFresh a 0 0 s → scanner a s ≡ s' → Step s s'
  child :
      (time pid p : ℕ) (status : WaitStatus) {s s' : Spooler}
      → pid ≢ 0
      → (s.printers p).pid ≡ pid
      → reap time pid status s ≡ some s'
      → Step s s'

pub data Reach (s : Spooler) : Spooler → Type 0 where
  here : Reach s s
  next : {t u : Spooler} → Reach s t → Step t u → Reach s u

Step-IsValid : {s s' : Spooler} → Step s s' → IsValid s → IsValid s'
Step-IsValid {s} {s'} (line w text n m e) v =
    let (n', t, f, k) = run_line-IsValid w text s m v in
    let same : (n', t) ≡ (n, s') = some-injective (n', t) (n, s') (sym f ∙ e) in
    subst IsValid (ap (λ (r : Next × Spooler). r.1) same) k
Step-IsValid {s} {s'} (scan a forking fresh e) v =
    subst IsValid e (scanner-IsValid a s forking fresh v)
Step-IsValid {s} {s'} (child time pid p status h held e) v =
    let (i, q, _, _, _, _, f, k) = reap_lem s time pid p status v h held in
    subst IsValid (some-injective _ s' (sym f ∙ e)) k

-- In every state that the spooler reaches from its start: there are at most 32 printers; an idle
-- printer runs no process and a busy one runs one; a process runs for just one job on just one
-- printer; a job with a process has a slot that is taken, is running or paused, and has no time
-- stamp; a job that is running or paused has a process; a job with a time stamp has a slot that is
-- taken and is finished or aborted.
pub Reach-IsValid : {s : Spooler} → Reach initial s → IsValid s
Reach-IsValid here = initial-IsValid
Reach-IsValid (next r st) = Step-IsValid st (Reach-IsValid r)

paused_of : (st : JobStatus) → is_paused st ≡ true → st ≡ job_paused
paused_of job_created h = absurd (cc)
paused_of job_running h = absurd (cc)
paused_of job_paused h = refl
paused_of job_finished h = absurd (cc)
paused_of job_aborted h = absurd (cc)
paused_of job_deleted h = absurd (cc)

-- No signal of these reports goes to pid 0.
pub data NoneToZero : List Report → Type 0 where
  no_reports : NoneToZero []
  one_signal :
      {pid : ℕ} {sig : Signal} {rs : List Report}
      → pid ≢ 0
      → NoneToZero rs
      → NoneToZero (killed pid sig ∷ rs)

NoneToZero-append :
    (rs : List Report) (pid : ℕ)
    → NoneToZero rs
    → pid ≢ 0
    → NoneToZero (rs ++ (killed pid sigcont ∷ (killed pid sigterm ∷ [])))
NoneToZero-append [] pid no_reports h = one_signal h (one_signal h no_reports)
NoneToZero-append (r ∷ rs) pid (one_signal k q) h = one_signal k (NoneToZero-append rs pid q h)

end_paused_reports :
    (rounds i : ℕ) (s : Spooler)
    → ((j : ℕ) → (s.jobs j).status ≡ job_paused → (s.jobs j).pid ≢ 0)
    → (new : List Report) × ((end_paused rounds i s).reports ≡ new ++ s.reports) × NoneToZero new
unfolding end_paused
end_paused_reports zero i s h = ([], refl, no_reports)
end_paused_reports (suc rounds) i s h = elim (Bool-cases (is_paused (s.jobs i).status)) [
  | inr t ↦ rw (end_paused, t) (end_paused_reports rounds (i + 1) s h)
  | inl t ↦
      let pid = (s.jobs i).pid in
      let (new, e, q) =
        end_paused_reports rounds (i + 1)
          (report (killed pid sigcont) (report (killed pid sigterm) s)) h in
      rw (end_paused, t)
        (
          new ++ (killed pid sigcont ∷ (killed pid sigterm ∷ [])),
          e ∙ sym (append_assoc new (killed pid sigcont ∷ (killed pid sigterm ∷ [])) s.reports),
          NoneToZero-append new pid q (h i (paused_of (s.jobs i).status t)),
        )
]

-- In every state that the spooler reaches from its start, the loop that ends the paused jobs calls
-- killpg, which with pid 0 would end the spooler's own group, only with pids that are not 0, and
-- reports nothing else.
pub end_paused-NoneToZero :
    (s : Spooler)
    → Reach initial s
    → (new : List Report) × ((end_paused max_jobs 0 s).reports ≡ new ++ s.reports) × NoneToZero new
end_paused-NoneToZero s r =
    end_paused_reports max_jobs 0 s (λ j e. (Reach-IsValid r).active_pid j (inr e))
