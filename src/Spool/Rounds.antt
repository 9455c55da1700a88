-- ===== src/Spool/Rounds.antt =====
-- A whole round of run_cli in hw4/src/cli.c keeps the invariant.
use cse320_spring.Base.{
  ℕ, zero, suc, ◌+◌, ◌-◌, ◌≡◌, ◌≢◌, inl, inr, refl, Bool, true, false, not, Option, none, some,
  List, [], ◌∷◌, arith, ◌==◌, ◌&&◌, leb, Bool-cases,
}
use cse320_spring.Base.Text.{Bytes}
use cse320_spring.Spool.Mask.{flip_bit, test_bit-flip_bit_other, flip_bit-lt, test_bit-lt}
use cse320_spring.Spool.State.{job_deleted, Spooler, max_jobs, job_removed, job_status}
use cse320_spring.Spool.Words.{split_string, array_of, tokens}
use cse320_spring.Spool.Commands.{World, error}
use cse320_spring.Spool.Cli.{
  Next, is_word, run_command, delete_job, delete_jobs, finish_round, run_quit, run_words, run_line,
}
use cse320_spring.Spool.Invariant.{IsValid}
use cse320_spring.Spool.Keep.{IsValid-flags, IsValid-job}
use cse320_spring.Spool.Tables.{with_job-IsValid}
use cse320_spring.Spool.Dispatch.{Gives, gives, run_command-Gives}
use cse320_spring.Spool.Lines.{
  report-IsValid, run_printer-IsValid, run_conversion-IsValid, run_cancel-IsValid,
  run_pause-IsValid, run_resume-IsValid, run_disable-IsValid, run_enable-IsValid,
}

run_command-IsValid :
    (w : World) (name : Bytes) (args : List Bytes) (s : Spooler)
    → w.malloc ≡ true
    → IsValid s
    → Gives IsValid (run_command w name args s)
run_command-IsValid w name args s m v =
    run_command-Gives IsValid w s (report-IsValid _ s v) (report-IsValid _ s v) name args m v.mask
      (λ file type mask i k free.
        report-IsValid _ _ (report-IsValid _ _ (with_job-IsValid file type mask i s v k free)))
      (λ a b. run_printer-IsValid w a b s v) (λ a b c. run_conversion-IsValid w a b c s v)
      (λ _ a. run_cancel-IsValid w a s v) (λ a. run_pause-IsValid a s v)
      (λ a. run_resume-IsValid a s v) (λ a. run_disable-IsValid a s v)
      (λ a. run_enable-IsValid a s v)

pub delete_job-IsValid : (time i : ℕ) (s : Spooler) → IsValid s → IsValid (delete_job time i s)
unfolding delete_job
delete_job-IsValid time i s v =
    elim (Bool-cases (not ((s.jobs i).timestamp == 0) && leb 10 (time - (s.jobs i).timestamp))) [
      | inr t ↦ rw (delete_job, t) v
      | inl t ↦
          let stamped : (s.jobs i).timestamp ≢ 0 = ground arith in
          let waiting : (s.jobs i).pid ≢ 0 → ⊥ = λ z. stamped (v.running_unstamped i z) in
          let k =
            IsValid-job s v i (flip_bit s.job_count i) 0 (s.jobs i).eligible (s.jobs i).file
              (s.jobs i).type (s.jobs i).status
              (flip_bit-lt 64 s.job_count i v.mask
                (test_bit-lt 64 s.job_count i v.mask (v.stamped_taken i stamped)))
              (λ j n. test_bit-flip_bit_other s.job_count i j n) (λ z. absurd (waiting z))
              (v.active_pid i) (λ z. absurd (z refl)) in
          rw (delete_job, t)
            (IsValid-flags _ k s.job_process_count s.jobs_done s.program_failure
              (job_removed i ∷ (job_status i job_deleted ∷ s.reports)))
    ]

delete_jobs-IsValid :
    (rounds time i : ℕ) (s : Spooler) → IsValid s → IsValid (delete_jobs rounds time i s)
unfolding delete_jobs
delete_jobs-IsValid zero time i s v = v
delete_jobs-IsValid (suc rounds) time i s v =
    delete_jobs-IsValid rounds time (i + 1) (delete_job time i s) (delete_job-IsValid time i s v)

array_of-IsValid :
    (c : Bool) (ws : List Bytes) (s : Spooler) → IsValid s → IsValid (array_of c ws s).1
array_of-IsValid c [] s v = v
array_of-IsValid true (x ∷ xs) s v = v
array_of-IsValid false (x ∷ xs) s v =
    IsValid-flags s v s.job_process_count s.jobs_done true s.reports

split_string-IsValid :
    (m c : Bool) (line : Bytes) (s : Spooler) → IsValid s → IsValid (split_string m c line s).1
unfolding split_string
split_string-IsValid m c [] s v = v
split_string-IsValid false c (b ∷ bs) s v =
    IsValid-flags s v s.job_process_count s.jobs_done true s.reports
split_string-IsValid true c (b ∷ bs) s v = array_of-IsValid c (tokens [] (b ∷ bs)) s v

finish_round-IsValid : (w : World) (s : Spooler) → IsValid s → IsValid (finish_round w s).1
unfolding finish_round
finish_round-IsValid w s v = delete_jobs-IsValid max_jobs w.now 0 s v

run_quit-IsValid :
    (w : World) (args : List Bytes) (s : Spooler) → IsValid s → IsValid (run_quit w args s).1
run_quit-IsValid w [] s v = report-IsValid _ s v
run_quit-IsValid w (a ∷ rest) s v = finish_round-IsValid w (error s) (report-IsValid _ s v)

abbrev Goes : Option (Next × Spooler) → Type 0
Goes o = (n : Next) × (s' : Spooler) × (o ≡ some (n, s')) × IsValid s'

goes : (r : Next × Spooler) → IsValid r.1 → Goes (some r)
goes r v = (r.0, r.1, refl, v)

run_words-IsValid :
    (w : World) (ws : Option (List Bytes)) (s : Spooler)
    → w.malloc ≡ true
    → IsValid s
    → Goes (run_words w ws s)
unfolding run_words
run_words-IsValid w none s m v = goes (finish_round w s) (finish_round-IsValid w s v)
run_words-IsValid w (some []) s m v = goes (finish_round w s) (finish_round-IsValid w s v)
run_words-IsValid w (some (name ∷ args)) s m v = elim (Bool-cases (is_word "quit" name)) [
  | inl t ↦ rw t (goes (run_quit w args s) (run_quit-IsValid w args s v))
  | inr t ↦ elim (run_command-IsValid w name args s m v) [
    | gives s' e v' ↦ rw (t, e) (goes (finish_round w s') (finish_round-IsValid w s' v'))
  ]
]

-- A line that was read gives a result and keeps the invariant.
pub run_line-IsValid :
    (w : World) (line : Bytes) (s : Spooler)
    → w.malloc ≡ true
    → IsValid s
    → (n : Next) × (s' : Spooler) × (run_line w line s ≡ some (n, s')) × IsValid s'
unfolding run_line
run_line-IsValid w line s m v =
    run_words-IsValid w (split_string w.line_malloc w.calloc line s).0
      (split_string w.line_malloc w.calloc line s).1 m
      (split_string-IsValid w.line_malloc w.calloc line s v)
